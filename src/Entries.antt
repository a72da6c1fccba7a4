-- ===== src/Entries.antt =====
-- An object used as a map: its own entries in the order they were set, each key once.
use megoo_pm.Prelude.{
  ◌≡◌, refl, inl, inr, Bool, true, false, Bool-cases, Option, none, some, List, [], ◌∷◌,
  if◌then◌else◌, arith,
}
use megoo_pm.Text.{Text, same}
use megoo_pm.Text.Equality.{same→eq}

unfoldable pub lookup : Text → List (Text × Text) → Option Text
lookup key [] = none
lookup key ((k, v) ∷ rest) = if same key k then some v else lookup key rest

-- `object[key] = value`
unfoldable pub put : Text → Text → List (Text × Text) → List (Text × Text)
put key value [] = (key, value) ∷ []
put key value ((k, v) ∷ rest) =
    let further = put key value rest in if same key k then (k, value) ∷ rest else (k, v) ∷ further

-- What is read after a write.
pub lookup-put :
    (k key value : Text) (object : List (Text × Text))
    → lookup k (put key value object) ≡ (if same k key then some value else lookup k object)
unfolding lookup put
lookup-put k key value [] = refl
lookup-put k key value ((j, v) ∷ rest) = elim (Bool-cases (same key j)) [
  | inl here ↦ rw (here, same→eq key j here) (go (same k j) (lookup k rest))
  | inr other ↦ elim (Bool-cases (same k j)) [
    | inl e ↦ rw (other, e, apart e other) refl
    | inr e ↦ rw (other, e) (lookup-put k key value rest)
  ]
]
  where
    go :
        (b : Bool) (o : Option Text)
        → (if b then some value else o) ≡ (if b then some value else (if b then some v else o))
    go true o = refl
    go false o = refl

    apart : same k j ≡ true → same key j ≡ false → same k key ≡ false
    apart e other = elim (Bool-cases (same k key)) [
      | inl q ↦ absurd (let r : same key j ≡ true = rw (← same→eq k key q) e in ground arith)
      | inr q ↦ q
    ]
