-- ===== src/Prelude/Images.antt =====
-- Lists whose images under a function are distinct, and what filtering and cutting keep of that.
use Prim.Native.Nat.{ℕ, zero, suc}
use mathlib.Core.Path.{◌≡◌, refl, ap, sym}
use mathlib.Core.Bool.{Bool}
use mathlib.Core.List.{List, [], ◌∷◌, ◌++◌, map}
use native.Mathlib.Omega.{arith}
use megoo_pm.Prelude.Lists.{
  filter, take, All, All-take, All-mono, All-append, All-append_left, All-append_right, All-both,
  Fresh, Distinct,
}

module _ {ℓ} {A : Type ℓ} where
  pub Distinct-take : (n : ℕ) (xs : List A) → Distinct xs → Distinct (take n xs)
  Distinct-take zero xs h = tt
  Distinct-take (suc n) [] h = tt
  Distinct-take (suc n) (x ∷ xs) (f, h) = (All-take _ n xs f, Distinct-take n xs h)

module _ {ℓ κ} {A : Type ℓ} {B : Type κ} (f : A → B) where
  pub map-take : (n : ℕ) (xs : List A) → map f (take n xs) ≡ take n (map f xs)
  map-take zero xs = refl
  map-take (suc n) [] = refl
  map-take (suc n) (x ∷ xs) = ap (λ ys. f x ∷ ys) (map-take n xs)

  pub All-map-filter {μ} :
      (P : B → Type μ) (p : A → Bool) (xs : List A) → All P (map f xs) → All P (map f (filter p xs))
  All-map-filter P p [] h = tt
  All-map-filter P p (x ∷ xs) (q, h) = ground (arith, All-map-filter P p xs h)

  pub Distinct-map-filter :
      (p : A → Bool) (xs : List A) → Distinct (map f xs) → Distinct (map f (filter p xs))
  Distinct-map-filter p [] h = tt
  Distinct-map-filter p (x ∷ xs) (g, h) =
      ground (arith, All-map-filter (λ y. ¬ (f x ≡ y)) p xs g, Distinct-map-filter p xs h)

  pub Distinct-map-take : (n : ℕ) (xs : List A) → Distinct (map f xs) → Distinct (map f (take n xs))
  Distinct-map-take n xs h = rw (map-take n xs) (Distinct-take n (map f xs) h)

-- None of these was seen before.
module _ {ℓ} {A : Type ℓ} where
  abbrev pub Unseen : List A → List A → Type ℓ
  Unseen seen xs = All (λ x. Fresh x seen) xs

  pub Unseen-snoc :
      (seen : List A) (x : A) (xs : List A)
      → Unseen (seen ++ x ∷ []) xs
      → Fresh x xs × Unseen seen xs
  Unseen-snoc seen x xs h = (
    All-mono (λ p f e. (All-append_right _ seen (x ∷ []) f).0 (sym e)) xs h,
    All-mono (λ p f. All-append_left _ seen (x ∷ []) f) xs h,
  )

  pub snoc-Unseen :
      (seen : List A) (x : A) (xs : List A)
      → Fresh x xs
      → Unseen seen xs
      → Unseen (seen ++ x ∷ []) xs
  snoc-Unseen seen x xs f h =
      All-mono (λ p fs. All-append _ seen (x ∷ []) fs.0 ((λ e. fs.1 (sym e)), tt)) xs
        (All-both (λ p. Fresh p seen) (λ p. ¬ (x ≡ p)) xs h f)
