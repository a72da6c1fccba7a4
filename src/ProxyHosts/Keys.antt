-- ===== src/ProxyHosts/Keys.antt =====
-- The React keys of the location rows.
use megoo_pm.Prelude.{
  ℕ, zero, suc, ◌+◌, ◌<◌, ◌≡◌, refl, ◌∙◌, List, [], ◌∷◌, ◌++◌, map, arith, All, All-mono, Fresh,
  Distinct,
}
use megoo_pm.Text.{Text, text}
use megoo_pm.Text.Equality.{same_refl}
use megoo_pm.Number.{number_text}
use megoo_pm.Number.Decimal.{number_text-injective, number_text-ne}
use megoo_pm.ProxyHosts.{LocationRow, Location}
use megoo_pm.ProxyHosts.State.{new_location_row, row_of}

-- The rows that `count` clicks on "add" make.
unfoldable pub new_rows : ℕ → ℕ → List LocationRow
new_rows zero seq = []
new_rows (suc count) seq = let (row, seq') = new_location_row seq in row ∷ new_rows count seq'

abbrev pub keys : List LocationRow → List Text
keys rows = map (λ row. row.key) rows

stored_key : ℕ → Text
stored_key id = text "loc-" ++ number_text id

new_key : ℕ → Text
new_key n = text "loc-new-" ++ number_text n

cancel : (s : Text) {t u : Text} → s ++ t ≡ s ++ u → t ≡ u
cancel [] e = e
cancel (c ∷ s) e = cancel s (cc)

stored_key-injective : (n m : ℕ) → stored_key n ≡ stored_key m → n ≡ m
unfolding stored_key
stored_key-injective n m e = number_text-injective n m (cancel (text "loc-") e)

new_key-injective : (n m : ℕ) → new_key n ≡ new_key m → n ≡ m
unfolding new_key
new_key-injective n m e = number_text-injective n m (cancel (text "loc-new-") e)

-- After "loc-" a stored key goes on with a digit, and a new one with "new-".
stored_key-ne-new_key : (n m : ℕ) → ¬ (stored_key n ≡ new_key m)
unfolding stored_key new_key text
stored_key-ne-new_key n m e =
    let rest : number_text n ≡ text "new-" ++ number_text m = cancel (text "loc-") e in
    ground (
      arith,
      number_text-ne n b'n' (b'e' ∷ b'w' ∷ b'-' ∷ number_text m) refl,
      same_refl (number_text n),
    )

abbrev Newer : ℕ → Text → Type 0
Newer seq key = (n : ℕ) × (seq < n) × (key ≡ new_key n)

new_rows-Newer : (count seq : ℕ) → All (Newer seq) (keys (new_rows count seq))
unfolding new_rows new_location_row new_key
new_rows-Newer zero seq = tt
new_rows-Newer (suc count) seq = (
  (seq + 1, omega arith, refl),
  All-mono (λ key (n, later, e). (n, omega arith, e)) (keys (new_rows count (seq + 1)))
      (new_rows-Newer count (seq + 1)),
)

new_rows-Distinct : (count seq : ℕ) → Distinct (keys (new_rows count seq))
unfolding new_rows new_location_row
new_rows-Distinct zero seq = tt
new_rows-Distinct (suc count) seq = (
  All-mono (λ key (n, later, e) q. absurd (apart seq n later (q ∙ e)))
      (keys (new_rows count (seq + 1))) (new_rows-Newer count (seq + 1)),
  new_rows-Distinct count (seq + 1),
)
  where
    apart : (m n : ℕ) → m + 1 < n → ¬ (text "loc-new-" ++ number_text (m + 1) ≡ new_key n)
    apart m n later q =
        unfold new_key in
        omega (arith, later, number_text-injective (m + 1) n (cancel (text "loc-new-") q))

stored-Newer : (seq id : ℕ) (ks : List Text) → All (Newer seq) ks → Fresh (stored_key id) ks
stored-Newer seq id ks h = All-mono (λ key (n, later, e) q. stored_key-ne-new_key id n (q ∙ e)) ks h

Fresh-stored :
    (l : Location) (ls : List Location)
    → Fresh l.id (map (λ (m : Location). m.id) ls)
    → Fresh (row_of l).key (keys (map row_of ls))
unfolding row_of
Fresh-stored l [] h = tt
Fresh-stored l (m ∷ ls) (f, h) =
    (λ e. f (unfold stored_key in stored_key-injective l.id m.id e), Fresh-stored l ls h)

row_key : (l : Location) → (row_of l).key ≡ stored_key l.id
unfolding row_of stored_key
row_key l = refl

-- The stored rows of a host, whose ids differ, and any number of rows added to them, whatever the
-- counter stands at, all have different keys.
pub rows-Distinct-keys :
    (ls : List Location) (count seq : ℕ)
    → Distinct (map (λ (l : Location). l.id) ls)
    → Distinct (keys (map row_of ls ++ new_rows count seq))
rows-Distinct-keys [] count seq h = new_rows-Distinct count seq
rows-Distinct-keys (l ∷ ls) count seq (f, h) =
    (Fresh-both l ls (Fresh-stored l ls f), rows-Distinct-keys ls count seq h)
  where
    Fresh-both :
        (m : Location) (ms : List Location)
        → Fresh (row_of m).key (keys (map row_of ms))
        → Fresh (row_of m).key (keys (map row_of ms ++ new_rows count seq))
    Fresh-both m [] g =
        rw (row_key m)
          (stored-Newer seq m.id (keys (new_rows count seq)) (new_rows-Newer count seq))
    Fresh-both m (x ∷ ms) (g, gs) = (g, Fresh-both m ms gs)
