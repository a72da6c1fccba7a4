-- ===== src/Regex/Language.antt =====
-- The texts that a regular expression describes, as a relation.
use megoo_pm.Prelude.{ℕ, suc, ◌≡◌, true, Bool, [], ◌∷◌, ◌++◌}
use megoo_pm.Text.{Text}
use megoo_pm.Regex.{Regex, eps, cls, seq, alt, star, upto}

pub data Matches : Regex → Text → Type 0 where
  at_eps : Matches eps []
  at_cls : {p : ℕ → Bool} (c : ℕ) → p c ≡ true → Matches (cls p) (c ∷ [])
  at_seq :
      {r q : Regex} {u : Text} (s t : Text)
      → Matches r s
      → Matches q t
      → u ≡ s ++ t
      → Matches (seq r q) u
  at_left : {r q : Regex} {s : Text} → Matches r s → Matches (alt r q) s
  at_right : {r q : Regex} {s : Text} → Matches q s → Matches (alt r q) s
  stop : {r : Regex} → Matches (star r) []
  again :
      {r : Regex} {u : Text} (c : ℕ) (s t : Text)
      → Matches r (c ∷ s)
      → Matches (star r) t
      → u ≡ c ∷ (s ++ t)
      → Matches (star r) u
  enough : {n : ℕ} {r : Regex} → Matches (upto n r) []
  once :
      {n : ℕ} {r : Regex} {u : Text} (c : ℕ) (s t : Text)
      → Matches r (c ∷ s)
      → Matches (upto n r) t
      → u ≡ c ∷ (s ++ t)
      → Matches (upto (suc n) r) u
