-- ===== src/Text/Prefix.antt =====
-- `startsWith` as a concatenation.
use megoo_pm.Prelude.{◌≡◌, refl, ◌↔◌, true, [], ◌∷◌, ◌++◌, arith}
use megoo_pm.Text.{Text, starts_with}

pub starts_with→append : (s t : Text) → starts_with s t ≡ true → (r : Text) × (s ≡ t ++ r)
unfolding starts_with
starts_with→append s [] h = (s, refl)
starts_with→append [] (d ∷ t) h = cc
starts_with→append (c ∷ s) (d ∷ t) h =
    let (r, e) = starts_with→append s t (ground arith) in (r, ground arith)

pub append→starts_with : (t r : Text) → starts_with (t ++ r) t ≡ true
unfolding starts_with
append→starts_with [] [] = refl
append→starts_with [] (c ∷ r) = refl
append→starts_with (d ∷ t) r = ground (arith, append→starts_with t r)

pub starts_with_iff : (s t : Text) → (starts_with s t ≡ true) ↔ ((r : Text) × (s ≡ t ++ r))
starts_with_iff s t = (starts_with→append s t, λ h. rw (h.1) (append→starts_with t h.0))
