-- ===== src/Text/Equality.antt =====
-- `same` and `has` decide equality and membership.
use megoo_pm.Prelude.{◌≡◌, refl, ◌↔◌, true, false, List, [], ◌∷◌, arith, Fresh}
use megoo_pm.Text.{Text, same, has}

pub same→eq : (s t : Text) → same s t ≡ true → s ≡ t
unfolding same
same→eq [] [] h = refl
same→eq [] (d ∷ t) h = ground arith
same→eq (c ∷ s) [] h = ground arith
same→eq (c ∷ s) (d ∷ t) h = ground (arith, same→eq s t)

pub same_refl : (s : Text) → same s s ≡ true
unfolding same
same_refl [] = refl
same_refl (c ∷ s) = ground (arith, same_refl s)

pub same_iff : (s t : Text) → (same s t ≡ true) ↔ (s ≡ t)
same_iff s t = (same→eq s t, λ e. ground (arith, same_refl s))

pub has-Fresh : (s : Text) (ts : List Text) → has s ts ≡ false → Fresh s ts
unfolding has
has-Fresh s [] h = tt
has-Fresh s (t ∷ ts) h = ground (arith, same_iff s t, has-Fresh s ts)

pub Fresh-has : (s : Text) (ts : List Text) → Fresh s ts → has s ts ≡ false
unfolding has
Fresh-has s [] h = refl
Fresh-has s (t ∷ ts) h = ground (arith, same_iff s t, Fresh-has s ts)
