-- ===== src/CustomPages/Agreement.antt =====
-- Texts that agree up to a mark: a pattern that the mark stops reads the same of both.
use megoo_pm.Prelude.{
  ℕ, ◌≡◌, ◌≢◌, refl, ap, inl, inr, Bool, true, false, Bool-cases, Option, none, some, [], ◌∷◌, ◌++◌,
  All, ◌==◌, arith,
}
use megoo_pm.Text.{Text}
use megoo_pm.CustomPages.Uris.{strip, span}

-- The same units up to both ends, or up to a mark in both.
pub data Agree (mark : Text) : Text → Text → Type 0 where
  ends : Agree mark [] []
  same_unit : {c : ℕ} {s t : Text} → Agree mark s t → Agree mark (c ∷ s) (c ∷ t)
  marked : {s t : Text} (x y : Text) → s ≡ mark ++ x → t ≡ mark ++ y → Agree mark s t

-- What two readings have in common: both fail, or both leave texts that agree.
abbrev pub Both : Text → Option Text → Option Text → Type 0
Both mark none o = Unit
Both mark (some r) o = (r' : Text) × (o ≡ some r') × Agree mark r r'

strip-nil : (s : Text) → strip [] s ≡ some s
unfolding strip
strip-nil s = refl

strip-miss : (d c : ℕ) (w s : Text) → (c ≡ d → ⊥) → strip (d ∷ w) (c ∷ s) ≡ none
unfolding strip
strip-miss d c w s h = ground arith

strip-cons : (d c : ℕ) (w s : Text) → (c == d) ≡ true → strip (d ∷ w) (c ∷ s) ≡ strip w s
unfolding strip
strip-cons d c w s h = rw h refl

pub strip-Both :
    (h : ℕ) (mark w : Text) {s t : Text}
    → All (λ d. h ≢ d) w
    → Agree (h ∷ mark) s t
    → Both (h ∷ mark) (strip w s) (strip w t)
strip-Both h mark [] {s} {t} k a = rw (strip-nil s) (t, strip-nil t, a)
strip-Both h mark (d ∷ w) k ends = unfold strip in tt
strip-Both h mark (d ∷ w) (k, ks) (same_unit {c} {s} {t} a) = elim (Bool-cases (c == d)) [
  | inl e ↦ rw (strip-cons d c w s e, strip-cons d c w t e) (strip-Both h mark w ks a)
  | inr e ↦ rw (strip-miss d c w s (λ q. ground arith)) tt
]
strip-Both h mark (d ∷ w) (k, ks) (marked x y e f) = rw (e, strip-miss d h w (mark ++ x) k) tt

pub span-Agree :
    (p : ℕ → Bool) (h : ℕ) (mark : Text) {s t : Text}
    → p h ≡ false
    → Agree (h ∷ mark) s t
    → ((span p s).0 ≡ (span p t).0) × Agree (h ∷ mark) (span p s).1 (span p t).1
unfolding span
span-Agree p h mark k ends = (refl, ends)
span-Agree p h mark k (same_unit {c} {s} {t} a) =
    let (runs, rests) = span-Agree p h mark k a in
    elim (Bool-cases (p c)) [
      | inl yes_unit ↦ rw yes_unit (ap (λ run. c ∷ run) runs, rests)
      | inr stop ↦ rw stop (refl, same_unit a)
    ]
span-Agree p h mark k (marked x y e f) = rw (e, f, k) (refl, marked x y refl refl)
