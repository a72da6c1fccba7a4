-- ===== src/Regex/Repeats.antt =====
-- Inversion and introduction for `r?` and for a repeated character class.
use megoo_pm.Prelude.{
  ℕ, zero, suc, ◌≤◌, ◌≡◌, refl, sym, ◌⊎◌, inl, inr, Bool, true, [], ◌∷◌, ◌++◌, arith, ◌∙◌, subst,
  append-nil, length, All,
}
use megoo_pm.Text.{Text}
use megoo_pm.Regex.{Regex, cls, upto, opt}
use megoo_pm.Regex.Language.{Matches, at_cls, enough, once}
use megoo_pm.Regex.Decides.{Matches-cls}

Matches-upto_zero : {n : ℕ} {r : Regex} {s : Text} → Matches (upto n r) s → n ≡ 0 → s ≡ []
Matches-upto_zero enough e = refl
Matches-upto_zero (once c s t m k h) e = absurd (omega arith)

opt_of : {n : ℕ} {r : Regex} {s : Text} → Matches (upto n r) s → n ≡ 1 → (s ≡ []) ⊎ Matches r s
opt_of enough e = inl refl
opt_of (once {n} {r} c s t m k h) e =
    let last : t ≡ [] = Matches-upto_zero k (omega arith) in
    let whole : c ∷ s ≡ c ∷ (s ++ t) = rw last (sym (append-nil (c ∷ s))) in
    inr (subst (Matches r) (whole ∙ sym h) m)

pub Matches-opt : {r : Regex} {s : Text} → Matches (opt r) s → (s ≡ []) ⊎ Matches r s
Matches-opt m = opt_of m refl

pub opt_some : {r : Regex} (c : ℕ) (s : Text) → Matches r (c ∷ s) → Matches (opt r) (c ∷ s)
opt_some c s m = once c s [] m enough (sym (append-nil (c ∷ s)))

module _ (p : ℕ → Bool) where
  abbrev Each : Text → Type 0
  Each = All (λ c. p c ≡ true)

  cls_head : {c : ℕ} {s : Text} → Matches (cls p) (c ∷ s) → (p c ≡ true) × (s ≡ [])
  cls_head {c} {s} m =
      let (d, ok, e) = Matches-cls m in
      let here : c ≡ d = cc in (subst (λ x. p x ≡ true) (sym here) ok, cc)

  upto_cls_of :
      {n : ℕ} {r : Regex} {s : Text}
      → Matches (upto n r) s
      → r ≡ cls p
      → All (λ c. p c ≡ true) s × (length s ≤ n)
  upto_cls_of enough e = (tt, omega arith)
  upto_cls_of (once c s t m k h) e =
      let (ok, last) = cls_head (subst (λ q. Matches q (c ∷ s)) e m) in
      let (rest, short) = upto_cls_of k e in rw (h, last) ((ok, rest), omega arith)

  pub Matches-upto_cls :
      {n : ℕ} {s : Text} → Matches (upto n (cls p)) s → All (λ c. p c ≡ true) s × (length s ≤ n)
  Matches-upto_cls m = upto_cls_of m refl

  pub upto_cls :
      (n : ℕ) (s : Text) → All (λ c. p c ≡ true) s → length s ≤ n → Matches (upto n (cls p)) s
  upto_cls n [] h l = enough
  upto_cls zero (c ∷ s) h l = absurd (omega arith)
  upto_cls (suc n) (c ∷ s) (ok, h) l = once c [] s (at_cls c ok) (upto_cls n s h (omega arith)) refl
