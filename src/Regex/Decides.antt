-- ===== src/Regex/Decides.antt =====
-- `test` decides the language of an expression.
use megoo_pm.Prelude.{
  ℕ, zero, suc, ◌≡◌, refl, sym, ◌↔◌, ◌⊎◌, inl, inr, Bool, true, [], ◌∷◌, ◌++◌, arith, Bool-cases,
  if◌then◌else◌, ap, ◌∙◌, subst,
}
use megoo_pm.Text.{Text}
use megoo_pm.Regex.{
  Regex, never, eps, cls, seq, alt, star, upto, nullable, join, is_never, either, deriv, test,
}
use megoo_pm.Regex.Language.{
  Matches, at_eps, at_cls, at_seq, at_left, at_right, stop, again, enough, once,
}

nullable_sound : (r : Regex) → nullable r ≡ true → Matches r []
unfolding nullable
nullable_sound never h = cc
nullable_sound eps h = at_eps
nullable_sound (cls p) h = cc
nullable_sound (seq r q) h =
    at_seq [] [] (nullable_sound r (ground arith)) (nullable_sound q (ground arith)) refl
nullable_sound (alt r q) h = elim (Bool-cases (nullable r)) [
  | inl e ↦ at_left (nullable_sound r e)
  | inr e ↦ at_right (nullable_sound q (ground arith))
]
nullable_sound (star r) h = stop
nullable_sound (upto n r) h = enough

append-eq-nil : (s t : Text) → s ++ t ≡ [] → (s ≡ []) × (t ≡ [])
append-eq-nil [] t e = (refl, e)
append-eq-nil (c ∷ s) t e = cc

nullable_complete : {r : Regex} {s : Text} → Matches r s → s ≡ [] → nullable r ≡ true
unfolding nullable
nullable_complete at_eps e = refl
nullable_complete (at_cls c h) e = cc
nullable_complete (at_seq s t m k h) e =
    let (p, q) = append-eq-nil s t (sym h ∙ e) in rw (nullable_complete m p, nullable_complete k q)
nullable_complete (at_left m) e = rw (nullable_complete m e)
nullable_complete (at_right {r} m) e = ground (arith, nullable_complete m e)
nullable_complete stop e = refl
nullable_complete (again c s t m k h) e = cc
nullable_complete enough e = refl
nullable_complete (once c s t m k h) e = cc

Matches-never : {s : Text} → Matches never s → ⊥
Matches-never m = elim m [ ]

join_sound : (r q : Regex) {u : Text} → Matches (join r q) u → Matches (seq r q) u
unfolding join
join_sound never q m = absurd (Matches-never m)
join_sound eps q {u} m = at_seq [] u at_eps m refl
join_sound _ q m = m

join_complete :
    {r q : Regex} {s t u : Text} → Matches r s → Matches q t → u ≡ s ++ t → Matches (join r q) u
unfolding join
join_complete {q} at_eps k e = rw e k
join_complete {s} {t} (at_cls c h) k e = at_seq _ t (at_cls c h) k e
join_complete {t} (at_seq a b m m' h) k e = at_seq _ t (at_seq a b m m' h) k e
join_complete {t} (at_left m) k e = at_seq _ t (at_left m) k e
join_complete {t} (at_right m) k e = at_seq _ t (at_right m) k e
join_complete {t} stop k e = at_seq _ t stop k e
join_complete {t} (again c a b m m' h) k e = at_seq _ t (again c a b m m' h) k e
join_complete {t} enough k e = at_seq _ t enough k e
join_complete {t} (once c a b m m' h) k e = at_seq _ t (once c a b m m' h) k e

never_of_is_never : (r : Regex) → is_never r ≡ true → r ≡ never
never_of_is_never never h = refl
never_of_is_never eps h = cc
never_of_is_never _ h = cc

dead : (r : Regex) {s : Text} → is_never r ≡ true → Matches r s → ⊥
dead r {s} h m = Matches-never (subst (λ q. Matches q s) (never_of_is_never r h) m)

either_sound : (r q : Regex) {u : Text} → Matches (either r q) u → Matches (alt r q) u
unfolding either
either_sound r q m = elim (Bool-cases (is_never r)) [
  | inl e ↦ at_right (rw e at m)
  | inr e ↦ elim (Bool-cases (is_never q)) [
    | inl f ↦ at_left (rw (e, f) at m)
    | inr f ↦ rw (e, f) at m
  ]
]

either_left : (r q : Regex) {u : Text} → Matches r u → Matches (either r q) u
unfolding either
either_left r q m = elim (Bool-cases (is_never r)) [
  | inl e ↦ absurd (dead r e m)
  | inr e ↦ elim (Bool-cases (is_never q)) [ inl f ↦ rw (e, f) m | inr f ↦ rw (e, f) (at_left m) ]
]

either_right : (r q : Regex) {u : Text} → Matches q u → Matches (either r q) u
unfolding either
either_right r q m = elim (Bool-cases (is_never r)) [
  | inl e ↦ rw e m
  | inr e ↦ elim (Bool-cases (is_never q)) [
    | inl f ↦ absurd (dead q f m)
    | inr f ↦ rw (e, f) (at_right m)
  ]
]

pub Matches-seq :
    {r q : Regex} {u : Text}
    → Matches (seq r q) u
    → (s : Text) × (t : Text) × Matches r s × Matches q t × (u ≡ s ++ t)
Matches-seq (at_seq s t m k h) = (s, t, m, k, h)

pub Matches-alt : {r q : Regex} {u : Text} → Matches (alt r q) u → Matches r u ⊎ Matches q u
Matches-alt (at_left m) = inl m
Matches-alt (at_right m) = inr m

pub Matches-eps : {s : Text} → Matches eps s → s ≡ []
Matches-eps at_eps = refl

pub Matches-cls :
    {p : ℕ → Bool} {s : Text} → Matches (cls p) s → (c : ℕ) × (p c ≡ true) × (s ≡ c ∷ [])
Matches-cls (at_cls c h) = (c, h, refl)

deriv_sound : (c : ℕ) (r : Regex) {s : Text} → Matches (deriv c r) s → Matches r (c ∷ s)
unfolding deriv
deriv_sound c never m = absurd (Matches-never m)
deriv_sound c eps m = absurd (Matches-never m)
deriv_sound c (cls p) m = elim (Bool-cases (p c)) [
  | inl e ↦ rw (Matches-eps (rw e at m)) (at_cls c e)
  | inr e ↦ absurd (Matches-never (rw e at m))
]
deriv_sound c (seq r q) m = elim (Matches-alt (either_sound _ _ m)) [
  | inl k ↦
      let (s, t, a, b, e) = Matches-seq (join_sound _ _ k) in
      at_seq (c ∷ s) t (deriv_sound c r a) b (ap (λ v. c ∷ v) e)
  | inr k ↦ elim (Bool-cases (nullable r)) [
    | inl e ↦ at_seq [] _ (nullable_sound r e) (deriv_sound c q (rw e at k)) refl
    | inr e ↦ absurd (Matches-never (rw e at k))
  ]
]
deriv_sound c (alt r q) m = elim (Matches-alt (either_sound _ _ m)) [
  | inl k ↦ at_left (deriv_sound c r k)
  | inr k ↦ at_right (deriv_sound c q k)
]
deriv_sound c (star r) m =
    let (s, t, a, b, e) = Matches-seq (join_sound _ _ m) in
    again c s t (deriv_sound c r a) b (ap (λ v. c ∷ v) e)
deriv_sound c (upto zero r) m = absurd (Matches-never m)
deriv_sound c (upto (suc n) r) m =
    let (s, t, a, b, e) = Matches-seq (join_sound _ _ m) in
    once c s t (deriv_sound c r a) b (ap (λ v. c ∷ v) e)

deriv_complete : (c : ℕ) {r : Regex} {s u : Text} → Matches r u → u ≡ c ∷ s → Matches (deriv c r) s
unfolding deriv
deriv_complete c at_eps e = cc
deriv_complete c {s} (at_cls {p} d h) e =
    let same_unit : d ≡ c = cc in let last : s ≡ [] = cc in rw (last, ← same_unit, h) at_eps
deriv_complete c {s} (at_seq {r} {q} [] t m k h) e =
    either_right (join (deriv c r) q) (if nullable r then deriv c q else never)
      (rw (nullable_complete m refl) (deriv_complete c k (sym h ∙ e)))
deriv_complete c {s} (at_seq {r} {q} (d ∷ a) t m k h) e =
    let w : d ∷ (a ++ t) ≡ c ∷ s = sym h ∙ e in
    either_left _ _ (join_complete (deriv_complete c {s = a} m (cc)) k (cc))
deriv_complete c (at_left m) e = either_left _ _ (deriv_complete c m e)
deriv_complete c (at_right m) e = either_right _ _ (deriv_complete c m e)
deriv_complete c stop e = cc
deriv_complete c {s} (again d a t m k h) e =
    let w : d ∷ (a ++ t) ≡ c ∷ s = sym h ∙ e in
    join_complete (deriv_complete c {s = a} m (cc)) k (cc)
deriv_complete c enough e = cc
deriv_complete c {s} (once d a t m k h) e =
    let w : d ∷ (a ++ t) ≡ c ∷ s = sym h ∙ e in
    join_complete (deriv_complete c {s = a} m (cc)) k (cc)

test_sound : (r : Regex) (s : Text) → test r s ≡ true → Matches r s
unfolding test
test_sound r [] h = nullable_sound r h
test_sound r (c ∷ s) h = deriv_sound c r (test_sound (deriv c r) s h)

test_complete : (r : Regex) (s : Text) → Matches r s → test r s ≡ true
unfolding test
test_complete r [] m = nullable_complete m refl
test_complete r (c ∷ s) m = test_complete (deriv c r) s (deriv_complete c m refl)

-- An anchored expression accepts exactly the texts of its language.
pub test_iff : (r : Regex) (s : Text) → (test r s ≡ true) ↔ Matches r s
test_iff r s = (test_sound r s, test_complete r s)
