-- ===== src/Domains/Grammar.antt =====
-- What the domain pattern accepts, in words: dotted labels, after a wildcard or none.
use megoo_pm.Prelude.{
  ℕ, ◌≤◌, ◌≡◌, refl, sym, ap, subst, ◌∙◌, ◌↔◌, inl, inr, Bool, true, false, List, [], ◌∷◌, ◌++◌,
  append_assoc, arith, length, length-append, All, All-append, All-append_left, ==_iff,
  if◌then◌else◌,
}
use megoo_pm.Text.{Text}
use megoo_pm.Regex.{Regex, cls, seq, star, upto, chr, opt}
use megoo_pm.Regex.Language.{Matches, at_cls, at_seq, stop, again, enough}
use megoo_pm.Regex.Decides.{test_iff, Matches-seq, Matches-cls}
use megoo_pm.Regex.Repeats.{Matches-opt, opt_some, Matches-upto_cls, upto_cls}
use megoo_pm.Domains.{is_alnum, is_inner, label_re, domain_re, is_valid_domain}

abbrev pub StartsAlnum : Text → Type 0
StartsAlnum [] = ⊥
StartsAlnum (c ∷ s) = is_alnum c ≡ true

abbrev pub EndsAlnum : Text → Type 0
EndsAlnum [] = ⊥
EndsAlnum (c ∷ []) = is_alnum c ≡ true
EndsAlnum (c ∷ d ∷ s) = EndsAlnum (d ∷ s)

-- One to 63 letters, digits and hyphens, with no hyphen at either end.
pub record IsLabel (s : Text) : Type 0 where
  pub short : length s ≤ 63
  pub inner : All (λ c. is_inner c ≡ true) s
  pub starts : StartsAlnum s
  pub ends : EndsAlnum s

-- `l₁.l₂.….l`
abbrev pub dotted : List Text → Text → Text
dotted [] last = last
dotted (label ∷ labels) last = label ++ (b'.' ∷ dotted labels last)

abbrev pub wildcard : Bool → Text
wildcard wild = if wild then b'*' ∷ b'.' ∷ [] else []

pub record IsDomain (name : Text) : Type 0 where
  pub wild : Bool
  pub labels : List Text
  pub last : Text
  pub labels_ok : All IsLabel labels
  pub last_ok : IsLabel last
  pub spelled : name ≡ wildcard wild ++ dotted labels last

alnum_inner : (c : ℕ) → is_alnum c ≡ true → is_inner c ≡ true
unfolding is_inner
alnum_inner c h = rw h

EndsAlnum-snoc : (s : Text) (z : ℕ) → EndsAlnum (s ++ z ∷ []) ↔ (is_alnum z ≡ true)
EndsAlnum-snoc [] z = (λ h. h, λ h. h)
EndsAlnum-snoc (a ∷ []) z = (λ h. h, λ h. h)
EndsAlnum-snoc (a ∷ b ∷ s) z = EndsAlnum-snoc (b ∷ s) z

unsnoc : (c : ℕ) (s : Text) → (u : Text) × (z : ℕ) × (c ∷ s ≡ u ++ z ∷ [])
unsnoc c [] = ([], c, refl)
unsnoc c (d ∷ s) = let (u, z, e) = unsnoc d s in (c ∷ u, z, ap (λ v. c ∷ v) e)

IsLabel-one : (c : ℕ) → is_alnum c ≡ true → IsLabel (c ∷ [])
IsLabel-one c h = record {
  short = omega arith;
  inner = (alnum_inner c h, tt);
  starts = h;
  ends = h;
}

IsLabel-many :
    (c : ℕ) (u : Text) (z : ℕ)
    → is_alnum c ≡ true
    → All (λ d. is_inner d ≡ true) u
    → length u ≤ 61
    → is_alnum z ≡ true
    → IsLabel (c ∷ (u ++ z ∷ []))
IsLabel-many c u z h k l e = record {
  short = omega (arith, length-append {0} u (z ∷ []));
  inner = (alnum_inner c h, All-append _ u (z ∷ []) k (alnum_inner z e, tt));
  starts = h;
  ends = (EndsAlnum-snoc (c ∷ u) z).1 e;
}

IsLabel-sound : {s : Text} → Matches label_re s → IsLabel s
IsLabel-sound {s} m =
    let (p, q, first, more, e) = Matches-seq m in
    let (c, h, ec) = Matches-cls first in
    elim (Matches-opt more) [
      | inl none_left ↦
          let whole : s ≡ c ∷ [] = e ∙ ap (λ v. v ++ q) ec ∙ ap (λ v. c ∷ v) none_left in
          subst IsLabel (sym whole) (IsLabel-one c h)
      | inr k ↦
          let (u, v, mid, final, eq) = Matches-seq k in
          let (z, hz, ez) = Matches-cls final in
          let (inner, short) = Matches-upto_cls is_inner mid in
          let whole : s ≡ c ∷ (u ++ z ∷ []) =
            e ∙ ap (λ w. w ++ q) ec ∙ ap (λ w. c ∷ w) eq ∙ ap (λ w. c ∷ (u ++ w)) ez in
          subst IsLabel (sym whole) (IsLabel-many c u z h inner short hz)
    ]

label_complete : (s : Text) → IsLabel s → Matches label_re s
label_complete [] l = absurd l.starts
label_complete (c ∷ []) l = at_seq (c ∷ []) [] (at_cls c l.starts) enough refl
label_complete (c ∷ d ∷ s) l =
    let (u, z, e) = unsnoc d s in
    let inner : All (λ x. is_inner x ≡ true) (u ++ z ∷ []) =
      subst (All (λ x. is_inner x ≡ true)) e l.inner.1 in
    let final : is_alnum z ≡ true = (EndsAlnum-snoc u z).0 (subst EndsAlnum e l.ends) in
    let short : length u ≤ 61 = omega (arith, l.short, ap length e, length-append {0} u (z ∷ [])) in
    let body : Matches (seq (upto 61 (cls is_inner)) (cls is_alnum)) (d ∷ s) =
      at_seq u (z ∷ []) (upto_cls is_inner 61 u (All-append_left _ u (z ∷ []) inner) short)
        (at_cls z final) e in
    at_seq (c ∷ []) (d ∷ s) (at_cls c l.starts) (opt_some d s body) refl

dot : {c : ℕ} {s : Text} → Matches (chr c) s → s ≡ c ∷ []
dot {c} m = let (d, h, e) = Matches-cls m in e ∙ ap (λ x. x ∷ []) ((==_iff d c).0 h)

glue :
    (label rest last joined : Text)
    → rest ++ last ≡ joined
    → ((label ++ b'.' ∷ []) ++ rest) ++ last ≡ label ++ (b'.' ∷ joined)
glue label rest last joined h = simp (append_assoc, h)

prefixed_sound :
    {r : Regex} {s : Text}
    → Matches (star r) s
    → r ≡ seq label_re (chr b'.')
    → (last : Text) → (labels : List Text) × All IsLabel labels × (s ++ last ≡ dotted labels last)
prefixed_sound stop e last = ([], tt, refl)
prefixed_sound (again {r} {u} c s t m k h) e last =
    let (label, point, ml, mp, el) = Matches-seq (subst (λ q. Matches q (c ∷ s)) e m) in
    let (labels, ok, spelled) = prefixed_sound k e last in
    let head : c ∷ s ≡ label ++ b'.' ∷ [] = el ∙ ap (λ v. label ++ v) (dot mp) in
    let whole : u ≡ (label ++ b'.' ∷ []) ++ t = h ∙ ap (λ v. v ++ t) head in
    (
      label ∷ labels,
      (IsLabel-sound ml, ok),
      ap (λ v. v ++ last) whole ∙ glue label t last (dotted labels last) spelled,
    )

again_of :
    {r : Regex} (s t : Text)
    → StartsAlnum s
    → Matches r (s ++ b'.' ∷ [])
    → Matches (star r) t
    → Matches (star r) ((s ++ b'.' ∷ []) ++ t)
again_of [] t h m k = absurd h
again_of (c ∷ s) t h m k = again c (s ++ b'.' ∷ []) t m k refl

prefixed_complete :
    (labels : List Text)
    → All IsLabel labels
    → (last : Text)
    → (s : Text) × Matches (star (seq label_re (chr b'.'))) s × (s ++ last ≡ dotted labels last)
prefixed_complete [] h last = ([], stop, refl)
prefixed_complete (l ∷ labels) (h, hs) last =
    let (s, m, e) = prefixed_complete labels hs last in
    (
      (l ++ b'.' ∷ []) ++ s,
      again_of l s h.starts (at_seq l (b'.' ∷ []) (label_complete l h) (at_cls b'.' refl) refl) m,
      glue l s last (dotted labels last) e,
    )

wildcard_sound :
    {s : Text} → Matches (opt (seq (chr b'*') (chr b'.'))) s → (wild : Bool) × (s ≡ wildcard wild)
wildcard_sound m = elim (Matches-opt m) [
  | inl e ↦ (false, e)
  | inr k ↦ let (a, b, ma, mb, e) = Matches-seq k in (true, e ∙ (rw (dot ma, dot mb)))
]

wildcard_complete : (wild : Bool) → Matches (opt (seq (chr b'*') (chr b'.'))) (wildcard wild)
wildcard_complete false = enough
wildcard_complete true =
    opt_some b'*' (b'.' ∷ [])
      (at_seq (b'*' ∷ []) (b'.' ∷ []) (at_cls b'*' refl) (at_cls b'.' refl) refl)

IsDomain-sound : {name : Text} → Matches domain_re name → IsDomain name
IsDomain-sound m =
    let (front, back, mf, mb, e) = Matches-seq m in
    let (heads, last, mh, ml, e') = Matches-seq mb in
    let (wild, ew) = wildcard_sound mf in
    let (labels, ok, spelled) = prefixed_sound mh refl last in
    record {
      wild = wild;
      labels = labels;
      last = last;
      labels_ok = ok;
      last_ok = IsLabel-sound ml;
      spelled = e ∙ ap (λ v. v ++ back) ew ∙ ap (λ v. wildcard wild ++ v) (e' ∙ spelled);
    }

domain_complete : {name : Text} → IsDomain name → Matches domain_re name
domain_complete d =
    let (heads, m, e) = prefixed_complete d.labels d.labels_ok d.last in
    at_seq (wildcard d.wild) (dotted d.labels d.last) (wildcard_complete d.wild)
      (at_seq heads d.last m (label_complete d.last d.last_ok) (sym e)) d.spelled

-- The pattern accepts exactly the dotted lists of labels, each of one to 63 lower-case letters,
-- digits and hyphens with no hyphen at an end, after "*." or not.
pub is_valid_domain_iff : (name : Text) → (is_valid_domain name ≡ true) ↔ IsDomain name
unfolding is_valid_domain
is_valid_domain_iff name = (
  λ h. IsDomain-sound ((test_iff domain_re name).0 h),
  λ d. (test_iff domain_re name).1 (domain_complete d),
)
