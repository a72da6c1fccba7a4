-- ===== src/Security/Offenders/Counting.antt =====
-- The totals that the alerts add up to.
use megoo_pm.Prelude.{
  ℕ, ◌+◌, ◌≡◌, refl, sym, ap, subst, ◌∙◌, inl, inr, Bool, true, false, Bool-cases, ◌||◌, Option,
  none, some, List, [], ◌∷◌, ◌++◌, map, any, All, All-append, All-mono, if◌then◌else◌, arith,
}
use megoo_pm.Text.{Text, same, is_empty}
use megoo_pm.Text.Equality.{same→eq, same_refl}
use megoo_pm.Security.Offenders.{
  SourceAlert, alert_source_key, counted_events, is_key, raised, add_total, Tally, tallied, tally,
}

-- The events of an alert that count for a source.
abbrev pub events_for : Text → Option Text → SourceAlert → ℕ
events_for k none alert = 0
events_for k (some key) alert =
    if is_empty key then 0 else if same key k then counted_events alert.events_count else 0

unfoldable pub events_of : Text → List SourceAlert → ℕ
events_of k [] = 0
events_of k (alert ∷ alerts) = events_for k (alert_source_key alert) alert + events_of k alerts

-- The totals are those of a counting function.
pub record Counts (f : Text → ℕ) (totals : List (Text × ℕ)) : Type 0 where
  pub entries : All (λ e. e.1 ≡ f e.0) totals
  pub absent : (k : Text) → any (is_key k) totals ≡ false → f k ≡ 0

abbrev more_of : Text → ℕ → (Text → ℕ) → Text → ℕ
more_of key n f k = f k + (if same key k then n else 0)

raised-All :
    (f : Text → ℕ) (key : Text) (n : ℕ) (totals : List (Text × ℕ))
    → All (λ e. e.1 ≡ f e.0) totals
    → All (λ e. e.1 ≡ more_of key n f e.0) (map (raised key n) totals)
raised-All f key n [] h = tt
raised-All f key n ((k, m) ∷ totals) (e, h) = elim (Bool-cases (same key k)) [
  | inl here ↦ rw (here, here) (omega arith, raised-All f key n totals h)
  | inr other ↦ rw (other, other) (omega arith, raised-All f key n totals h)
]

raised-any :
    (key k : Text) (n : ℕ) (totals : List (Text × ℕ))
    → any (is_key k) (map (raised key n) totals) ≡ any (is_key k) totals
raised-any key k n [] = refl
raised-any key k n ((j, m) ∷ totals) = elim (Bool-cases (same key j)) [
  | inl here ↦ rw here (ap (λ b. same k j || b) (raised-any key k n totals))
  | inr other ↦ rw other (ap (λ b. same k j || b) (raised-any key k n totals))
]

kept-All :
    (f : Text → ℕ) (key : Text) (n : ℕ) (totals : List (Text × ℕ))
    → any (is_key key) totals ≡ false
    → All (λ e. e.1 ≡ f e.0) totals
    → All (λ e. e.1 ≡ more_of key n f e.0) totals
kept-All f key n [] new h = tt
kept-All f key n ((k, m) ∷ totals) new (e, h) =
    let other : same key k ≡ false = ground arith in
    let rest : any (is_key key) totals ≡ false = ground arith in
    (rw other (omega arith), kept-All f key n totals rest h)

any-snoc :
    (k : Text) (e : Text × ℕ) (totals : List (Text × ℕ))
    → any (is_key k) (totals ++ e ∷ []) ≡ any (is_key k) totals || is_key k e
any-snoc k e [] = or_false (is_key k e)
  where
    or_false : (b : Bool) → (b || false) ≡ b
    or_false true = refl
    or_false false = refl
any-snoc k e (t ∷ totals) = elim (Bool-cases (is_key k t)) [
  | inl b ↦ rw b refl
  | inr b ↦ rw b (any-snoc k e totals)
]

neither : (a b : Bool) → (a || b) ≡ false → (a ≡ false) × (b ≡ false)
neither true b h = absurd (ground arith)
neither false b h = (refl, h)

-- A source that is absent is not the one that was added.
more-absent :
    (f : Text → ℕ) (key k : Text) (n : ℕ) → f k ≡ 0 → same k key ≡ false → more_of key n f k ≡ 0
more-absent f key k n h other = elim (Bool-cases (same key k)) [
  | inl here ↦
      absurd (let q : same k key ≡ true = rw (same→eq key k here) (same_refl k) in ground arith)
  | inr apart ↦ rw (h, apart) (omega arith)
]

not_same :
    (key k : Text) (totals : List (Text × ℕ))
    → any (is_key key) totals ≡ true
    → any (is_key k) totals ≡ false
    → same k key ≡ false
not_same key k totals known h = elim (Bool-cases (same k key)) [
  | inl e ↦ absurd (
      let q : any (is_key key) totals ≡ false =
        subst (λ j. any (is_key j) totals ≡ false) (same→eq k key e) h in
      ground arith)
  | inr e ↦ e
]

counted :
    (f : Text → ℕ) (key : Text) (n : ℕ) (totals : List (Text × ℕ))
    → Counts f totals
    → Counts (more_of key n f) (add_total key n totals)
unfolding add_total
counted f key n totals c = elim (Bool-cases (any (is_key key) totals)) [
  | inl known ↦ rw known (record {
    entries = raised-All f key n totals c.entries;
    absent = λ k h.
        let was : any (is_key k) totals ≡ false = sym (raised-any key k n totals) ∙ h in
        more-absent f key k n (c.absent k was) (not_same key k totals known was);
  })
  | inr new ↦ rw new (record {
    entries =
        All-append (λ e. e.1 ≡ more_of key n f e.0) totals ((key, n) ∷ [])
          (kept-All f key n totals new c.entries)
          (rw (same_refl key, c.absent key new) (omega arith), tt);
    absent = λ k h.
        let (before, other) = neither _ _ (sym (any-snoc k (key, n) totals) ∙ h) in
        more-absent f key k n (c.absent k before) other;
  })
]

pub Counts-congr :
    (f g : Text → ℕ) (totals : List (Text × ℕ))
    → ((k : Text) → f k ≡ g k)
    → Counts f totals
    → Counts g totals
Counts-congr f g totals h c = record {
  entries = All-mono {Q = λ e. e.1 ≡ g e.0} (λ e k. k ∙ h e.0) totals c.entries;
  absent = λ k new. sym (h k) ∙ c.absent k new;
}

tallied-Counts :
    (f : Text → ℕ) (o : Option Text) (alert : SourceAlert) (t : Tally)
    → Counts f t.totals
    → Counts (λ k. f k + events_for k o alert) (tallied o alert t).totals
tallied-Counts f none alert t c = Counts-congr f (λ k. f k + 0) t.totals (λ k. omega arith) c
tallied-Counts f (some key) alert t c = elim (Bool-cases (is_empty key)) [
  | inl blank ↦ rw blank (Counts-congr f (λ k. f k + 0) t.totals (λ k. omega arith) c)
  | inr named ↦ rw named (counted f key (counted_events alert.events_count) t.totals c)
]

pub tally-Counts :
    (f : Text → ℕ) (alerts : List SourceAlert) (t : Tally)
    → Counts f t.totals
    → Counts (λ k. f k + events_of k alerts) (tally alerts t).totals
unfolding tally events_of
tally-Counts f [] t c = Counts-congr f (λ k. f k + 0) t.totals (λ k. omega arith) c
tally-Counts f (alert ∷ alerts) t c =
    let now = tallied-Counts f (alert_source_key alert) alert t c in
    Counts-congr (λ k. f k + events_for k (alert_source_key alert) alert + events_of k alerts) _ _
      (λ k. omega arith)
      (tally-Counts (λ k. f k + events_for k (alert_source_key alert) alert) alerts
        (tallied (alert_source_key alert) alert t) now)
