-- ===== src/Security/Timeline.antt =====
-- Each bucket of the timeline counts the alerts of its span.
use megoo_pm.Prelude.{
  ℕ, zero, suc, ◌+◌, ◌-◌, ◌*◌, ◌/◌, ◌≤◌, ◌<◌, ◌≡◌, ◌↔◌, refl, ap, ◌∙◌, Bool, true, false,
  Bool-cases, inl, inr, ◌&&◌, ◌||◌, Option, none, some, List, [], ◌∷◌, length, ltb, leb, ◌==◌,
  arith,
}
use native.Mathlib.Nat.{le-div_iff_mul-le, div-lt_iff_lt-mul}
use megoo_pm.Text.{Text}
use megoo_pm.Security.{
  Alert, TimeBucket, started, count_in, empty_buckets, from_now, parse_timestamp, add_alert,
  add_alerts, build_timeline,
}

-- The count of a bucket, 0 out of range
abbrev pub count_at : ℕ → List TimeBucket → ℕ
count_at i [] = 0
count_at zero (b ∷ bs) = b.count
count_at (suc i) (b ∷ bs) = count_at i bs

-- A time in the `age`th span of `bucket_ms` before now; the newest span has no end.
abbrev pub is_aged : (now_ms bucket_ms age : ℕ) → Option ℕ → Bool
is_aged now_ms bucket_ms age none = false
is_aged now_ms bucket_ms age (some t) =
    ltb now_ms (t + (age + 1) * bucket_ms) && (age == 0 || leb (t + age * bucket_ms) now_ms)

abbrev pub one_if : Bool → ℕ
one_if true = 1
one_if false = 0

length-count_in : (j : ℕ) (bs : List TimeBucket) → length (count_in j bs) ≡ length bs
unfolding count_in
length-count_in j [] = refl
length-count_in zero (b ∷ bs) = refl
length-count_in (suc j) (b ∷ bs) = ap suc (length-count_in j bs)

count_at-count_in :
    (i j : ℕ) (bs : List TimeBucket)
    → j < length bs
    → count_at i (count_in j bs) ≡ count_at i bs + one_if (i == j)
unfolding count_in
count_at-count_in i j [] h = absurd (omega arith)
count_at-count_in zero zero (b ∷ bs) h = refl
count_at-count_in zero (suc j) (b ∷ bs) h = grind arith
count_at-count_in (suc i) zero (b ∷ bs) h = grind arith
count_at-count_in (suc i) (suc j) (b ∷ bs) h =
    let both : (suc i == suc j) ≡ (i == j) = grind arith in
    rw both (count_at-count_in i j bs (omega arith))

count_at-empty_buckets :
    (now_ms bucket_ms i left : ℕ) → count_at i (empty_buckets now_ms bucket_ms left) ≡ 0
unfolding empty_buckets
count_at-empty_buckets now_ms bucket_ms i zero = refl
count_at-empty_buckets now_ms bucket_ms zero (suc left) = refl
count_at-empty_buckets now_ms bucket_ms (suc i) (suc left) =
    count_at-empty_buckets now_ms bucket_ms i left

length-empty_buckets :
    (now_ms bucket_ms left : ℕ) → length (empty_buckets now_ms bucket_ms left) ≡ left
unfolding empty_buckets
length-empty_buckets now_ms bucket_ms zero = refl
length-empty_buckets now_ms bucket_ms (suc left) =
    ap suc (length-empty_buckets now_ms bucket_ms left)

-- Both sides of the quotient, as products
quotient_eq : (x b age : ℕ) → 0 < b → (x / b == age) ≡ (ltb x ((age + 1) * b) && leb (age * b) x)
quotient_eq x b age h =
    let low : (age ≤ x / b) ↔ (age * b ≤ x) = le-div_iff_mul-le h in
    let high : (x / b < age + 1) ↔ (x < (age + 1) * b) = div-lt_iff_lt-mul h in
    ground (arith, low.0, low.1, high.0, high.1)

-- The code's quotient is the age of the time.
from_now-is_aged :
    (now_ms bucket_ms age t : ℕ)
    → 0 < bucket_ms
    → is_aged now_ms bucket_ms age (some t) ≡ (from_now now_ms bucket_ms t == age)
unfolding from_now
from_now-is_aged now_ms bucket_ms age t h = elim (Bool-cases (ltb now_ms t)) [
  | inl future ↦ rw future (grind arith)
  | inr past ↦ let q = quotient_eq (now_ms - t) bucket_ms age h in rw (past, q) (grind arith)
]

module _ (date_parse : Text → Option ℕ) (now_ms bucket_ms buckets : ℕ) where
  -- How many alerts have such an age
  pub tally : ℕ → List Alert → ℕ
  tally age [] = 0
  tally age (a ∷ alerts) =
      one_if (is_aged now_ms bucket_ms age (parse_timestamp date_parse (started a)))
      + tally age alerts

  length-add_alert :
      (o : Option ℕ) (bs : List TimeBucket)
      → length (add_alert date_parse now_ms bucket_ms buckets o bs) ≡ length bs
  unfolding add_alert
  length-add_alert none bs = refl
  length-add_alert (some t) bs = elim (Bool-cases (leb buckets (from_now now_ms bucket_ms t))) [
    | inl old ↦ rw old refl
    | inr kept ↦ rw kept (length-count_in _ bs)
  ]

  count_at-add_alert :
      (age : ℕ) (o : Option ℕ) (bs : List TimeBucket)
      → 0 < bucket_ms
      → age < buckets
      → length bs ≡ buckets
      → count_at (buckets - 1 - age) (add_alert date_parse now_ms bucket_ms buckets o bs)
        ≡ count_at (buckets - 1 - age) bs + one_if (is_aged now_ms bucket_ms age o)
  unfolding add_alert
  count_at-add_alert age none bs h k e = omega arith
  count_at-add_alert age (some t) bs h k e =
      let ago = from_now now_ms bucket_ms t in
      let aged = from_now-is_aged now_ms bucket_ms age t h in
      elim (Bool-cases (leb buckets (from_now now_ms bucket_ms t))) [
        | inl old ↦
            let other : (from_now now_ms bucket_ms t == age) ≡ false = grind arith in
            rw (old, aged, other) (omega arith)
        | inr kept ↦
            let here : (buckets - 1 - age == buckets - 1 - from_now now_ms bucket_ms t)
                ≡ (from_now now_ms bucket_ms t == age) =
              grind arith in
            rw (kept, aged)
              (count_at-count_in (buckets - 1 - age) (buckets - 1 - from_now now_ms bucket_ms t) bs
                  (grind arith)
                ∙ ap (λ c. count_at (buckets - 1 - age) bs + one_if c) here)
      ]

  count_at-add_alerts :
      (age : ℕ) (alerts : List Alert) (bs : List TimeBucket)
      → 0 < bucket_ms
      → age < buckets
      → length bs ≡ buckets
      → (count_at (buckets - 1 - age) (add_alerts date_parse now_ms bucket_ms buckets alerts bs)
          ≡ count_at (buckets - 1 - age) bs + tally age alerts)
        × (length (add_alerts date_parse now_ms bucket_ms buckets alerts bs) ≡ buckets)
  unfolding add_alerts tally
  count_at-add_alerts age [] bs h k e = (omega arith, e)
  count_at-add_alerts age (a ∷ alerts) bs h k e =
      let o = parse_timestamp date_parse (started a) in
      let first = count_at-add_alert age o bs h k e in
      let rest =
        count_at-add_alerts age alerts (add_alert date_parse now_ms bucket_ms buckets o bs) h k
          (length-add_alert o bs ∙ e) in
      (omega (arith, first, rest.0), rest.1)

  -- The timeline has as many buckets as asked for, and the bucket of each age, the newest last,
  -- counts the alerts whose time is in its span. A time in the future counts in the newest bucket;
  -- one before the oldest bucket, or none, nowhere.
  pub build_timeline-count :
      (alerts : List Alert) (age : ℕ)
      → 0 < bucket_ms
      → age < buckets
      → (count_at (buckets - 1 - age) (build_timeline date_parse alerts now_ms bucket_ms buckets)
          ≡ tally age alerts)
        × (length (build_timeline date_parse alerts now_ms bucket_ms buckets) ≡ buckets)
  unfolding build_timeline
  build_timeline-count alerts age h k =
      let done =
        count_at-add_alerts age alerts (empty_buckets now_ms bucket_ms buckets) h k
          (length-empty_buckets now_ms bucket_ms buckets) in
      (
        done.0
            ∙ ap (λ n. n + tally age alerts)
                (count_at-empty_buckets now_ms bucket_ms (buckets - 1 - age) buckets)
            ∙ omega arith,
        done.1,
      )
