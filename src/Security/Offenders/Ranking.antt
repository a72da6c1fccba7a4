-- ===== src/Security/Offenders/Ranking.antt =====
-- The ranking: the counts are the events of each source, the highest first.
use megoo_pm.Prelude.{
  ℕ, zero, suc, ◌≤◌, ◌≡◌, refl, inl, inr, Bool, true, false, Bool-cases, List, [], ◌∷◌, length,
  length-take, take, map, All, All-take, All-mono, arith,
}
use megoo_pm.Text.{Text}
use megoo_pm.Security.Offenders.{
  SourceAlert, Offender, tally, offender_of, ranks_after, insert, sorted, top_offenders,
}
use megoo_pm.Security.Offenders.Counting.{events_of, Counts-congr, tally-Counts}

-- No count is above the one before it.
abbrev pub Ranked : List Offender → Type 0
Ranked [] = Unit
Ranked (x ∷ []) = Unit
Ranked (x ∷ y ∷ ys) = (y.count ≤ x.count) × Ranked (y ∷ ys)

-- The counts of the offenders.
abbrev HasCount : List SourceAlert → Offender → Type 0
HasCount alerts o = o.count ≡ events_of o.key alerts

offenders-All :
    (alerts : List SourceAlert) (countries : List (Text × Text)) (totals : List (Text × ℕ))
    → All (λ e. e.1 ≡ events_of e.0 alerts) totals
    → All (HasCount alerts) (map (offender_of countries) totals)
offenders-All alerts countries [] h = tt
offenders-All alerts countries ((k, n) ∷ totals) (e, h) =
    (e, offenders-All alerts countries totals h)

module _ (comes_after : Text → Text → Bool) where
  insert-All :
      (P : Offender → Type 0) (x : Offender) (ys : List Offender)
      → P x
      → All P ys
      → All P (insert comes_after x ys)
  unfolding insert
  insert-All P x [] h k = (h, tt)
  insert-All P x (y ∷ ys) h (k, ks) =
      let rest = insert-All P x ys h ks in
      elim (Bool-cases (ranks_after comes_after x y)) [
        | inl later ↦ rw later (k, rest)
        | inr here ↦ rw here (h, (k, ks))
      ]

  sorted-All :
      (P : Offender → Type 0) (xs : List Offender) → All P xs → All P (sorted comes_after xs)
  unfolding sorted
  sorted-All P [] h = tt
  sorted-All P (x ∷ xs) (h, hs) = insert-All P x (sorted comes_after xs) h (sorted-All P xs hs)

  -- The head of a ranked list that `x` goes into, below a count.
  Ranked-cons :
      (x : Offender) (ys : List Offender)
      → All (λ y. y.count ≤ x.count) ys
      → Ranked ys
      → Ranked (x ∷ ys)
  Ranked-cons x [] h r = tt
  Ranked-cons x (y ∷ ys) (h, hs) r = (h, r)

  Ranked-head :
      (x : Offender) (ys : List Offender)
      → Ranked (x ∷ ys)
      → All (λ y. y.count ≤ x.count) ys × Ranked ys
  Ranked-head x [] r = (tt, tt)
  Ranked-head x (y ∷ ys) (h, r) =
      let (below, _) = Ranked-head y ys r in
      ((h, All-mono {Q = λ z. z.count ≤ x.count} (λ z k. omega arith) ys below), r)

  goes_after : (x y : Offender) → ranks_after comes_after x y ≡ true → x.count ≤ y.count
  goes_after x y h = ground arith

  goes_before : (x y : Offender) → ranks_after comes_after x y ≡ false → y.count ≤ x.count
  goes_before x y h = ground arith

  insert-Ranked : (x : Offender) (ys : List Offender) → Ranked ys → Ranked (insert comes_after x ys)
  unfolding insert
  insert-Ranked x [] r = tt
  insert-Ranked x (y ∷ ys) r =
      let (below, rest) = Ranked-head y ys r in
      let further = insert-Ranked x ys rest in
      elim (Bool-cases (ranks_after comes_after x y)) [
        | inl later ↦ rw later (
            Ranked-cons y _ (insert-All (λ z. z.count ≤ y.count) x ys (goes_after x y later) below)
              further)
        | inr here ↦ rw here (goes_before x y here, r)
      ]

  sorted-Ranked : (xs : List Offender) → Ranked (sorted comes_after xs)
  unfolding sorted
  sorted-Ranked [] = tt
  sorted-Ranked (x ∷ xs) = insert-Ranked x (sorted comes_after xs) (sorted-Ranked xs)

  take-Ranked : (n : ℕ) (xs : List Offender) → Ranked xs → Ranked (take n xs)
  take-Ranked zero xs r = tt
  take-Ranked (suc n) [] r = tt
  take-Ranked (suc n) (x ∷ xs) r =
      let (below, rest) = Ranked-head x xs r in
      Ranked-cons x (take n xs) (All-take (λ y. y.count ≤ x.count) n xs below)
        (take-Ranked n xs rest)

  -- There are at most as many offenders as asked for, no count is above the one before it, and each
  -- count is the sum of the events of the alerts of that source, one for an alert without a
  -- positive number of them.
  pub top_offenders-Ranked :
      (alerts : List SourceAlert) (limit : ℕ)
      → (length (top_offenders comes_after alerts limit) ≤ limit)
        × Ranked (top_offenders comes_after alerts limit)
        × All (λ o. o.count ≡ events_of o.key alerts) (top_offenders comes_after alerts limit)
  unfolding top_offenders
  top_offenders-Ranked alerts limit =
      let t = tally alerts (record { totals = []; countries = [] }) in
      let c =
        tally-Counts (λ k. 0) alerts (record { totals = []; countries = [] })
          (record { entries = tt; absent = λ k h. refl }) in
      let exact = Counts-congr _ (λ k. events_of k alerts) t.totals (λ k. omega arith) c in
      let xs = map (offender_of t.countries) t.totals in
      let sized = length-take limit (sorted comes_after xs) in
      (
        omega arith,
        take-Ranked limit _ (sorted-Ranked xs),
        All-take (HasCount alerts) limit _ (
            sorted-All (HasCount alerts) xs
              (offenders-All alerts t.countries t.totals exact.entries)),
      )
