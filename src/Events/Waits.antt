-- ===== src/Events/Waits.antt =====
-- The waits between two connections, and the end of a subscription.
use megoo_pm.Prelude.{
  ℕ, zero, suc, ◌+◌, ◌*◌, ◌^◌, ◌≤◌, ◌≡◌, refl, sym, ap, subst, ◌∙◌, min, true, false, append-nil,
  Option, List, [], ◌∷◌, ◌++◌, arith,
}
use megoo_pm.Text.{Text}
use megoo_pm.Events.{
  Subscription, Phase, opening, reading, retrying, over, Happening, connected, lost, timer_due,
  unsubscribed, subscribed, backoff_for, retry, at_phase, chunk, has_any, parse_frames, read,
  happen, history,
}

-- So many connections lost in a row, with the waits between them
abbrev pub losses : ℕ → List Happening
losses zero = []
losses (suc n) = lost ∷ timer_due ∷ losses n

-- The event that each phase waits for: the loss of an aborted stream, or the end of the wait
abbrev pub due : Phase → Happening
due (retrying ms) = timer_due
due _ = lost

module _ (type_of : Text → Option Text) where
  happen-lost : (s : Subscription) → s.phase ≡ opening → happen type_of s lost ≡ retry s
  unfolding happen
  happen-lost s p = rw p refl

  retry-waits :
      (s : Subscription) → s.stopped ≡ false → (retry s).phase ≡ retrying (backoff_for s.attempt)
  unfolding retry
  retry-waits s u = rw u refl

  abbrev again : Subscription → Subscription
  again s = record s { phase = opening; attempt = min (s.attempt + 1) 5; openings = s.openings + 1 }

  happen-due : (s : Subscription) → s.stopped ≡ false → happen type_of (retry s) timer_due ≡ again s
  unfolding happen retry
  happen-due s u = rw u refl

  waits_from :
      (n k : ℕ) (s : Subscription)
      → s.phase ≡ opening
      → s.stopped ≡ false
      → min (s.attempt + n) 5 ≡ k
      → s.attempt ≤ 5
      → (history type_of s (losses n ++ lost ∷ [])).phase ≡ retrying (min (1000 * 2 ^ k) 30000)
  unfolding history
  waits_from zero k s p u e h =
      let same_wait : s.attempt ≡ k = omega arith in
      ap (λ (v : Subscription). v.phase) (happen-lost s p)
      ∙ retry-waits s u
      ∙ unfold backoff_for in ap (λ a. retrying (min (1000 * 2 ^ a) 30000)) same_wait
  waits_from (suc n) k s p u e h =
      let turn : happen type_of (happen type_of s lost) timer_due ≡ again s =
        ap (λ v. happen type_of v timer_due) (happen-lost s p) ∙ happen-due s u in
      ap (λ v. (history type_of v (losses n ++ lost ∷ [])).phase) turn
      ∙ waits_from n k (again s) refl u (omega arith) (omega arith)

  -- What a subscription that is stopped keeps: nothing more is seen and the stream is not opened.
  abbrev Kept : Subscription → Subscription → Type 0
  Kept s t = (t.stopped ≡ true) × (t.seen ≡ s.seen) × (t.openings ≡ s.openings)

  retry-Kept : (s : Subscription) → s.stopped ≡ true → Kept s (retry s)
  unfolding retry
  retry-Kept s u = rw u (refl, refl, refl)

  happen-Kept : (s : Subscription) (h : Happening) → s.stopped ≡ true → Kept s (happen type_of s h)
  unfolding happen
  happen-Kept s h u = go s.phase h
    where
      go : (p : Phase) (h : Happening) → Kept s (at_phase type_of p h s)
      go opening connected = (u, refl, refl)
      go opening lost = retry-Kept s u
      go opening timer_due = (u, refl, refl)
      go opening unsubscribed = (refl, refl, refl)
      go opening (chunk value leaves) = (u, refl, refl)
      go reading connected = (u, refl, refl)
      go reading lost = retry-Kept s u
      go reading timer_due = (u, refl, refl)
      go reading unsubscribed = (refl, refl, refl)
      go reading (chunk value leaves) = rw u (refl, refl, refl)
      go (retrying ms) connected = (u, refl, refl)
      go (retrying ms) lost = (u, refl, refl)
      go (retrying ms) timer_due = rw u (refl, refl, refl)
      go (retrying ms) unsubscribed = (refl, refl, refl)
      go (retrying ms) (chunk value leaves) = (u, refl, refl)
      go over connected = (u, refl, refl)
      go over lost = (u, refl, refl)
      go over timer_due = (u, refl, refl)
      go over unsubscribed = (refl, refl, refl)
      go over (chunk value leaves) = (u, refl, refl)

  history-Kept :
      (hs : List Happening) (s : Subscription) → s.stopped ≡ true → Kept s (history type_of s hs)
  unfolding history
  history-Kept [] s u = (u, refl, refl)
  history-Kept (h ∷ hs) s u =
      let (on, seen, openings) = happen-Kept s h u in
      let (still, seen_then, openings_then) = history-Kept hs (happen type_of s h) on in
      (still, seen_then ∙ seen, openings_then ∙ openings)

  due-over :
      (s : Subscription) (p : Phase)
      → s.phase ≡ p
      → s.stopped ≡ true
      → (at_phase type_of p (due p) s).phase ≡ over
  unfolding retry
  due-over s opening e u = rw u refl
  due-over s reading e u = rw u refl
  due-over s (retrying ms) e u = rw u refl
  due-over s over e u = e

  -- `h` unsubscribes: from outside, or in a callback for a chunk, with the types that are given to
  -- the callbacks all the same.
  abbrev pub Leaves : Subscription → Happening → List Text → Type 0
  Leaves s unsubscribed types = types ≡ []
  Leaves s (chunk value true) types =
      (s.phase ≡ reading)
      × (s.stopped ≡ false)
      × (types ≡ (parse_frames type_of (s.buffer ++ value)).0)
      × (has_any types ≡ true)
  Leaves s h types = ⊥

  abbrev Left : Subscription → List Text → Subscription → Type 0
  Left s types t = (t.stopped ≡ true) × (t.seen ≡ s.seen ++ types) × (t.openings ≡ s.openings)

  leaving-outside :
      (s : Subscription) (types : List Text) (p : Phase)
      → types ≡ []
      → Left s types (at_phase type_of p unsubscribed s)
  leaving-outside s types opening e = (refl, rw e (sym (append-nil s.seen)), refl)
  leaving-outside s types reading e = (refl, rw e (sym (append-nil s.seen)), refl)
  leaving-outside s types (retrying ms) e = (refl, rw e (sym (append-nil s.seen)), refl)
  leaving-outside s types over e = (refl, rw e (sym (append-nil s.seen)), refl)

  read-Left :
      (s : Subscription) (value : Text) (types : List Text)
      → types ≡ (parse_frames type_of (s.buffer ++ value)).0
      → has_any types ≡ true
      → Left s types (read type_of value true s)
  unfolding read
  read-Left s value types e some_type =
      let given : has_any (parse_frames type_of (s.buffer ++ value)).0 ≡ true =
        ap has_any (sym e) ∙ some_type in
      (rw given refl, ap (λ ts. s.seen ++ ts) (sym e), refl)

  leaving :
      (s : Subscription) (h : Happening) (types : List Text)
      → Leaves s h types
      → Left s types (happen type_of s h)
  unfolding happen
  leaving s unsubscribed types e = leaving-outside s types s.phase e
  leaving s (chunk value true) types (p, u, e, some_type) =
      let one : happen type_of s (chunk value true) ≡ read type_of value true s = rw (p, u) refl in
      subst (Left s types) (sym one) (read-Left s value types e some_type)
  leaving s (chunk value false) types h = absurd h
  leaving s connected types h = absurd h
  leaving s lost types h = absurd h
  leaving s timer_due types h = absurd h

-- The wait after the nth lost connection in a row doubles from 1000 milliseconds, up to 30000.
pub losses-wait :
    (type_of : Text → Option Text) (n : ℕ)
    → (history type_of subscribed (losses n ++ lost ∷ [])).phase
      ≡ retrying (min (1000 * 2 ^ min n 5) 30000)
losses-wait type_of n =
    waits_from type_of n (min n 5) subscribed refl refl (omega arith) (omega arith)

-- Once unsubscribed, from outside or in a callback for a type of a chunk, whatever happens then: the
-- events seen are those of before and, in the second case, all of that chunk; the loop takes no
-- further turn; and the event that the subscription next waits for, the loss of the aborted stream
-- or the end of the wait, leaves it over.
pub unsubscribed-silent :
    (type_of : Text → Option Text) (s : Subscription) (h : Happening) (types : List Text)
    (hs : List Happening)
    → Leaves type_of s h types
    → let t : Subscription = history type_of s (h ∷ hs) in
      (t.seen ≡ s.seen ++ types)
      × (t.openings ≡ s.openings)
      × ((happen type_of t (due t.phase)).phase ≡ over)
unfolding history happen
unsubscribed-silent type_of s h types hs l =
    let (on, seen, openings) = leaving type_of s h types l in
    let (still, seen_then, openings_then) = history-Kept type_of hs (happen type_of s h) on in
    let t : Subscription = history type_of s (h ∷ hs) in
    (seen_then ∙ seen, openings_then ∙ openings, due-over type_of t t.phase refl still)
