-- ===== src/Tasks/Ending.antt =====
-- The poll ends: a clock that goes on passes the deadline.
use native.Mathlib.Nat.{suc-mul}
use megoo_pm.Prelude.{
  ℕ, zero, suc, ◌+◌, ◌*◌, ◌≤◌, ◌<◌, ◌≡◌, ◌⊎◌, refl, inl, inr, true, false, Bool-cases, arith,
}
use megoo_pm.Text.{Text}
use megoo_pm.Tasks.{
  TaskStatus, Fetched, got, failed, Waited, elapsed, interrupted, World, Polled, resolved, aborted,
  rejected, out_of_fuel, delay, checked, resumed, is_waiting, waited, poll_loop, poll_task,
}

-- A clock: a request does not turn it back, and a timer that runs out has taken its time.
pub record Clock {W : Type 0} (world : World W) : Type 0 where
  pub fetch_forward :
      (id : Text) (w w' : W) (s : TaskStatus)
      → world.get_task id w ≡ got s w'
      → world.now w ≤ world.now w'
  pub sleep_forward :
      (ms : ℕ) (w w' : W) → world.sleep ms w ≡ elapsed w' → world.now w + ms ≤ world.now w'

-- How a poll ends: with a ready task or past the deadline, by an abort, or by a request that fails.
module _ {W : Type 0} (world : World W) (deadline : ℕ) where
  abbrev pub Ended : Polled W → Type 0
  Ended (resolved last w) = (last.ready ≡ true) ⊎ (deadline ≤ world.now w)
  Ended (aborted w) = Unit
  Ended (rejected e w) = Unit
  Ended out_of_fuel = ⊥

module _ {W : Type 0} (world : World W) (clock : Clock world) where
  stopped :
      (deadline : ℕ) (last : TaskStatus) (w : W)
      → is_waiting world deadline last w ≡ false
      → (last.ready ≡ true) ⊎ (deadline ≤ world.now w)
  stopped deadline last w h = elim (Bool-cases last.ready) [
    | inl ready ↦ inl ready
    | inr pending ↦ inr (ground arith)
  ]

  going_on :
      (deadline : ℕ) (last : TaskStatus) (w : W)
      → is_waiting world deadline last w ≡ true
      → world.now w < deadline
  going_on deadline last w h = elim (Bool-cases last.ready) [
    | inl ready ↦ absurd (ground arith)
    | inr pending ↦ ground arith
  ]

  -- What a continuation does from a time on.
  abbrev Ends : (TaskStatus → W → Polled W) → ℕ → ℕ → Type 0
  Ends more deadline from =
      (s : TaskStatus) (w : W) → from ≤ world.now w → Ended world deadline (more s w)

  checked-Ended :
      (more : TaskStatus → W → Polled W) (deadline : ℕ) (id : Text) (w : W) (o : Fetched W)
      → Ends more deadline (world.now w)
      → world.get_task id w ≡ o
      → Ended world deadline (checked world more o)
  checked-Ended more deadline id w (got s w') h e = h s w' (clock.fetch_forward id w w' s e)
  checked-Ended more deadline id w (failed m w') h e = tt

  resumed-Ended :
      (more : TaskStatus → W → Polled W) (deadline : ℕ) (id : Text) (interval : ℕ) (w : W)
      (o : Waited W)
      → Ends more deadline (world.now w + interval)
      → world.sleep interval w ≡ o
      → Ended world deadline (resumed world more id o)
  resumed-Ended more deadline id interval w (elapsed w') h e =
      let later = clock.sleep_forward interval w w' e in
      checked-Ended more deadline id w' (world.get_task id w') (λ s v k. h s v (omega arith)) refl
  resumed-Ended more deadline id interval w (interrupted w') h e = tt

  waited-Ended :
      (more : TaskStatus → W → Polled W) (deadline : ℕ) (id : Text) (interval : ℕ) (w : W)
      → Ends more deadline (world.now w + interval)
      → Ended world deadline (waited world more id interval w)
  unfolding delay
  waited-Ended more deadline id interval w h = elim (Bool-cases (world.is_aborted w)) [
    | inl stop ↦ rw stop tt
    | inr on ↦ rw on (resumed-Ended more deadline id interval w (world.sleep interval w) h refl)
  ]

  poll_loop-Ended :
      (fuel : ℕ) (id : Text) (interval deadline : ℕ) (last : TaskStatus) (w : W)
      → deadline ≤ world.now w + fuel * interval
      → Ended world deadline (poll_loop world fuel id interval deadline last w)
  unfolding poll_loop
  poll_loop-Ended zero id interval deadline last w h =
      elim (Bool-cases (is_waiting world deadline last w)) [
        | inl more ↦ absurd (let t = going_on deadline last w more in omega arith)
        | inr done ↦ rw done (stopped deadline last w done)
      ]
  poll_loop-Ended (suc fuel) id interval deadline last w h =
      let step = suc-mul fuel interval in
      let further : Ended world deadline
          (waited world (poll_loop world fuel id interval deadline) id interval w) =
        waited-Ended (poll_loop world fuel id interval deadline) deadline id interval w
          (λ s v k. poll_loop-Ended fuel id interval deadline s v (omega arith)) in
      elim (Bool-cases (is_waiting world deadline last w)) [
        | inl more ↦ rw more further
        | inr done ↦ rw done (stopped deadline last w done)
      ]

  -- Where the clock goes on, a poll whose turns cover its timeout ends, and it resolves only with a
  -- task that is ready or when the time is up: the last status is never given early.
  pub poll_task-Ended :
      (fuel : ℕ) (task_id : Text) (interval timeout : ℕ) (w : W)
      → timeout ≤ fuel * interval
      → Ended world (world.now w + timeout) (poll_task world fuel task_id interval timeout w)
  unfolding poll_task
  poll_task-Ended fuel task_id interval timeout w h =
      checked-Ended (poll_loop world fuel task_id interval (world.now w + timeout))
        (world.now w + timeout) task_id w (world.get_task task_id w)
        (λ s v k. poll_loop-Ended fuel task_id interval (world.now w + timeout) s v (omega arith))
        refl
