-- ===== src/Tasks.antt =====
-- frontend/src/lib/api/resources/tasks.ts: a task that is polled until it is ready, its time is up
-- or the caller aborts. The clock, the client, the timer and the signal are the caller's world: a
-- parameter.
pub mod Ending
mod Tests
use megoo_pm.Prelude.{
  ℕ, zero, suc, ◌+◌, Bool, true, false, ◌||◌, ◌&&◌, not, Option, ltb, if◌then◌else◌,
}
use megoo_pm.Text.{Text}
use megoo_pm.Json.{Json}

pub record TaskStatus : Type 0 where
  pub task_id : Text
  pub status : Text
  pub ready : Bool
  pub result : Option Json
  pub error : Option Text

-- `tasks.get`, which resolves or rejects
pub data Fetched (W : Type 0) : Type 0 where
  got : TaskStatus → W → Fetched W
  failed : Text → W → Fetched W

-- A timer that the signal may clear
pub data Waited (W : Type 0) : Type 0 where
  elapsed : W → Waited W
  interrupted : W → Waited W

pub record World (W : Type 0) : Type 0 where
  pub now : W → ℕ
  pub get_task : Text → W → Fetched W
  pub sleep : ℕ → W → Waited W
  pub is_aborted : W → Bool

-- What the promise of `pollTask` comes to; `out_of_fuel` is none of its ends.
pub data Polled (W : Type 0) : Type 0 where
  resolved : TaskStatus → W → Polled W
  aborted : W → Polled W
  rejected : Text → W → Polled W
  out_of_fuel : Polled W

module _ {W : Type 0} (world : World W) where
  -- An aborted signal rejects at once, and a later abort clears the timer.
  unfoldable pub delay : ℕ → W → Waited W
  delay ms w = if world.is_aborted w then interrupted w else world.sleep ms w

  -- The loop, with what it does at a status that a request gave.
  abbrev pub checked : (TaskStatus → W → Polled W) → Fetched W → Polled W
  checked more (got last w) = more last w
  checked more (failed e w) = rejected e w

  abbrev pub resumed : (TaskStatus → W → Polled W) → Text → Waited W → Polled W
  resumed more task_id (elapsed w) = checked more (world.get_task task_id w)
  resumed more task_id (interrupted w) = aborted w

  abbrev pub is_waiting : ℕ → TaskStatus → W → Bool
  is_waiting deadline last w = not last.ready && ltb (world.now w) deadline

  abbrev pub waited : (TaskStatus → W → Polled W) → Text → ℕ → W → Polled W
  waited more task_id interval w =
      if world.is_aborted w then aborted w else resumed more task_id (delay interval w)

  unfoldable pub poll_loop : ℕ → Text → ℕ → ℕ → TaskStatus → W → Polled W
  poll_loop zero task_id interval deadline last w =
      if is_waiting deadline last w then out_of_fuel else resolved last w
  poll_loop (suc fuel) task_id interval deadline last w =
      let next = waited (poll_loop fuel task_id interval deadline) task_id interval w in
      if is_waiting deadline last w then next else resolved last w

  unfoldable pub poll_task : ℕ → Text → ℕ → ℕ → W → Polled W
  unfolding poll_loop
  poll_task fuel task_id interval timeout w =
      checked (poll_loop fuel task_id interval (world.now w + timeout)) (world.get_task task_id w)
