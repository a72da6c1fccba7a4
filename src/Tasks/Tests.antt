-- ===== src/Tasks/Tests.antt =====
-- A world whose state is its clock: a request takes 100 ms, and the task is ready at 5000.
use megoo_pm.Prelude.{ℕ, ◌+◌, ◌≡◌, refl, false, none, leb, arith}
use megoo_pm.Text.{text}
use megoo_pm.Tasks.{TaskStatus, got, elapsed, World, resolved, aborted, delay, poll_task}
use megoo_pm.Tasks.Ending.{Clock, Ended, poll_task-Ended}

abbrev status_at : ℕ → TaskStatus
status_at t = record {
  task_id = text "t1";
  status = text "STARTED";
  ready = leb 5000 t;
  result = none;
  error = none;
}

abbrev world : World ℕ
world = record {
  now = λ t. t;
  get_task = λ id t. got (status_at (t + 100)) (t + 100);
  sleep = λ ms t. elapsed (t + ms);
  is_aborted = λ t. false;
}

world-Clock : Clock world
world-Clock = record {
  fetch_forward = λ id w w' s e. ground arith;
  sleep_forward = λ ms w w' e. ground arith;
}

ready_later : poll_task world 60 (text "t1") 2000 120000 0 ≡ resolved (status_at 6400) 6400
unfolding poll_task delay
ready_later = refl

timed_out : poll_task world 2 (text "t1") 2000 4000 0 ≡ resolved (status_at 4300) 4300
unfolding poll_task delay
timed_out = refl

stopped_early :
    poll_task (record world { is_aborted = λ t. leb 2000 t }) 60 (text "t1") 2000 120000 0
    ≡ aborted 2200
unfolding poll_task delay
stopped_early = refl

poll_task-Ended_example : Ended world 120000 (poll_task world 60 (text "t1") 2000 120000 0)
poll_task-Ended_example =
    poll_task-Ended world world-Clock 60 (text "t1") 2000 120000 0 (omega arith)
