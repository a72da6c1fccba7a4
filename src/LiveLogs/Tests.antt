-- ===== src/LiveLogs/Tests.antt =====
-- Tests and examples for the live logs.
use megoo_pm.Prelude.{◌≡◌, refl, true, false, none, some, List, [], ◌∷◌}
use megoo_pm.Number.{parse_int, number_text}
use megoo_pm.Text.{text, is_space, same, trim, trim_start, includes}
use megoo_pm.LiveLogs.{request, LiveLine, append_capped, status_class, field, matches}
use megoo_pm.LiveLogs.Socket.{
  Watch, State, LineFrame, revoked, failed, waiting, initial, line, skipped_frame, to_line,
  string_fields, keep_line, handle_frame, retry_in, backoff, on_close, flush, set_paused, Event,
  ticket_ok, opened, message, closed, retry_due, flush_due, pause_set, step, run,
}
use megoo_pm.LiveLogs.Buffers.{Kept, run-Kept}
use megoo_pm.LiveLogs.Retries.{RetryOk, Over, closed-Over, run-RetryOk}
use megoo_pm.LiveLogs.Pausing.{unpaused, run-buffers}
use megoo_pm.LiveLogs.Recovery.{IsRecovering, run-IsRecovering}

abbrev all_hosts : Watch
all_hosts = record { hosts = []; decisions = true }

abbrev hit : LineFrame
hit = record {
  node = none;
  host = some (text "a.test");
  log = request;
  sev = none;
  f = some ((text "st", some (text "404")) ∷ (text "ip", none) ∷ []);
  raw = none;
  truncated = false;
  cc = none;
}

abbrev day : List Event
day =
    ticket_ok
    ∷ opened
    ∷ message 7 (some (line hit))
    ∷ pause_set true
    ∷ message 8 (some (line hit))
    ∷ message 9 (some (skipped_frame 3))
    ∷ flush_due
    ∷ []

abbrev cut_off : List Event
cut_off = ticket_ok ∷ closed 4401 ∷ retry_due ∷ ticket_ok ∷ closed 4401 ∷ []

buffered :
    (run (initial all_hosts) day).buffers.of_requests
    ≡ record {
      id = 1;
      at = 7;
      node = text "local";
      host = text "a.test";
      log = request;
      sev = 6;
      f = some ((text "st", text "404") ∷ []);
      raw = none;
      truncated = false;
      cc = none;
    }
      ∷ record {
        id = 2;
        at = 8;
        node = text "local";
        host = text "a.test";
        log = request;
        sev = 6;
        f = some ((text "st", text "404") ∷ []);
        raw = none;
        truncated = false;
        cc = none;
      }
      ∷ []
unfolding run step handle_frame to_line string_fields keep_line append_capped set_paused flush
buffered = refl

held_back :
    let s : State = run (initial all_hosts) day in
    (s.pending ≡ 1) × (s.skipped ≡ 3) × (s.requests_this_second ≡ 2)
unfolding run step handle_frame to_line string_fields keep_line append_capped set_paused flush
held_back = (refl, refl, refl)

second_401 : (run (initial all_hosts) cut_off).conn ≡ waiting 1000
unfolding run step on_close backoff retry_in
second_401 = refl

run-Kept_example : Kept (run (initial all_hosts) day)
run-Kept_example = run-Kept all_hosts day

closed-Over_example :
    let s : State = run (initial all_hosts) (ticket_ok ∷ opened ∷ []) in
    Over revoked s.sent (run s (closed 4403 ∷ day)) × Over failed s.sent (run s (closed 4400 ∷ day))
unfolding run step
closed-Over_example = closed-Over (run (initial all_hosts) (ticket_ok ∷ opened ∷ [])) true day refl

run-RetryOk_example : RetryOk (run (initial all_hosts) cut_off)
run-RetryOk_example = run-RetryOk all_hosts cut_off

run-buffers_example :
    let s : State = run (initial all_hosts) day in
    let shown : State = step (step s (pause_set false)) flush_due in
    let unbroken : State = run (initial all_hosts) (unpaused day) in
    (s.buffers ≡ unbroken.buffers)
    × (s.conn ≡ unbroken.conn)
    × (shown.lines ≡ unbroken.buffers)
    × (shown.pending ≡ 0)
run-buffers_example = run-buffers all_hosts day

abbrev a_line : LiveLine
a_line = record {
  id = 1;
  at = 7;
  node = text "local";
  host = text "a.test";
  log = request;
  sev = 6;
  f = some ((text "st", text "404") ∷ (text "u", text "/Wp") ∷ []);
  raw = none;
  truncated = false;
  cc = none;
}

by_class : status_class (some (text "404")) ≡ some (text "4xx")
unfolding status_class parse_int trim_start text is_space number_text
by_class = refl

found :
    matches (λ s. s) a_line (record { node = []; status = text "4xx"; search = text " Wp" }) ≡ true
unfolding matches text status_class field same parse_int trim_start is_space number_text trim
    includes
found = refl

abbrev dropped : List Event
dropped = ticket_ok ∷ opened ∷ closed 1006 ∷ []

run-IsRecovering_example : IsRecovering (run (initial all_hosts) dropped)
run-IsRecovering_example = run-IsRecovering all_hosts dropped (tt, (tt, (tt, tt)))
