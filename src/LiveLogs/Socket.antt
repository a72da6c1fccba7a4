-- ===== src/LiveLogs/Socket.antt =====
-- The hook `useLiveLogs`: its state, and what it does at each event of the page, the socket, the
-- ticket request and the timers. Timers and the socket are values: an event that finds none of its
-- kind pending changes nothing.
use megoo_pm.Prelude.{
  ℕ, ◌+◌, ◌*◌, ◌^◌, min, Bool, true, false, not, ◌&&◌, ◌||◌, Option, none, some, List, [], ◌∷◌,
  ◌==◌, if◌then◌else◌,
}
use megoo_pm.Text.{Text, text}
use megoo_pm.LiveLogs.{
  LogKind, request, decision, Tab, requests, errors, security_events, streams, LiveLine, tab_of,
  line_cap, append_capped,
}

pub record Watch : Type 0 where
  pub hosts : List Text
  pub decisions : Bool

pub data Status : Type 0 where
  connecting live reconnecting revoked failed : Status

abbrev pub backoff_start_ms : ℕ
backoff_start_ms = 1000

abbrev pub backoff_max_ms : ℕ
backoff_max_ms = 30000

abbrev pub close_bad_frame : ℕ
close_bad_frame = 4400

abbrev pub close_unauthorized : ℕ
close_unauthorized = 4401

abbrev pub close_forbidden : ℕ
close_forbidden = 4403

pub record Buffers : Type 0 where
  pub of_requests : List LiveLine
  pub of_errors : List LiveLine
  pub of_security : List LiveLine
  pub of_streams : List LiveLine

abbrev pub empty_buffers : Buffers
empty_buffers = record { of_requests = []; of_errors = []; of_security = []; of_streams = [] }

abbrev pub buffer : Tab → Buffers → List LiveLine
buffer requests b = b.of_requests
buffer errors b = b.of_errors
buffer security_events b = b.of_security
buffer streams b = b.of_streams

abbrev pub set_buffer : Tab → List LiveLine → Buffers → Buffers
set_buffer requests ls b = record b { of_requests = ls }
set_buffer errors ls b = record b { of_errors = ls }
set_buffer security_events ls b = record b { of_security = ls }
set_buffer streams ls b = record b { of_streams = ls }

-- A value of the frame's fields is its `String`, or null.
abbrev pub FrameFields : Type 0
FrameFields = List (Text × Option Text)

pub record LineFrame : Type 0 where
  pub node : Option Text
  pub host : Option Text
  pub log : LogKind
  pub sev : Option ℕ
  pub f : Option FrameFields
  pub raw : Option Text
  pub truncated : Bool
  pub cc : Option Text

pub data Frame : Type 0 where
  line : LineFrame → Frame
  decided : FrameFields → Option Text → Frame
  skipped_frame : ℕ → Frame
  ping : Frame
  other : Frame

-- What the connection waits for: a ticket, the socket (which is open or not yet), the retry timer
-- of so many milliseconds, or nothing any more.
pub data Conn : Type 0 where
  ticketing : Conn
  on_socket : Bool → Conn
  waiting : ℕ → Conn
  ended : Conn

pub record State : Type 0 where
  pub status : Status
  pub lines : Buffers
  pub skipped : ℕ
  pub pending : ℕ
  pub rate : ℕ
  pub paused : Bool
  pub buffers : Buffers
  pub pending_ref : ℕ
  pub requests_this_second : ℕ
  pub next_id : ℕ
  pub flush_timer : Bool
  pub conn : Conn
  pub attempt : ℕ
  pub last_was_401 : Bool
  pub watch : Watch
  pub sent : List Watch

-- `sent` is what the server got over the socket, the last first.
abbrev pub initial : Watch → State
initial watch = record {
  status = connecting;
  lines = empty_buffers;
  skipped = 0;
  pending = 0;
  rate = 0;
  paused = false;
  buffers = empty_buffers;
  pending_ref = 0;
  requests_this_second = 0;
  next_id = 1;
  flush_timer = false;
  conn = ticketing;
  attempt = 0;
  last_was_401 = false;
  watch = watch;
  sent = [];
}

unfoldable pub string_fields : FrameFields → List (Text × Text)
string_fields [] = []
string_fields ((k, none) ∷ fs) = string_fields fs
string_fields ((k, some v) ∷ fs) = (k, v) ∷ string_fields fs

abbrev fields_of : Option FrameFields → Option (List (Text × Text))
fields_of none = none
fields_of (some fs) = some (string_fields fs)

abbrev or_else {ℓ} : {A : Type ℓ} → Option A → A → A
or_else none d = d
or_else (some a) d = a

-- `now` is the time of the call.
unfoldable pub to_line : ℕ → Frame → ℕ → Option LiveLine
to_line now (line fr) id = some (record {
  id = id;
  at = now;
  node = or_else fr.node (text "local");
  host = or_else fr.host [];
  log = fr.log;
  sev = or_else fr.sev 6;
  f = fields_of fr.f;
  raw = fr.raw;
  truncated = fr.truncated;
  cc = fr.cc;
})
to_line now (decided fs cc) id = some (record {
  id = id;
  at = now;
  node = text "local";
  host = [];
  log = decision;
  sev = 6;
  f = some (string_fields fs);
  raw = none;
  truncated = false;
  cc = cc;
})
to_line now (skipped_frame n) id = none
to_line now _ id = none

unfoldable pub flush : State → State
flush s =
    let t = record s { flush_timer = false } in
    if s.paused
    then record t { pending = s.pending_ref }
    else record t { pending_ref = 0; lines = s.buffers; pending = 0 }

abbrev pub schedule_flush : State → State
schedule_flush s = record s { flush_timer = true }

unfoldable pub set_paused : Bool → State → State
set_paused next s = let t = record s { paused = next } in if not next then schedule_flush t else t

unfoldable pub clear : State → State
clear s = record s {
  buffers = empty_buffers;
  pending_ref = 0;
  lines = empty_buffers;
  pending = 0;
  skipped = 0;
}

unfoldable pub retry_in : ℕ → State → State
retry_in ms s = record s { status = reconnecting; conn = waiting ms }

unfoldable pub backoff : State → State
unfolding retry_in
backoff s =
    let delay = min (backoff_start_ms * 2 ^ s.attempt) backoff_max_ms in
    retry_in delay (record s { attempt = s.attempt + 1 })

abbrev is_request : LogKind → Bool
is_request request = true
is_request _ = false

-- The last part of `handleFrame`, once the line has a tab.
unfoldable pub keep_line : Tab → LiveLine → State → State
keep_line tab l s = schedule_flush (record s {
  buffers = set_buffer tab (append_capped (buffer tab s.buffers) (l ∷ []) line_cap) s.buffers;
  requests_this_second =
      if is_request l.log then s.requests_this_second + 1 else s.requests_this_second;
  pending_ref = if s.paused then s.pending_ref + 1 else s.pending_ref;
})

abbrev pub keep_if : Option Tab → LiveLine → State → State
keep_if none l s = s
keep_if (some tab) l s = keep_line tab l s

abbrev pub take_line : Option LiveLine → State → State
take_line none s = s
take_line (some l) s = keep_if (tab_of l.log) l s

unfoldable pub handle_frame : ℕ → Frame → State → State
handle_frame now ping s = s
handle_frame now (skipped_frame n) s = record s { skipped = s.skipped + n }
handle_frame now frame s =
    take_line (to_line now frame s.next_id) (record s { next_id = s.next_id + 1 })

-- `ws.onclose`
unfoldable pub on_close : ℕ → State → State
on_close code s =
    if code == close_forbidden
    then record s { status = revoked; conn = ended }
    else if code == close_bad_frame
    then record s { status = failed; conn = ended }
    else if code == close_unauthorized && not s.last_was_401
    then retry_in 0 (record s { last_was_401 = true })
    else backoff s

-- A refused ticket: the status of an `ApiError`, or another failure.
unfoldable pub on_ticket_error : Option ℕ → State → State
on_ticket_error none s = backoff s
on_ticket_error (some status) s =
    if status == 401 || status == 403
    then record s { status = revoked; conn = ended }
    else backoff s

pub data Event : Type 0 where
  ticket_ok opened retry_due flush_due second_over cleared unmounted : Event
  ticket_failed : Option ℕ → Event
  message : ℕ → Option Frame → Event
  closed : ℕ → Event
  pause_set : Bool → Event
  watch_set : Watch → Event

abbrev pub at_ticket : Conn → (State → State) → State → State
at_ticket ticketing f s = f s
at_ticket _ f s = s

abbrev pub at_socket : Conn → (State → State) → State → State
at_socket (on_socket is_open) f s = f s
at_socket _ f s = s

abbrev pub at_timer : Conn → (State → State) → State → State
at_timer (waiting ms) f s = f s
at_timer _ f s = s

-- `ws.onmessage`: a text that does not parse changes nothing.
abbrev pub receive : ℕ → Option Frame → State → State
receive now none s = s
receive now (some frame) s = handle_frame now frame (record s { attempt = 0; last_was_401 = false })

-- `ws.onopen`
abbrev pub on_open : State → State
on_open s = record s { status = live; conn = on_socket true; sent = s.watch ∷ s.sent }

-- The effect on the watched hosts: an open socket hears of it.
abbrev pub send_if : Conn → State → State
send_if (on_socket true) s = record s { sent = s.watch ∷ s.sent }
send_if _ s = s

unfoldable pub step : State → Event → State
step s ticket_ok = at_ticket s.conn (λ t. record t { conn = on_socket false }) s
step s (ticket_failed status) = at_ticket s.conn (on_ticket_error status) s
step s opened = at_socket s.conn on_open s
step s (message now frame) = at_socket s.conn (receive now frame) s
step s (closed code) = at_socket s.conn (on_close code) s
step s retry_due = at_timer s.conn (λ t. record t { conn = ticketing }) s
step s flush_due = if s.flush_timer then flush s else s
step s second_over = record s { rate = s.requests_this_second; requests_this_second = 0 }
step s (pause_set next) = set_paused next s
step s (watch_set w) = send_if s.conn (record s { watch = w })
step s cleared = clear s
step s unmounted = record s { conn = ended; flush_timer = false }

unfoldable pub run : State → List Event → State
run s [] = s
run s (e ∷ es) = run (step s e) es
