-- ===== src/LiveLogs/Retries.antt =====
-- When the hook connects again, and when it never does.
use megoo_pm.Prelude.{
  ℕ, zero, suc, ◌+◌, ◌*◌, ◌^◌, ◌≤◌, ◌≡◌, refl, ap, ◌∙◌, ◌⊎◌, inl, inr, min, Bool, true, false,
  Bool-cases, not, ◌&&◌, ◌||◌, ◌==◌, Option, none, some, List, [], ◌∷◌, ◌++◌, arith, if◌then◌else◌,
}
use megoo_pm.LiveLogs.{LiveLine, Tab, tab_of}
use megoo_pm.LiveLogs.Socket.{
  Watch, State, Status, reconnecting, revoked, failed, Conn, ticketing, on_socket, waiting, ended,
  Event, Frame, skipped_frame, ping, initial, flush, set_paused, clear, retry_in, backoff,
  keep_line, keep_if, take_line, to_line, handle_frame, on_close, on_ticket_error, receive, send_if,
  at_ticket, at_socket, at_timer, ticket_ok, ticket_failed, opened, message, closed, retry_due,
  flush_due, second_over, pause_set, watch_set, cleared, unmounted, step, run,
}

-- No connection, and none to come: with this status, and having sent this.
pub record Over (status : Status) (sent : List Watch) (s : State) : Type 0 where
  pub gone : s.conn ≡ ended
  pub kept : s.status ≡ status
  pub silent : s.sent ≡ sent

flush_due-Over :
    {st : Status} {ws : List Watch} (b : Bool) (s : State)
    → Over st ws s
    → Over st ws (if b then flush s else s)
unfolding flush
flush_due-Over false s o = o
flush_due-Over true s o = elim (Bool-cases s.paused) [
  | inl e ↦ rw e (record { gone = o.gone; kept = o.kept; silent = o.silent })
  | inr e ↦ rw e (record { gone = o.gone; kept = o.kept; silent = o.silent })
]

set_paused-Over :
    {st : Status} {ws : List Watch} (b : Bool) (s : State)
    → Over st ws s
    → Over st ws (set_paused b s)
unfolding set_paused
set_paused-Over true s o = record { gone = o.gone; kept = o.kept; silent = o.silent }
set_paused-Over false s o = record { gone = o.gone; kept = o.kept; silent = o.silent }

-- What an ended connection does at an event of the ticket, the socket or the timer.
idle :
    (c : Conn) (f : State → State) (s : State)
    → c ≡ ended
    → (at_ticket c f s ≡ s) × (at_socket c f s ≡ s) × (at_timer c f s ≡ s)
idle c f s h = rw h (refl, refl, refl)

send_if-idle : (c : Conn) (s : State) → c ≡ ended → send_if c s ≡ s
send_if-idle c s h = rw h refl

step-Over :
    {st : Status} {ws : List Watch} (s : State) (e : Event) → Over st ws s → Over st ws (step s e)
unfolding step clear
step-Over s ticket_ok o = rw ((idle s.conn _ s o.gone).0) o
step-Over s (ticket_failed status) o = rw ((idle s.conn _ s o.gone).0) o
step-Over s opened o = rw ((idle s.conn _ s o.gone).1) o
step-Over s (message now frame) o = rw ((idle s.conn _ s o.gone).1) o
step-Over s (closed code) o = rw ((idle s.conn _ s o.gone).1) o
step-Over s retry_due o = rw ((idle s.conn _ s o.gone).2) o
step-Over s flush_due o = flush_due-Over s.flush_timer s o
step-Over s second_over o = record { gone = o.gone; kept = o.kept; silent = o.silent }
step-Over s (pause_set next) o = set_paused-Over next s o
step-Over s (watch_set w) o =
    rw (send_if-idle s.conn (record s { watch = w }) o.gone)
      (record { gone = o.gone; kept = o.kept; silent = o.silent })
step-Over s cleared o = record { gone = o.gone; kept = o.kept; silent = o.silent }
step-Over s unmounted o = record { gone = refl; kept = o.kept; silent = o.silent }

run-Over :
    {st : Status} {ws : List Watch} (s : State) (es : List Event)
    → Over st ws s
    → Over st ws (run s es)
unfolding run
run-Over s [] o = o
run-Over s (e ∷ es) o = run-Over (step s e) es (step-Over s e o)

-- A close with code 4403 is for good: whatever happens after it, the hook says that access was
-- revoked, never connects again and sends nothing more. So is a close with 4400, as a failure.
pub closed-Over :
    (s : State) (is_open : Bool) (es : List Event)
    → s.conn ≡ on_socket is_open
    → Over revoked s.sent (run s (closed 4403 ∷ es)) × Over failed s.sent (run s (closed 4400 ∷ es))
unfolding run step on_close
closed-Over s is_open es h = (
  run-Over _ es (rw h (record { gone = refl; kept = refl; silent = refl })),
  run-Over _ es (rw h (record { gone = refl; kept = refl; silent = refl })),
)

pow2_pos : (n : ℕ) → 1 ≤ 2 ^ n
pow2_pos zero = omega arith
pow2_pos (suc n) = let ih = pow2_pos n in omega arith

-- The delays that a retry timer may have
abbrev pub DelayOk : Bool → Conn → Type 0
DelayOk after_401 (waiting ms) = (ms ≡ 0 × after_401 ≡ true) ⊎ (1000 ≤ ms × ms ≤ 30000)
DelayOk after_401 _ = Unit

abbrev pub RetryOk : State → Type 0
RetryOk s = DelayOk s.last_was_401 s.conn

backoff-RetryOk : (s : State) → RetryOk (backoff s)
unfolding backoff retry_in
backoff-RetryOk s = let h = pow2_pos s.attempt in inr (omega arith, omega arith)

on_close-RetryOk : (code : ℕ) (s : State) → RetryOk (on_close code s)
unfolding on_close retry_in
on_close-RetryOk code s = elim (Bool-cases (code == 4403)) [
  | inl a ↦ rw a tt
  | inr a ↦ elim (Bool-cases (code == 4400)) [
    | inl b ↦ rw (a, b) tt
    | inr b ↦ elim (Bool-cases (code == 4401 && not s.last_was_401)) [
      | inl c ↦ rw (a, b, c) (inl (refl, refl))
      | inr c ↦ rw (a, b, c) (backoff-RetryOk s)
    ]
  ]
]

on_ticket_error-RetryOk : (o : Option ℕ) (s : State) → RetryOk (on_ticket_error o s)
unfolding on_ticket_error
on_ticket_error-RetryOk none s = backoff-RetryOk s
on_ticket_error-RetryOk (some status) s = elim (Bool-cases (status == 401 || status == 403)) [
  | inl a ↦ rw a tt
  | inr a ↦ rw a (backoff-RetryOk s)
]

keep_if-conn : (t : Option Tab) (l : LiveLine) (s : State) → (keep_if t l s).conn ≡ s.conn
unfolding keep_line
keep_if-conn none l s = refl
keep_if-conn (some tab) l s = refl

take_line-conn : (o : Option LiveLine) (s : State) → (take_line o s).conn ≡ s.conn
take_line-conn none s = refl
take_line-conn (some l) s = keep_if-conn (tab_of l.log) l s

-- A frame comes while the socket is there, and leaves it there.
receive-conn : (now : ℕ) (o : Option Frame) (s : State) → (receive now o s).conn ≡ s.conn
unfolding handle_frame
receive-conn now none s = refl
receive-conn now (some ping) s = refl
receive-conn now (some (skipped_frame n)) s = refl
receive-conn now (some frame) s = take_line-conn (to_line now frame s.next_id) _

-- No timer runs while the hook waits for the ticket or the socket.
ticket-RetryOk :
    (f : State → State) (c : Conn) (s : State)
    → s.conn ≡ c
    → RetryOk (f s)
    → RetryOk s
    → RetryOk (at_ticket c f s)
ticket-RetryOk f ticketing s e p q = p
ticket-RetryOk f _ s e p q = q

socket-RetryOk :
    (f : State → State) (c : Conn) (s : State)
    → s.conn ≡ c
    → ((b : Bool) → s.conn ≡ on_socket b → RetryOk (f s))
    → RetryOk s
    → RetryOk (at_socket c f s)
socket-RetryOk f (on_socket b) s e p q = p b e
socket-RetryOk f _ s e p q = q

timer-RetryOk :
    (c : Conn) (s : State) → RetryOk s → RetryOk (at_timer c (λ t. record t { conn = ticketing }) s)
timer-RetryOk (waiting ms) s q = tt
timer-RetryOk _ s q = q

flush_due-RetryOk : (b : Bool) (s : State) → RetryOk s → RetryOk (if b then flush s else s)
unfolding flush
flush_due-RetryOk false s k = k
flush_due-RetryOk true s k = elim (Bool-cases s.paused) [ inl e ↦ rw e k | inr e ↦ rw e k ]

send_if-RetryOk : (c : Conn) (s : State) → RetryOk s → RetryOk (send_if c s)
send_if-RetryOk (on_socket true) s k = k
send_if-RetryOk _ s k = k

DelayOk-of : (q : Bool) (c : Conn) (b : Bool) → c ≡ on_socket b → DelayOk q c
DelayOk-of q c b e = rw e tt

step-RetryOk : (s : State) (e : Event) → RetryOk s → RetryOk (step s e)
unfolding step clear set_paused
step-RetryOk s ticket_ok k = ticket-RetryOk _ s.conn s refl tt k
step-RetryOk s (ticket_failed status) k =
    ticket-RetryOk _ s.conn s refl (on_ticket_error-RetryOk status s) k
step-RetryOk s opened k = socket-RetryOk _ s.conn s refl (λ b e. tt) k
step-RetryOk s (message now frame) k =
    socket-RetryOk _ s.conn s refl (λ b e. DelayOk-of _ _ b (receive-conn now frame s ∙ e)) k
step-RetryOk s (closed code) k = socket-RetryOk _ s.conn s refl (λ b e. on_close-RetryOk code s) k
step-RetryOk s retry_due k = timer-RetryOk s.conn s k
step-RetryOk s flush_due k = flush_due-RetryOk s.flush_timer s k
step-RetryOk s second_over k = k
step-RetryOk s (pause_set true) k = k
step-RetryOk s (pause_set false) k = k
step-RetryOk s (watch_set w) k = send_if-RetryOk s.conn _ k
step-RetryOk s cleared k = k
step-RetryOk s unmounted k = tt

run-RetryOk_from : (s : State) (es : List Event) → RetryOk s → RetryOk (run s es)
unfolding run
run-RetryOk_from s [] k = k
run-RetryOk_from s (e ∷ es) k = run-RetryOk_from (step s e) es (step-RetryOk s e k)

-- After any events, a retry timer that runs is set to between 1000 and 30000 milliseconds, or to 0,
-- and then the last close was a 4401 that is not answered by a 0 again before a frame.
pub run-RetryOk : (watch : Watch) (es : List Event) → RetryOk (run (initial watch) es)
run-RetryOk watch es = run-RetryOk_from (initial watch) es tt

-- So many tickets refused by a failing request, each with the wait after it
abbrev pub failures : ℕ → List Event
failures zero = []
failures (suc n) = ticket_failed none ∷ retry_due ∷ failures n

abbrev again : State → State
again s = record s { status = reconnecting; attempt = s.attempt + 1; conn = ticketing }

failure-again :
    (s : State) → s.conn ≡ ticketing → step (step s (ticket_failed none)) retry_due ≡ again s
unfolding step on_ticket_error backoff retry_in
failure-again s h =
    let refused : step s (ticket_failed none) ≡ backoff s = rw h refl in rw refused refl

failures-delay_from :
    (n k : ℕ) (s : State)
    → s.conn ≡ ticketing
    → s.attempt + n ≡ k
    → (run s (failures n ++ ticket_failed none ∷ [])).conn ≡ waiting (min (1000 * 2 ^ k) 30000)
unfolding run step on_ticket_error backoff retry_in
failures-delay_from zero k s h e =
    let attempts : s.attempt ≡ k = omega arith in
    let refused : (step s (ticket_failed none)).conn ≡ (backoff s).conn = rw h refl in
    refused ∙ ap (λ a. waiting (min (1000 * 2 ^ a) 30000)) attempts
failures-delay_from (suc n) k s h e =
    ap (λ u. (run u (failures n ++ ticket_failed none ∷ [])).conn) (failure-again s h)
    ∙ failures-delay_from n k (again s) refl (omega arith)

-- The wait after the nth failure in a row doubles from 1000 milliseconds up to 30000.
pub failures-delay :
    (watch : Watch) (n : ℕ)
    → (run (initial watch) (failures n ++ ticket_failed none ∷ [])).conn
      ≡ waiting (min (1000 * 2 ^ n) 30000)
failures-delay watch n = failures-delay_from n n (initial watch) refl (omega arith)
