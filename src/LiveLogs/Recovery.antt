-- ===== src/LiveLogs/Recovery.antt =====
-- A connection that is not over can always be made again.
use megoo_pm.Prelude.{
  ℕ, ◌≡◌, ◌⊎◌, refl, inl, inr, Bool, true, false, Bool-cases, not, ◌&&◌, ◌||◌, Option, none, some,
  List, [], ◌∷◌, All, ◌==◌, if◌then◌else◌, subst, sym, ap,
}
use megoo_pm.LiveLogs.{LiveLine, Tab, tab_of}
use megoo_pm.LiveLogs.Socket.{
  Frame, ping, skipped_frame, keep_line, keep_if, take_line, handle_frame, to_line, receive, Status,
  live, revoked, failed, Watch, Conn, ticketing, on_socket, waiting, ended, State, initial, flush,
  clear, set_paused, retry_in, backoff, on_close, on_ticket_error, send_if, at_ticket, at_socket,
  at_timer, Event, ticket_ok, ticket_failed, opened, message, closed, retry_due, flush_due,
  second_over, pause_set, watch_set, cleared, unmounted, step, run,
}

-- An event of a page that stays open.
abbrev pub IsStaying : Event → Type 0
IsStaying unmounted = ⊥
IsStaying e = Unit

-- The server was last told what the page watches.
abbrev Told : Watch → List Watch → Type 0
Told watch [] = ⊥
Told watch (w ∷ told) = w ≡ watch

-- A connection is over only with a status that says so, and open only with a live status and a
-- server that knows what the page watches.
abbrev StateOk : Conn → Status → Watch → List Watch → Type 0
StateOk ended status watch told = (status ≡ revoked) ⊎ (status ≡ failed)
StateOk (on_socket true) status watch told = (status ≡ live) × Told watch told
StateOk c status watch told = Unit

abbrev IsSettled : State → Type 0
IsSettled s = StateOk s.conn s.status s.watch s.sent

on_close-IsSettled : (code : ℕ) (s : State) → IsSettled (on_close code s)
unfolding on_close backoff retry_in
on_close-IsSettled code s = elim (Bool-cases (code == 4403)) [
  | inl a ↦ rw a (inl refl)
  | inr a ↦ elim (Bool-cases (code == 4400)) [
    | inl b ↦ rw (a, b) (inr refl)
    | inr b ↦ elim (Bool-cases (code == 4401 && not s.last_was_401)) [
      | inl c ↦ rw (a, b, c) tt
      | inr c ↦ rw (a, b, c) tt
    ]
  ]
]

on_ticket_error-IsSettled : (o : Option ℕ) (s : State) → IsSettled (on_ticket_error o s)
unfolding on_ticket_error backoff retry_in
on_ticket_error-IsSettled none s = tt
on_ticket_error-IsSettled (some status) s = elim (Bool-cases (status == 401 || status == 403)) [
  | inl a ↦ rw a (inl refl)
  | inr a ↦ rw a tt
]

ticket-IsSettled :
    (f : State → State) (c : Conn) (s : State)
    → IsSettled (f s)
    → IsSettled s
    → IsSettled (at_ticket c f s)
ticket-IsSettled f ticketing s p q = p
ticket-IsSettled f _ s p q = q

socket-IsSettled :
    (f : State → State) (c : Conn) (s : State)
    → s.conn ≡ c
    → ((b : Bool) → s.conn ≡ on_socket b → IsSettled (f s))
    → IsSettled s
    → IsSettled (at_socket c f s)
socket-IsSettled f (on_socket b) s e p q = p b e
socket-IsSettled f _ s e p q = q

timer-IsSettled :
    (c : Conn) (s : State)
    → IsSettled s
    → IsSettled (at_timer c (λ t. record t { conn = ticketing }) s)
timer-IsSettled (waiting ms) s q = tt
timer-IsSettled _ s q = q

flush_due-IsSettled : (b : Bool) (s : State) → IsSettled s → IsSettled (if b then flush s else s)
unfolding flush
flush_due-IsSettled false s k = k
flush_due-IsSettled true s k = elim (Bool-cases s.paused) [ inl e ↦ rw e k | inr e ↦ rw e k ]

send_if-IsSettled :
    (c : Conn) (w : Watch) (s : State)
    → s.conn ≡ c
    → StateOk c s.status s.watch s.sent
    → IsSettled (send_if c (record s { watch = w }))
send_if-IsSettled ticketing w s e k = rw e tt
send_if-IsSettled (on_socket true) w s e k = rw e (k.0, refl)
send_if-IsSettled (on_socket false) w s e k = rw e tt
send_if-IsSettled (waiting ms) w s e k = rw e tt
send_if-IsSettled ended w s e k = rw e k

-- What the invariant is about
abbrev View : Type 0
View = Conn × Status × Watch × List Watch

abbrev view : State → View
view s = (s.conn, s.status, s.watch, s.sent)

keep_if-view : (t : Option Tab) (l : LiveLine) (s : State) → view (keep_if t l s) ≡ view s
unfolding keep_line
keep_if-view none l s = refl
keep_if-view (some tab) l s = refl

take_line-view : (o : Option LiveLine) (s : State) → view (take_line o s) ≡ view s
take_line-view none s = refl
take_line-view (some l) s = keep_if-view (tab_of l.log) l s

-- A frame changes neither the connection nor the status, and tells the server nothing.
receive-view : (now : ℕ) (o : Option Frame) (s : State) → view (receive now o s) ≡ view s
unfolding handle_frame
receive-view now none s = refl
receive-view now (some ping) s = refl
receive-view now (some (skipped_frame n)) s = refl
receive-view now (some frame) s = take_line-view (to_line now frame s.next_id) _

IsSettled-view : (s t : State) → view t ≡ view s → IsSettled s → IsSettled t
IsSettled-view s t e k =
    subst (λ (v : View). let (c, status, watch, told) = v in StateOk c status watch told) (sym e) k

step-IsSettled : (s : State) (e : Event) → IsStaying e → IsSettled s → IsSettled (step s e)
unfolding step clear set_paused
step-IsSettled s ticket_ok h k = ticket-IsSettled _ s.conn s tt k
step-IsSettled s (ticket_failed status) h k =
    ticket-IsSettled _ s.conn s (on_ticket_error-IsSettled status s) k
step-IsSettled s opened h k = socket-IsSettled _ s.conn s refl (λ b e. (refl, refl)) k
step-IsSettled s (message now frame) h k =
    socket-IsSettled _ s.conn s refl
      (λ b e. IsSettled-view s (receive now frame s) (receive-view now frame s) k) k
step-IsSettled s (closed code) h k =
    socket-IsSettled _ s.conn s refl (λ b e. on_close-IsSettled code s) k
step-IsSettled s retry_due h k = timer-IsSettled s.conn s k
step-IsSettled s flush_due h k = flush_due-IsSettled s.flush_timer s k
step-IsSettled s second_over h k = k
step-IsSettled s (pause_set true) h k = k
step-IsSettled s (pause_set false) h k = k
step-IsSettled s (watch_set w) h k = send_if-IsSettled s.conn w s refl k
step-IsSettled s cleared h k = k
step-IsSettled s unmounted h k = absurd h

run-IsSettled :
    (s : State) (es : List Event) → All IsStaying es → IsSettled s → IsSettled (run s es)
unfolding run
run-IsSettled s [] h k = k
run-IsSettled s (e ∷ es) (h, hs) k = run-IsSettled (step s e) es hs (step-IsSettled s e h k)

-- What a network that works does next, until the socket is open: the timer runs out, the ticket
-- comes, the socket opens.
abbrev pub recovery : Conn → List Event
recovery ticketing = ticket_ok ∷ opened ∷ []
recovery (on_socket true) = []
recovery (on_socket false) = opened ∷ []
recovery (waiting ms) = retry_due ∷ ticket_ok ∷ opened ∷ []
recovery ended = []

-- The socket is open, the status says so, and the server was last told what the page watches.
abbrev pub IsLive : Watch → State → Type 0
IsLive watch t =
    (t.conn ≡ on_socket true) × (t.status ≡ live) × ((told : List Watch) × (t.sent ≡ watch ∷ told))

-- Over for good, or live once the network has done what is next.
abbrev pub IsRecovering : State → Type 0
IsRecovering s =
    ((s.conn ≡ ended) × ((s.status ≡ revoked) ⊎ (s.status ≡ failed)))
    ⊎ IsLive s.watch (run s (recovery s.conn))

sent-Told :
    (watch : Watch) (sent : List Watch)
    → Told watch sent
    → (told : List Watch) × (sent ≡ watch ∷ told)
sent-Told watch [] h = absurd h
sent-Told watch (w ∷ told) h = (told, ap (λ v. v ∷ told) h)

IsRecovering-of :
    (s : State) (c : Conn) → s.conn ≡ c → StateOk c s.status s.watch s.sent → IsRecovering s
unfolding run step
IsRecovering-of s ticketing e k = inr (rw e (refl, refl, (s.sent, refl)))
IsRecovering-of s (on_socket true) e k = inr (rw e (refl, k.0, sent-Told s.watch s.sent k.1))
IsRecovering-of s (on_socket false) e k = inr (rw e (refl, refl, (s.sent, refl)))
IsRecovering-of s (waiting ms) e k = inr (rw e (refl, refl, (s.sent, refl)))
IsRecovering-of s ended e k = inl (e, k)

-- Whatever happens while the page is open, the connection then is over with a status that says why,
-- revoked or failed; or its socket is open, the status is live, and the server was last told what
-- the page watches now; or a timer that runs out, a ticket and an opening, those of them that the
-- connection still needs, make it so.
pub run-IsRecovering :
    (watch : Watch) (es : List Event) → All IsStaying es → IsRecovering (run (initial watch) es)
run-IsRecovering watch es h =
    let s = run (initial watch) es in
    IsRecovering-of s s.conn refl (run-IsSettled (initial watch) es h tt)
