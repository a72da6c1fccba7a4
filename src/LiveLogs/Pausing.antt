-- ===== src/LiveLogs/Pausing.antt =====
-- Pausing stops what is shown, and loses no line.
use megoo_pm.Prelude.{
  ℕ, ◌+◌, ◌≡◌, refl, sym, ap, subst, ◌∙◌, inl, inr, Bool, true, false, Bool-cases, not, ◌&&◌, ◌||◌,
  ◌==◌, Option, none, some, List, [], ◌∷◌, if◌then◌else◌,
}
use megoo_pm.LiveLogs.{LiveLine, Tab, tab_of}
use megoo_pm.LiveLogs.Socket.{
  Watch, State, Conn, ticketing, on_socket, waiting, Event, Frame, skipped_frame, ping, initial,
  flush, set_paused, clear, retry_in, backoff, keep_line, keep_if, take_line, to_line, handle_frame,
  on_close, on_ticket_error, receive, send_if, at_ticket, at_socket, at_timer, ticket_ok,
  ticket_failed, opened, message, closed, retry_due, flush_due, second_over, pause_set, watch_set,
  cleared, unmounted, step, run,
}

-- Two states that differ at most in what is shown: the same connection, and the same lines kept.
pub record Alike (s t : State) : Type 0 where
  pub at_buffers : s.buffers ≡ t.buffers
  pub at_next : s.next_id ≡ t.next_id
  pub at_conn : s.conn ≡ t.conn
  pub at_attempt : s.attempt ≡ t.attempt
  pub at_401 : s.last_was_401 ≡ t.last_was_401

Alike-refl : (s : State) → Alike s s
Alike-refl s = record {
  at_buffers = refl;
  at_next = refl;
  at_conn = refl;
  at_attempt = refl;
  at_401 = refl;
}

-- The events that are not the reader's pause button
abbrev pub unpaused : List Event → List Event
unpaused [] = []
unpaused (pause_set next ∷ es) = unpaused es
unpaused (e ∷ es) = e ∷ unpaused es

backoff-Alike : (s t : State) → Alike s t → Alike (backoff s) (backoff t)
unfolding backoff retry_in
backoff-Alike s t h = record {
  at_buffers = h.at_buffers;
  at_next = h.at_next;
  at_conn = rw (h.at_attempt) refl;
  at_attempt = rw (h.at_attempt) refl;
  at_401 = h.at_401;
}

on_close-Alike : (code : ℕ) (s t : State) → Alike s t → Alike (on_close code s) (on_close code t)
unfolding on_close retry_in
on_close-Alike code s t h = elim (Bool-cases (code == 4403)) [
  | inl a ↦ rw a (record {
    at_buffers = h.at_buffers;
    at_next = h.at_next;
    at_conn = refl;
    at_attempt = h.at_attempt;
    at_401 = h.at_401;
  })
  | inr a ↦ elim (Bool-cases (code == 4400)) [
    | inl b ↦
        rw (a, b)
          (record {
            at_buffers = h.at_buffers;
            at_next = h.at_next;
            at_conn = refl;
            at_attempt = h.at_attempt;
            at_401 = h.at_401;
          })
    | inr b ↦ elim (Bool-cases (code == 4401 && not t.last_was_401)) [
      | inl c ↦
          let c' = ap (λ q. code == 4401 && not q) h.at_401 ∙ c in
          rw (a, b, c, c')
            (record {
              at_buffers = h.at_buffers;
              at_next = h.at_next;
              at_conn = refl;
              at_attempt = h.at_attempt;
              at_401 = refl;
            })
      | inr c ↦
          let c' = ap (λ q. code == 4401 && not q) h.at_401 ∙ c in
          rw (a, b, c, c') (backoff-Alike s t h)
    ]
  ]
]

on_ticket_error-Alike :
    (o : Option ℕ) (s t : State) → Alike s t → Alike (on_ticket_error o s) (on_ticket_error o t)
unfolding on_ticket_error
on_ticket_error-Alike none s t h = backoff-Alike s t h
on_ticket_error-Alike (some status) s t h = elim (Bool-cases (status == 401 || status == 403)) [
  | inl a ↦ rw a (record {
    at_buffers = h.at_buffers;
    at_next = h.at_next;
    at_conn = refl;
    at_attempt = h.at_attempt;
    at_401 = h.at_401;
  })
  | inr a ↦ rw a (backoff-Alike s t h)
]

keep_line-Alike :
    (tab : Tab) (l : LiveLine) (s t : State)
    → Alike s t
    → Alike (keep_line tab l s) (keep_line tab l t)
unfolding keep_line
keep_line-Alike tab l s t h = record {
  at_buffers = rw (h.at_buffers) refl;
  at_next = h.at_next;
  at_conn = h.at_conn;
  at_attempt = h.at_attempt;
  at_401 = h.at_401;
}

keep_if-Alike :
    (o : Option Tab) (l : LiveLine) (s t : State)
    → Alike s t
    → Alike (keep_if o l s) (keep_if o l t)
keep_if-Alike none l s t h = h
keep_if-Alike (some tab) l s t h = keep_line-Alike tab l s t h

take_line-Alike :
    (o : Option LiveLine) (s t : State) → Alike s t → Alike (take_line o s) (take_line o t)
take_line-Alike none s t h = h
take_line-Alike (some l) s t h = keep_if-Alike (tab_of l.log) l s t h

handle_frame-Alike :
    (now : ℕ) (frame : Frame) (s t : State)
    → Alike s t
    → Alike (handle_frame now frame s) (handle_frame now frame t)
unfolding handle_frame
handle_frame-Alike now ping s t h = h
handle_frame-Alike now (skipped_frame n) s t h = record {
  at_buffers = h.at_buffers;
  at_next = h.at_next;
  at_conn = h.at_conn;
  at_attempt = h.at_attempt;
  at_401 = h.at_401;
}
handle_frame-Alike now frame s t h =
    let numbered : Alike (record s { next_id = s.next_id + 1 })
        (record t { next_id = t.next_id + 1 }) =
      record {
        at_buffers = h.at_buffers;
        at_next = ap (λ n. n + 1) h.at_next;
        at_conn = h.at_conn;
        at_attempt = h.at_attempt;
        at_401 = h.at_401;
      } in
    let taken = take_line-Alike (to_line now frame t.next_id) _ _ numbered in
    subst
      (λ n.
        Alike (take_line (to_line now frame n) (record s { next_id = s.next_id + 1 }))
          (handle_frame now frame t))
      (sym h.at_next) taken

receive-Alike :
    (now : ℕ) (o : Option Frame) (s t : State)
    → Alike s t
    → Alike (receive now o s) (receive now o t)
receive-Alike now none s t h = h
receive-Alike now (some frame) s t h = handle_frame-Alike now frame _ _ (record {
  at_buffers = h.at_buffers;
  at_next = h.at_next;
  at_conn = h.at_conn;
  at_attempt = refl;
  at_401 = refl;
})

-- The two sides have the same connection.
across :
    (F : Conn → State → State) (s t : State)
    → Alike s t
    → Alike (F t.conn s) (F t.conn t)
    → Alike (F s.conn s) (F t.conn t)
across F s t h k = subst (λ c. Alike (F c s) (F t.conn t)) (sym h.at_conn) k

-- An event of the ticket, the socket or the timer, in two alike states
module _ (f : State → State) (s t : State) (h : Alike s t) (k : Alike (f s) (f t)) where
  ticket-Alike : (c : Conn) → Alike (at_ticket c f s) (at_ticket c f t)
  ticket-Alike ticketing = k
  ticket-Alike _ = h

  ticket_both : Alike (at_ticket s.conn f s) (at_ticket t.conn f t)
  ticket_both = across (λ c u. at_ticket c f u) s t h (ticket-Alike t.conn)

  socket-Alike : (c : Conn) → Alike (at_socket c f s) (at_socket c f t)
  socket-Alike (on_socket b) = k
  socket-Alike _ = h

  socket_both : Alike (at_socket s.conn f s) (at_socket t.conn f t)
  socket_both = across (λ c u. at_socket c f u) s t h (socket-Alike t.conn)

  timer-Alike : (c : Conn) → Alike (at_timer c f s) (at_timer c f t)
  timer-Alike (waiting ms) = k
  timer-Alike _ = h

  timer_both : Alike (at_timer s.conn f s) (at_timer t.conn f t)
  timer_both = across (λ c u. at_timer c f u) s t h (timer-Alike t.conn)

sent-Alike : (c : Conn) (s t : State) → Alike s t → Alike (send_if c s) (send_if c t)
sent-Alike (on_socket true) s t h = record {
  at_buffers = h.at_buffers;
  at_next = h.at_next;
  at_conn = h.at_conn;
  at_attempt = h.at_attempt;
  at_401 = h.at_401;
}
sent-Alike _ s t h = h

-- `u` has what matters from `s`.
like_left : (u s t : State) → Alike u s → Alike s t → Alike u t
like_left u s t g h = record {
  at_buffers = g.at_buffers ∙ h.at_buffers;
  at_next = g.at_next ∙ h.at_next;
  at_conn = g.at_conn ∙ h.at_conn;
  at_attempt = g.at_attempt ∙ h.at_attempt;
  at_401 = g.at_401 ∙ h.at_401;
}

like_right : (u s t : State) → Alike s u → Alike t u → Alike s t
like_right u s t g h = record {
  at_buffers = g.at_buffers ∙ sym h.at_buffers;
  at_next = g.at_next ∙ sym h.at_next;
  at_conn = g.at_conn ∙ sym h.at_conn;
  at_attempt = g.at_attempt ∙ sym h.at_attempt;
  at_401 = g.at_401 ∙ sym h.at_401;
}

flush-Alike : (b : Bool) (s : State) → Alike (if b then flush s else s) s
unfolding flush
flush-Alike false s = Alike-refl s
flush-Alike true s = elim (Bool-cases s.paused) [
  | inl e ↦ rw e (record {
    at_buffers = refl;
    at_next = refl;
    at_conn = refl;
    at_attempt = refl;
    at_401 = refl;
  })
  | inr e ↦ rw e (record {
    at_buffers = refl;
    at_next = refl;
    at_conn = refl;
    at_attempt = refl;
    at_401 = refl;
  })
]

set_paused-Alike : (b : Bool) (s : State) → Alike (set_paused b s) s
unfolding set_paused
set_paused-Alike true s = record {
  at_buffers = refl;
  at_next = refl;
  at_conn = refl;
  at_attempt = refl;
  at_401 = refl;
}
set_paused-Alike false s = record {
  at_buffers = refl;
  at_next = refl;
  at_conn = refl;
  at_attempt = refl;
  at_401 = refl;
}

to_conn :
    (c : Conn) (s t : State) → Alike s t → Alike (record s { conn = c }) (record t { conn = c })
to_conn c s t h = record {
  at_buffers = h.at_buffers;
  at_next = h.at_next;
  at_conn = refl;
  at_attempt = h.at_attempt;
  at_401 = h.at_401;
}

step-Alike : (s t : State) (e : Event) → Alike s t → Alike (step s e) (step t e)
unfolding step clear
step-Alike s t ticket_ok h = ticket_both _ s t h (to_conn _ s t h)
step-Alike s t (ticket_failed status) h = ticket_both _ s t h (on_ticket_error-Alike status s t h)
step-Alike s t opened h = socket_both _ s t h (record {
  at_buffers = h.at_buffers;
  at_next = h.at_next;
  at_conn = refl;
  at_attempt = h.at_attempt;
  at_401 = h.at_401;
})
step-Alike s t (message now frame) h = socket_both _ s t h (receive-Alike now frame s t h)
step-Alike s t (closed code) h = socket_both _ s t h (on_close-Alike code s t h)
step-Alike s t retry_due h = timer_both _ s t h (to_conn _ s t h)
step-Alike s t flush_due h =
    like_right t _ _ (like_left _ s t (flush-Alike s.flush_timer s) h) (flush-Alike t.flush_timer t)
step-Alike s t second_over h = record {
  at_buffers = h.at_buffers;
  at_next = h.at_next;
  at_conn = h.at_conn;
  at_attempt = h.at_attempt;
  at_401 = h.at_401;
}
step-Alike s t (pause_set next) h =
    like_right t _ _ (like_left _ s t (set_paused-Alike next s) h) (set_paused-Alike next t)
step-Alike s t (watch_set w) h =
    across (λ c u. send_if c (record u { watch = w })) s t h
      (sent-Alike t.conn _ _ (record {
        at_buffers = h.at_buffers;
        at_next = h.at_next;
        at_conn = h.at_conn;
        at_attempt = h.at_attempt;
        at_401 = h.at_401;
      }))
step-Alike s t cleared h = record {
  at_buffers = refl;
  at_next = h.at_next;
  at_conn = h.at_conn;
  at_attempt = h.at_attempt;
  at_401 = h.at_401;
}
step-Alike s t unmounted h = record {
  at_buffers = h.at_buffers;
  at_next = h.at_next;
  at_conn = refl;
  at_attempt = h.at_attempt;
  at_401 = h.at_401;
}

paused-Alike : (next : Bool) (s : State) → Alike (step s (pause_set next)) s
unfolding step
paused-Alike next s = set_paused-Alike next s

run-Alike : (es : List Event) (s t : State) → Alike s t → Alike (run s es) (run t (unpaused es))
unfolding run
run-Alike [] s t h = h
run-Alike (pause_set next ∷ es) s t h = run-Alike es _ t (like_left _ s t (paused-Alike next s) h)
run-Alike (ticket_ok ∷ es) s t h = run-Alike es _ _ (step-Alike s t ticket_ok h)
run-Alike ((ticket_failed x) ∷ es) s t h = run-Alike es _ _ (step-Alike s t (ticket_failed x) h)
run-Alike (opened ∷ es) s t h = run-Alike es _ _ (step-Alike s t opened h)
run-Alike ((message x y) ∷ es) s t h = run-Alike es _ _ (step-Alike s t (message x y) h)
run-Alike ((closed x) ∷ es) s t h = run-Alike es _ _ (step-Alike s t (closed x) h)
run-Alike (retry_due ∷ es) s t h = run-Alike es _ _ (step-Alike s t retry_due h)
run-Alike (flush_due ∷ es) s t h = run-Alike es _ _ (step-Alike s t flush_due h)
run-Alike (second_over ∷ es) s t h = run-Alike es _ _ (step-Alike s t second_over h)
run-Alike (cleared ∷ es) s t h = run-Alike es _ _ (step-Alike s t cleared h)
run-Alike (unmounted ∷ es) s t h = run-Alike es _ _ (step-Alike s t unmounted h)
run-Alike ((watch_set w) ∷ es) s t h = run-Alike es _ _ (step-Alike s t (watch_set w) h)

-- Pausing loses no line: after any events the buffers, and the connection, are those that the same
-- events without the pauses and resumes give. A resume and the
-- flush after it show these buffers, with no line pending.
pub run-buffers :
    (watch : Watch) (es : List Event)
    → let s : State = run (initial watch) es in
      let shown : State = step (step s (pause_set false)) flush_due in
      let unbroken : State = run (initial watch) (unpaused es) in
      (s.buffers ≡ unbroken.buffers)
      × (s.conn ≡ unbroken.conn)
      × (shown.lines ≡ unbroken.buffers)
      × (shown.pending ≡ 0)
unfolding step set_paused flush
run-buffers watch es =
    let h = run-Alike es (initial watch) (initial watch) (Alike-refl _) in
    (h.at_buffers, h.at_conn, h.at_buffers, refl)
