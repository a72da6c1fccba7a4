-- ===== src/LiveLogs/Buffers.antt =====
-- What the buffers hold, over every sequence of events.
use megoo_pm.Prelude.{
  ℕ, zero, suc, ◌+◌, ◌-◌, ◌≤◌, ◌<◌, ◌≡◌, refl, inl, inr, Bool, true, false, Bool-cases, Option,
  none, some, List, [], ◌∷◌, ◌++◌, arith, length, length-drop, drop, ltb, All, All-append, All-drop,
  All-mono, if◌then◌else◌,
}
use megoo_pm.LiveLogs.{
  LiveLine, Tab, requests, errors, security_events, streams, tab_of, line_cap, append_capped,
}
use megoo_pm.LiveLogs.Socket.{
  Watch, State, Buffers, Conn, ticketing, on_socket, waiting, ended, Event, Frame, line,
  skipped_frame, ping, empty_buffers, initial, flush, set_paused, clear, retry_in, backoff,
  keep_line, keep_if, take_line, to_line, handle_frame, on_close, on_ticket_error, at_ticket,
  at_socket, at_timer, receive, send_if, ticket_ok, ticket_failed, opened, message, closed,
  retry_due, flush_due, second_over, pause_set, watch_set, cleared, unmounted, step, run,
}

abbrev pub Increasing : List LiveLine → Type 0
Increasing [] = Unit
Increasing (l ∷ ls) = All (λ (m : LiveLine). l.id < m.id) ls × Increasing ls

-- At most 1000 lines, all of the tab, with increasing ids below the next one.
pub record TabOk (tab : Tab) (next : ℕ) (ls : List LiveLine) : Type 0 where
  pub short : length ls ≤ line_cap
  pub own : All (λ (l : LiveLine). tab_of l.log ≡ some tab) ls
  pub numbered : All (λ (l : LiveLine). l.id < next) ls
  pub increasing : Increasing ls

abbrev pub BuffersOk : ℕ → Buffers → Type 0
BuffersOk next b =
    TabOk requests next b.of_requests
    × TabOk errors next b.of_errors
    × TabOk security_events next b.of_security
    × TabOk streams next b.of_streams

abbrev pub Kept : State → Type 0
Kept s = BuffersOk s.next_id s.buffers × BuffersOk s.next_id s.lines

TabOk-mono :
    {tab : Tab} {n : ℕ} (m : ℕ) {ls : List LiveLine} → n ≤ m → TabOk tab n ls → TabOk tab m ls
TabOk-mono {n} m {ls} h ok = record {
  short = ok.short;
  own = ok.own;
  numbered = All-mono (λ (l : LiveLine) k. let below : l.id < n = k in omega arith) ls ok.numbered;
  increasing = ok.increasing;
}

BuffersOk-mono : {n : ℕ} (m : ℕ) {b : Buffers} → n ≤ m → BuffersOk n b → BuffersOk m b
BuffersOk-mono m h (a, b, c, d) =
    (TabOk-mono m h a, TabOk-mono m h b, TabOk-mono m h c, TabOk-mono m h d)

Increasing-snoc :
    (ls : List LiveLine) (l : LiveLine)
    → Increasing ls
    → All (λ (m : LiveLine). m.id < l.id) ls
    → Increasing (ls ++ l ∷ [])
Increasing-snoc [] l h k = (tt, tt)
Increasing-snoc (m ∷ ls) l (g, h) (k, ks) =
    (All-append _ ls (l ∷ []) g (k, tt), Increasing-snoc ls l h ks)

Increasing-drop : (n : ℕ) (ls : List LiveLine) → Increasing ls → Increasing (drop n ls)
Increasing-drop zero ls h = h
Increasing-drop (suc n) [] h = tt
Increasing-drop (suc n) (l ∷ ls) (g, h) = Increasing-drop n ls h

-- Appending keeps the newest lines, up to the cap.
pub append_capped-drop :
    (lines next : List LiveLine) (cap : ℕ)
    → append_capped lines next cap ≡ drop (length (lines ++ next) - cap) (lines ++ next)
unfolding append_capped
append_capped-drop lines next cap = elim (Bool-cases (ltb cap (length (lines ++ next)))) [
  | inl over ↦ rw over refl
  | inr fits ↦
      let nothing : length (lines ++ next) - cap ≡ 0 = ground arith in rw (fits, nothing) refl
]

append_capped-TabOk :
    (tab : Tab) (next : ℕ) (ls : List LiveLine) (l : LiveLine)
    → l.id ≡ next
    → tab_of l.log ≡ some tab
    → TabOk tab next ls
    → TabOk tab (next + 1) (append_capped ls (l ∷ []) line_cap)
append_capped-TabOk tab next ls l e t ok =
    let whole = ls ++ l ∷ [] in
    let cut = length whole - line_cap in
    let newer : All (λ (m : LiveLine). m.id < l.id) ls =
      All-mono (λ (m : LiveLine) k. let below : m.id < next = k in rw e (omega arith)) ls
        ok.numbered in
    rw (append_capped-drop ls (l ∷ []) line_cap) (record {
      short = omega (arith, length-drop {0} cut whole);
      own = All-drop _ cut whole (All-append _ ls (l ∷ []) ok.own (t, tt));
      numbered = All-drop _ cut whole (
          All-append (λ (m : LiveLine). m.id < next + 1) ls (l ∷ [])
            (All-mono (λ (m : LiveLine) k. let below : m.id < next = k in omega arith) ls
              ok.numbered)
            (omega arith, tt));
      increasing = Increasing-drop cut whole (Increasing-snoc ls l ok.increasing newer);
    })

module _ (P : State → Type 0) where
  ticket_keeps : (c : Conn) (f : State → State) (s : State) → P (f s) → P s → P (at_ticket c f s)
  ticket_keeps ticketing f s p q = p
  ticket_keeps (on_socket b) f s p q = q
  ticket_keeps (waiting ms) f s p q = q
  ticket_keeps ended f s p q = q

  socket_keeps : (c : Conn) (f : State → State) (s : State) → P (f s) → P s → P (at_socket c f s)
  socket_keeps ticketing f s p q = q
  socket_keeps (on_socket b) f s p q = p
  socket_keeps (waiting ms) f s p q = q
  socket_keeps ended f s p q = q

  timer_keeps : (c : Conn) (f : State → State) (s : State) → P (f s) → P s → P (at_timer c f s)
  timer_keeps ticketing f s p q = q
  timer_keeps (on_socket b) f s p q = q
  timer_keeps (waiting ms) f s p q = p
  timer_keeps ended f s p q = q

TabOk-nil : (tab : Tab) (n : ℕ) → TabOk tab n []
TabOk-nil tab n = record { short = omega arith; own = tt; numbered = tt; increasing = tt }

empty-BuffersOk : (n : ℕ) → BuffersOk n empty_buffers
empty-BuffersOk n = (TabOk-nil _ n, TabOk-nil _ n, TabOk-nil _ n, TabOk-nil _ n)

keep_line-Kept :
    (tab : Tab) (l : LiveLine) (s : State)
    → tab_of l.log ≡ some tab
    → l.id ≡ s.next_id
    → Kept s
    → Kept (keep_line tab l (record s { next_id = s.next_id + 1 }))
unfolding keep_line
keep_line-Kept requests l s t e (k, shown) =
    let (a, b, c, d) = BuffersOk-mono (s.next_id + 1) (omega arith) k in
    (
      (append_capped-TabOk requests s.next_id _ l e t k.0, b, c, d),
      BuffersOk-mono _ (omega arith) shown,
    )
keep_line-Kept errors l s t e (k, shown) =
    let (a, b, c, d) = BuffersOk-mono (s.next_id + 1) (omega arith) k in
    (
      (a, append_capped-TabOk errors s.next_id _ l e t k.1, c, d),
      BuffersOk-mono _ (omega arith) shown,
    )
keep_line-Kept security_events l s t e (k, shown) =
    let (a, b, c, d) = BuffersOk-mono (s.next_id + 1) (omega arith) k in
    (
      (a, b, append_capped-TabOk security_events s.next_id _ l e t k.2, d),
      BuffersOk-mono _ (omega arith) shown,
    )
keep_line-Kept streams l s t e (k, shown) =
    let (a, b, c, d) = BuffersOk-mono (s.next_id + 1) (omega arith) k in
    (
      (a, b, c, append_capped-TabOk streams s.next_id _ l e t k.3),
      BuffersOk-mono _ (omega arith) shown,
    )

bump-Kept : (s : State) → Kept s → Kept (record s { next_id = s.next_id + 1 })
bump-Kept s (b, shown) = (BuffersOk-mono _ (omega arith) b, BuffersOk-mono _ (omega arith) shown)

keep_if-Kept :
    (o : Option Tab) (l : LiveLine) (s : State)
    → tab_of l.log ≡ o
    → l.id ≡ s.next_id
    → Kept s
    → Kept (keep_if o l (record s { next_id = s.next_id + 1 }))
keep_if-Kept none l s t e k = bump-Kept s k
keep_if-Kept (some tab) l s t e k = keep_line-Kept tab l s t e k

take_line-Kept :
    (o : Option LiveLine) (s : State)
    → ((l : LiveLine) → o ≡ some l → l.id ≡ s.next_id)
    → Kept s
    → Kept (take_line o (record s { next_id = s.next_id + 1 }))
take_line-Kept none s h k = bump-Kept s k
take_line-Kept (some l) s h k = keep_if-Kept (tab_of l.log) l s refl (h l refl) k

to_line-id :
    (now : ℕ) (frame : Frame) (id : ℕ) (l : LiveLine) → to_line now frame id ≡ some l → l.id ≡ id
unfolding to_line
to_line-id now (line fr) id l e = cc
to_line-id now _ id l e = ground arith

handle_frame-Kept : (now : ℕ) (frame : Frame) (s : State) → Kept s → Kept (handle_frame now frame s)
unfolding handle_frame
handle_frame-Kept now ping s k = k
handle_frame-Kept now (skipped_frame n) s k = k
handle_frame-Kept now frame s k =
    take_line-Kept (to_line now frame s.next_id) s (to_line-id now frame s.next_id) k

backoff-Kept : (s : State) → Kept s → Kept (backoff s)
unfolding backoff retry_in
backoff-Kept s k = k

-- A state with the same buffers, lines and counter.
Kept-of :
    (s t : State)
    → t.buffers ≡ s.buffers
    → t.lines ≡ s.lines
    → t.next_id ≡ s.next_id
    → Kept s
    → Kept t
Kept-of s t b l n (k, shown) = rw (b, l, n) (k, shown)

on_close-Kept : (code : ℕ) (s : State) → Kept s → Kept (on_close code s)
unfolding on_close backoff retry_in
on_close-Kept code s k = Kept-of s (on_close code s) (ground arith) (ground arith) (ground arith) k

on_ticket_error-Kept : (o : Option ℕ) (s : State) → Kept s → Kept (on_ticket_error o s)
unfolding on_ticket_error backoff retry_in
on_ticket_error-Kept o s k =
    Kept-of s (on_ticket_error o s) (ground arith) (ground arith) (ground arith) k

flush-Kept : (s : State) → Kept s → Kept (flush s)
unfolding flush
flush-Kept s (k, shown) = elim (Bool-cases s.paused) [
  | inl e ↦ rw e (k, shown)
  | inr e ↦ rw e (k, k)
]

set_paused-Kept : (next : Bool) (s : State) → Kept s → Kept (set_paused next s)
unfolding set_paused
set_paused-Kept true s k = k
set_paused-Kept false s k = k

flush_due-Kept : (b : Bool) (s : State) → Kept s → Kept (if b then flush s else s)
flush_due-Kept true s k = flush-Kept s k
flush_due-Kept false s k = k

receive-Kept : (now : ℕ) (o : Option Frame) (s : State) → Kept s → Kept (receive now o s)
receive-Kept now none s k = k
receive-Kept now (some frame) s k = handle_frame-Kept now frame _ k

send_if-Kept : (c : Conn) (s : State) → Kept s → Kept (send_if c s)
send_if-Kept (on_socket true) s k = k
send_if-Kept _ s k = k

step-Kept : (s : State) (e : Event) → Kept s → Kept (step s e)
unfolding step clear
step-Kept s ticket_ok k = ticket_keeps Kept s.conn _ s k k
step-Kept s (ticket_failed status) k =
    ticket_keeps Kept s.conn _ s (on_ticket_error-Kept status s k) k
step-Kept s opened k = socket_keeps Kept s.conn _ s k k
step-Kept s (message now frame) k = socket_keeps Kept s.conn _ s (receive-Kept now frame s k) k
step-Kept s (closed code) k = socket_keeps Kept s.conn _ s (on_close-Kept code s k) k
step-Kept s retry_due k = timer_keeps Kept s.conn _ s k k
step-Kept s flush_due k = flush_due-Kept s.flush_timer s k
step-Kept s second_over k = k
step-Kept s (pause_set next) k = set_paused-Kept next s k
step-Kept s (watch_set w) k = send_if-Kept s.conn _ k
step-Kept s cleared k = (empty-BuffersOk s.next_id, empty-BuffersOk s.next_id)
step-Kept s unmounted k = k

run-Kept_from : (s : State) (es : List Event) → Kept s → Kept (run s es)
unfolding run
run-Kept_from s [] k = k
run-Kept_from s (e ∷ es) k = run-Kept_from (step s e) es (step-Kept s e k)

-- After any events, each tab's buffer and the lines shown of it hold at most 1000 lines, all of
-- that tab, with increasing ids below the next one.
pub run-Kept : (watch : Watch) (es : List Event) → Kept (run (initial watch) es)
run-Kept watch es = run-Kept_from (initial watch) es (empty-BuffersOk 1, empty-BuffersOk 1)
