-- ===== src/Streams/Sending.antt =====
-- What the dialog of a stream sends.
use megoo_pm.Prelude.{
  ℕ, ◌≤◌, ◌≡◌, ◌⊎◌, refl, arith, inl, inr, true, false, Bool-cases, ◌||◌, Option, none, some,
}
use megoo_pm.Text.{Text, is_empty, trim}
use megoo_pm.Number.{ℤ, pos, parse_int, number_text}
use megoo_pm.Number.Decimal.{parse_int-number_text}
use megoo_pm.Streams.{parse_port}
use megoo_pm.Streams.Ports.{parse_port_sound}
use megoo_pm.Streams.Dialog.{
  TargetMode, to_host, to_pool, Form, Payload, Submitted, refused, sent, with_protocol, with_port,
  with_target, with_incoming, handle_submit,
}

abbrev pub IsPort : ℕ → Type 0
IsPort n = (1 ≤ n) × (n ≤ 65535)

-- What the select of the pools holds: no value, or the id of a pool in digits.
abbrev pub IsPoolChoice : Text → Type 0
IsPoolChoice value = (is_empty value ≡ true) ⊎ ((n : ℕ) × (value ≡ number_text n))

-- One target: the host of the form and its port, or the pool of the form.
abbrev pub HasTarget : Form → Option Text → Option ℕ → Option (Option ℤ) → Type 0
HasTarget form (some host) (some port) none =
    (form.target_mode ≡ to_host)
    × (host ≡ trim form.forward_host)
    × (is_empty host ≡ false)
    × IsPort port
HasTarget form none none (some (some (pos n))) =
    (form.target_mode ≡ to_pool) × (form.upstream_id ≡ number_text n)
HasTarget form host port pool = ⊥

abbrev pub IsSound : Form → Submitted → Type 0
IsSound form (refused message) = Unit
IsSound form (sent p) =
    IsPort p.incoming_port
    × HasTarget form p.forward_host p.forward_port p.upstream_id
    × ((p.tcp_forwarding || p.udp_forwarding) ≡ true)

with_protocol-IsSound :
    (form : Form) (p : Payload)
    → IsPort p.incoming_port
    → HasTarget form p.forward_host p.forward_port p.upstream_id
    → p.tcp_forwarding ≡ form.tcp_forwarding
    → p.udp_forwarding ≡ form.udp_forwarding
    → IsSound form (with_protocol form p)
with_protocol-IsSound form p port target tcp udp = elim (Bool-cases form.tcp_forwarding) [
  | inl a ↦ rw a (port, target, rw (tcp, a) refl)
  | inr a ↦ elim (Bool-cases form.udp_forwarding) [
    | inl b ↦ rw (a, b) (port, target, rw (tcp, udp, a, b) refl)
    | inr b ↦ rw (a, b) tt
  ]
]

IsPort-of : (s : Text) (n : ℕ) → parse_port s ≡ some n → IsPort n
IsPort-of s n h = let (good, value, low, high) = parse_port_sound s n h in (low, high)

with_port-IsSound :
    (form : Form) (incoming : ℕ) (o : Option ℕ)
    → form.target_mode ≡ to_host
    → parse_port form.forward_port ≡ o
    → IsPort incoming
    → is_empty (trim form.forward_host) ≡ false
    → IsSound form (with_port form incoming o)
with_port-IsSound form incoming none m e port host = tt
with_port-IsSound form incoming (some forward) m e port host =
    with_protocol-IsSound form _ port (m, refl, host, IsPort-of form.forward_port forward e) refl
      refl

pool-HasTarget :
    (form : Form)
    → form.target_mode ≡ to_pool
    → IsPoolChoice form.upstream_id
    → is_empty form.upstream_id ≡ false
    → HasTarget form none none (some (parse_int form.upstream_id))
pool-HasTarget form m (inl blank) full = absurd (ground arith)
pool-HasTarget form m (inr (n, e)) full =
    let read : parse_int form.upstream_id ≡ some (pos n) = rw e (parse_int-number_text n) in
    rw read (m, e)

with_target-IsSound :
    (mode : TargetMode) (form : Form) (incoming : ℕ)
    → form.target_mode ≡ mode
    → IsPoolChoice form.upstream_id
    → IsPort incoming
    → IsSound form (with_target mode form incoming)
with_target-IsSound to_pool form incoming m pool port =
    elim (Bool-cases (is_empty form.upstream_id)) [
      | inl e ↦ rw e tt
      | inr e ↦ rw e (with_protocol-IsSound form _ port (pool-HasTarget form m pool e) refl refl)
    ]
with_target-IsSound to_host form incoming m pool port =
    elim (Bool-cases (is_empty (trim form.forward_host))) [
      | inl e ↦ rw e tt
      | inr e ↦ rw e (with_port-IsSound form incoming (parse_port form.forward_port) m refl port e)
    ]

-- Where the pool of the form is unset or an id in digits: what is sent of a stream has a port from
-- 1 to 65535, one protocol at least, and exactly one target, which is the form's host, trimmed and
-- not blank, with a port from 1 to 65535, in the host mode, and the id of the form's pool in the
-- pool mode.
pub handle_submit-IsSound :
    (form : Form) → IsPoolChoice form.upstream_id → IsSound form (handle_submit form)
unfolding handle_submit
handle_submit-IsSound form pool = go (parse_port form.incoming_port) refl
  where
    go : (o : Option ℕ) → parse_port form.incoming_port ≡ o → IsSound form (with_incoming form o)
    go none e = tt
    go (some incoming) e =
        with_target-IsSound form.target_mode form incoming refl pool
          (IsPort-of form.incoming_port incoming e)
