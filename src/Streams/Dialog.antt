-- ===== src/Streams/Dialog.antt =====
-- frontend/src/components/streams/stream-dialog.tsx and
-- frontend/src/components/hosts/certificate-select.tsx: the dialog of a stream and what it sends.
use megoo_pm.Prelude.{ℕ, Bool, true, false, ◌&&◌, not, Option, none, some, [], if◌then◌else◌}
use megoo_pm.Text.{Text, text, same, is_empty, trim}
use megoo_pm.Number.{ℤ, parse_int, number_text}
use megoo_pm.Streams.{parse_port}

pub data TargetMode : Type 0 where
  to_host to_pool : TargetMode

pub record Stream : Type 0 where
  pub incoming_port : ℕ
  pub forward_host : Option Text
  pub forward_port : Option ℕ
  pub upstream_id : Option ℕ
  pub tcp_forwarding : Bool
  pub udp_forwarding : Bool
  pub certificate_id : Option ℕ
  pub enabled : Bool

pub record Form : Type 0 where
  pub target_mode : TargetMode
  pub upstream_id : Text
  pub incoming_port : Text
  pub forward_host : Text
  pub forward_port : Text
  pub tcp_forwarding : Bool
  pub udp_forwarding : Bool
  pub certificate_id : Text
  pub enabled : Bool

-- An id is an integer, or `none` for `NaN`.
pub record Payload : Type 0 where
  pub incoming_port : ℕ
  pub forward_host : Option Text
  pub forward_port : Option ℕ
  pub upstream_id : Option (Option ℤ)
  pub tcp_forwarding : Bool
  pub udp_forwarding : Bool
  pub certificate_id : Option (Option ℤ)
  pub enabled : Bool

abbrev pub no_certificate : Text
no_certificate = text "none"

unfoldable pub certificate_id_from_value : Text → Option (Option ℤ)
certificate_id_from_value value = if same value no_certificate then none else some (parse_int value)

abbrev pub value_from_certificate_id : Option ℕ → Text
value_from_certificate_id none = no_certificate
value_from_certificate_id (some id) = number_text id

abbrev pub mode_of : Option ℕ → TargetMode
mode_of none = to_host
mode_of (some id) = to_pool

abbrev pub number_or_blank : Option ℕ → Text
number_or_blank none = []
number_or_blank (some n) = number_text n

abbrev pub text_or_blank : Option Text → Text
text_or_blank none = []
text_or_blank (some s) = s

abbrev pub state_from_stream : Option Stream → Form
state_from_stream none = record {
  target_mode = to_host;
  upstream_id = [];
  incoming_port = [];
  forward_host = [];
  forward_port = [];
  tcp_forwarding = true;
  udp_forwarding = false;
  certificate_id = value_from_certificate_id none;
  enabled = true;
}
state_from_stream (some s) = record {
  target_mode = mode_of s.upstream_id;
  upstream_id = number_or_blank s.upstream_id;
  incoming_port = number_text s.incoming_port;
  forward_host = text_or_blank s.forward_host;
  forward_port = number_or_blank s.forward_port;
  tcp_forwarding = s.tcp_forwarding;
  udp_forwarding = s.udp_forwarding;
  certificate_id = value_from_certificate_id s.certificate_id;
  enabled = s.enabled;
}

pub data Submitted : Type 0 where
  refused : Text → Submitted
  sent : Payload → Submitted

abbrev pub with_protocol : Form → Payload → Submitted
with_protocol form p =
    if not form.tcp_forwarding && not form.udp_forwarding
    then refused (text "Enable at least one protocol (TCP or UDP).")
    else sent p

abbrev pub payload : Form → ℕ → Option Text → Option ℕ → Option (Option ℤ) → Payload
payload form incoming host port pool = record {
  incoming_port = incoming;
  forward_host = host;
  forward_port = port;
  upstream_id = pool;
  tcp_forwarding = form.tcp_forwarding;
  udp_forwarding = form.udp_forwarding;
  certificate_id = certificate_id_from_value form.certificate_id;
  enabled = form.enabled;
}

abbrev pub with_port : Form → ℕ → Option ℕ → Submitted
with_port form incoming none = refused (text "Forward port must be between 1 and 65535.")
with_port form incoming (some port) =
    with_protocol form (payload form incoming (some (trim form.forward_host)) (some port) none)

abbrev pub with_target : TargetMode → Form → ℕ → Submitted
with_target to_pool form incoming =
    if is_empty form.upstream_id
    then refused (text "Choose an upstream pool to forward to.")
    else with_protocol form (payload form incoming none none (some (parse_int form.upstream_id)))
with_target to_host form incoming =
    if is_empty (trim form.forward_host)
    then refused (text "Enter a forward host.")
    else with_port form incoming (parse_port form.forward_port)

abbrev pub with_incoming : Form → Option ℕ → Submitted
with_incoming form none = refused (text "Incoming port must be between 1 and 65535.")
with_incoming form (some incoming) = with_target form.target_mode form incoming

unfoldable pub handle_submit : Form → Submitted
handle_submit form = with_incoming form (parse_port form.incoming_port)
