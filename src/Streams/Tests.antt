-- ===== src/Streams/Tests.antt =====
-- Ports of a stream as they are typed.
use megoo_pm.Prelude.{true, false, ◌≡◌, refl, none, some, inr}
use megoo_pm.Text.{same, is_space, trim, text}
use megoo_pm.Number.{value_from, number_text}
use megoo_pm.Streams.{parse_port}
use megoo_pm.Streams.Dialog.{
  certificate_id_from_value, to_pool, Form, refused, sent, state_from_stream, handle_submit,
}
use megoo_pm.Streams.Sending.{IsSound, handle_submit-IsSound}

typed :
    (parse_port (text " 8080 ") ≡ some 8080)
    × (parse_port (text "0") ≡ none)
    × (parse_port (text "65536") ≡ none)
    × (parse_port (text "80a") ≡ none)
unfolding parse_port text trim is_space value_from
typed = (refl, refl, refl, refl)

abbrev typed_form : Form
typed_form = record (state_from_stream none) {
  incoming_port = text "5432";
  forward_host = text " db ";
  forward_port = text "5433";
}

submitted :
    (handle_submit typed_form
      ≡ sent (record {
        incoming_port = 5432;
        forward_host = some (text "db");
        forward_port = some 5433;
        upstream_id = none;
        tcp_forwarding = true;
        udp_forwarding = false;
        certificate_id = none;
        enabled = true;
      }))
    × (handle_submit (record typed_form { tcp_forwarding = false })
        ≡ refused (text "Enable at least one protocol (TCP or UDP)."))
    × (handle_submit (record typed_form { target_mode = to_pool })
        ≡ refused (text "Choose an upstream pool to forward to."))
unfolding handle_submit text parse_port trim is_space value_from certificate_id_from_value same
submitted = (refl, refl, refl)

abbrev pool_form : Form
pool_form = record typed_form { target_mode = to_pool; upstream_id = number_text 7 }

handle_submit-IsSound_example : IsSound pool_form (handle_submit pool_form)
handle_submit-IsSound_example = handle_submit-IsSound pool_form (inr (7, refl))
