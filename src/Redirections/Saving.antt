-- ===== src/Redirections/Saving.antt =====
-- Saving the dialog as it opens.
use megoo_pm.Prelude.{ℕ, ◌≡◌, refl, false, Option, none, some, List, ◌∷◌}
use megoo_pm.Text.{Text, text, same, is_empty}
use megoo_pm.Text.Equality.{same_refl}
use megoo_pm.Text.Trim.{IsTrimmed}
use megoo_pm.Number.{ℤ, pos, number_text}
use megoo_pm.Number.Decimal.{parse_int-number_text, number_text-ne}
use megoo_pm.Streams.Dialog.{no_certificate, certificate_id_from_value, value_from_certificate_id}
use megoo_pm.Redirections.{Host, Payload, stored_config, state_from_host, sent, handle_submit}

abbrev stored_id : Option ℕ → Option (Option ℤ)
stored_id none = none
stored_id (some id) = some (some (pos id))

not_none : (n : ℕ) → same (number_text n) no_certificate ≡ false
unfolding text
not_none n = number_text-ne n b'n' _ refl

certificate_id_round :
    (o : Option ℕ) → certificate_id_from_value (value_from_certificate_id o) ≡ stored_id o
unfolding certificate_id_from_value
certificate_id_round none = rw (same_refl no_certificate) refl
certificate_id_round (some id) = rw (not_none id, parse_int-number_text id) refl

abbrev as_stored : Host → Payload
as_stored h = record {
  domain_names = h.domain_names;
  forward_domain_name = h.forward_domain_name;
  forward_scheme = h.forward_scheme;
  forward_http_code = h.forward_http_code;
  preserve_path = h.preserve_path;
  certificate_id = stored_id h.certificate_id;
  enabled = h.enabled;
  advanced_config = stored_config (some h);
  toggles = h.toggles;
}

-- Saving a stored host as its dialog opens sends the host as it is stored, the configuration that
-- the dialog does not show included.
pub handle_submit-state_from_host :
    (h : Host) (domain : Text) (domains : List Text)
    → h.domain_names ≡ domain ∷ domains
    → IsTrimmed h.forward_domain_name
    → is_empty h.forward_domain_name ≡ false
    → handle_submit false (some h) (state_from_host (some h)) ≡ sent (as_stored h)
unfolding handle_submit state_from_host
handle_submit-state_from_host h domain domains some_domain trimmed named =
    rw (some_domain, trimmed, named, certificate_id_round h.certificate_id) refl
