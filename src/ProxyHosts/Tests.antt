-- ===== src/ProxyHosts/Tests.antt =====
-- Tests and examples for the proxy host dialog.
use megoo_pm.Prelude.{◌≡◌, refl, ◌↔◌, true, false, none, some, List, [], ◌∷◌}
use megoo_pm.Text.{text, same, has, trim, is_space, starts_with, includes}
use megoo_pm.Number.{number_text, parse_int, value_from}
use megoo_pm.Regex.{test}
use megoo_pm.ProxyHosts.{
  to_host, http, https, forwarding, LocationRow, Form, Location, Host, parse_port,
}
use megoo_pm.ProxyHosts.State.{row_of, state_from_host}
use megoo_pm.ProxyHosts.Addresses.{
  is_ip_or_cidr, parts_ok, prefix_ok, address_ok, is_octet, split_at,
}
use megoo_pm.ProxyHosts.Checks.{
  validate_form, validate_locations, row_message, is_forbidden, validate_allow, validate_root,
}
use megoo_pm.ProxyHosts.Payload.{build_payload}
use megoo_pm.ProxyHosts.Accepted.{FormOk, validate_form_iff}
use megoo_pm.ProxyHosts.Sound.{Sent, build_payload-Sent}

addresses :
    (is_ip_or_cidr (text " 10.0.0.0/8 ") ≡ true)
    × (is_ip_or_cidr (text "10.0.0.256") ≡ false)
    × (is_ip_or_cidr (text "10.0.0.1/33") ≡ false)
    × (is_ip_or_cidr (text "fe80::1/64") ≡ true)
    × (is_ip_or_cidr (text "1/2/3") ≡ false)
unfolding is_ip_or_cidr parts_ok prefix_ok address_ok is_octet split_at text trim is_space includes
    starts_with test value_from
addresses = (refl, refl, refl, refl, refl)

ports :
    (parse_port (text " 443 ") ≡ some 443)
    × (parse_port (text "0") ≡ none)
    × (parse_port (text "65536") ≡ none)
    × (parse_port (text "80x") ≡ some 80)
    × (parse_port (text "-1") ≡ none)
unfolding parse_port parse_int text trim is_space
ports = (refl, refl, refl, refl, refl)

abbrev stored_location : Location
stored_location = record {
  id = 7;
  path = text "/api/";
  target = some to_host;
  upstream_id = none;
  forward_host = some (text "app");
  forward_port = some 8080;
  forward_scheme = some https;
  custom_page_id = none;
  error_code = none;
}

abbrev stored_host : Host
stored_host = record {
  domain_names = text "a.example" ∷ [];
  upstream_id = some 3;
  forward_host = none;
  forward_port = none;
  forward_scheme = some http;
  certificate_id = some 12;
  access_list_id = none;
  enabled = some true;
  locations = some (stored_location ∷ []);
  maintenance_allow = some (text "10.0.0.0/8" ∷ []);
  advanced_config = none;
  toggle = λ k. none;
  crowdsec_appsec_enabled = none;
}

abbrev opened : Form
opened = state_from_host (some stored_host) true

accepted : validate_form opened ≡ none
unfolding state_from_host row_of number_text is_ip_or_cidr parts_ok prefix_ok address_ok is_octet
    split_at validate_form validate_root validate_allow validate_locations row_message is_forbidden
    parse_port parse_int text same has trim is_space starts_with includes test
accepted = refl

build_payload-Sent_example : Sent opened (build_payload opened (some stored_host))
build_payload-Sent_example = build_payload-Sent opened (some stored_host) accepted

validate_form_iff_example : (validate_form opened ≡ none) ↔ FormOk opened
validate_form_iff_example = validate_form_iff opened

abbrev twins : List LocationRow
twins = row_of stored_location ∷ row_of stored_location ∷ []

duplicate :
    validate_locations twins
    ≡ some (record { message = text "Duplicate location path \"/api/\"."; tab = some forwarding })
unfolding row_of number_text validate_locations row_message is_forbidden parse_port parse_int text
    same has trim is_space starts_with
duplicate = refl
