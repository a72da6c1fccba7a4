-- ===== src/ProxyHosts/Payload.antt =====
-- `buildPayload`: the request that the form makes.
use megoo_pm.Prelude.{Bool, true, false, ◌&&◌, ◌||◌, not, Option, none, some, map, if◌then◌else◌}
use megoo_pm.Text.{Text, same, trim}
use megoo_pm.Number.{ℤ, parse_int}
use megoo_pm.ProxyHosts.{
  TargetMode, host, pool, LocationTarget, to_host, to_pool, default_site, custom_page, error_page,
  LocationRow, Form, Host, JsNumber, nan, int, LocationPayload, HostPayload, no_access_list,
  no_certificate, parse_port, or_else,
}

abbrev pub js_number : Option ℤ → JsNumber
js_number none = nan
js_number (some z) = int z

unfoldable pub id_or_null : Text → Text → Option JsNumber
id_or_null value sentinel = if same value sentinel then none else some (js_number (parse_int value))

-- `row.targetMode === target`
abbrev pub is_target : LocationTarget → LocationTarget → Bool
is_target to_host to_host = true
is_target to_pool to_pool = true
is_target default_site default_site = true
is_target custom_page custom_page = true
is_target error_page error_page = true
is_target _ _ = false

abbrev is_pool : TargetMode → Bool
is_pool pool = true
is_pool host = false

unfoldable pub location_payload : LocationRow → LocationPayload
location_payload row =
    let pooled = is_target row.target_mode to_pool in
    let proxied = pooled || is_target row.target_mode to_host in
    record {
      path = trim row.path;
      target = row.target_mode;
      upstream_id = if pooled then some (js_number (parse_int row.upstream_id)) else none;
      forward_host = if proxied && not pooled then some (trim row.forward_host) else none;
      forward_port = if proxied && not pooled then parse_port row.forward_port else none;
      forward_scheme = row.scheme;
      custom_page_id =
          if is_target row.target_mode custom_page
          then some (js_number (parse_int row.custom_page_id))
          else none;
      error_code =
          if is_target row.target_mode error_page
          then some (js_number (parse_int row.error_code))
          else none;
    }

abbrev appsec_of : Option Host → Bool
appsec_of none = false
appsec_of (some h) = or_else h.crowdsec_appsec_enabled false

unfoldable pub build_payload : Form → Option Host → HostPayload
build_payload form stored =
    let root_pool = is_pool form.root_target_mode in
    record {
      domain_names = form.domains;
      upstream_id = if root_pool then some (js_number (parse_int form.root_upstream_id)) else none;
      forward_host = if root_pool then none else some (trim form.root_forward_host);
      forward_port = if root_pool then none else parse_port form.root_forward_port;
      forward_scheme = form.root_scheme;
      certificate_id = id_or_null form.certificate_id no_certificate;
      access_list_id = id_or_null form.access_list_id no_access_list;
      enabled = form.enabled;
      maintenance_allow = form.maintenance_allow;
      advanced_config = form.advanced_config;
      toggles = form.toggles;
      locations = map location_payload form.locations;
      crowdsec_appsec_enabled = appsec_of stored;
    }
