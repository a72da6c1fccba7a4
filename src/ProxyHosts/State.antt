-- ===== src/ProxyHosts/State.antt =====
-- The form's state: a new row, an empty form, and the form of a stored host.
use megoo_pm.Prelude.{
  ℕ, zero, suc, ◌+◌, Bool, true, false, Option, none, some, [], ◌++◌, map, if◌then◌else◌,
}
use megoo_pm.Text.{Text, text}
use megoo_pm.Number.{number_text}
use megoo_pm.ProxyHosts.{
  ToggleKey, host, pool, to_host, to_pool, http, LocationRow, Form, Location, Host, no_access_list,
  no_certificate, or_else,
}

-- `newRowSeq` before and after.
unfoldable pub new_location_row : ℕ → LocationRow × ℕ
new_location_row seq = (
  record {
    key = text "loc-new-" ++ number_text (seq + 1);
    path = [];
    target_mode = to_pool;
    upstream_id = [];
    forward_host = [];
    forward_port = [];
    scheme = http;
    custom_page_id = [];
    error_code = [];
  },
  seq + 1,
)

unfoldable pub empty_toggles : ToggleKey → Bool
empty_toggles k = false

-- `id != null ? String(id) : ""`
abbrev pub id_text : Option ℕ → Text
id_text none = []
id_text (some n) = number_text n

-- `id ? String(id) : sentinel`: an id of 0 counts as none
abbrev pub id_or : Text → Option ℕ → Text
id_or sentinel none = sentinel
id_or sentinel (some zero) = sentinel
id_or sentinel (some (suc n)) = number_text (suc n)

abbrev has_id : Option ℕ → Bool
has_id none = false
has_id (some n) = true

unfoldable pub row_of : Location → LocationRow
row_of l = record {
  key = text "loc-" ++ number_text l.id;
  path = l.path;
  target_mode = or_else l.target (if has_id l.upstream_id then to_pool else to_host);
  upstream_id = id_text l.upstream_id;
  forward_host = or_else l.forward_host [];
  forward_port = id_text l.forward_port;
  scheme = or_else l.forward_scheme http;
  custom_page_id = id_text l.custom_page_id;
  error_code = id_text l.error_code;
}

unfoldable pub blank_form : Bool → Form
unfolding empty_toggles
blank_form has_pools = record {
  domains = [];
  access_list_id = no_access_list;
  enabled = true;
  root_target_mode = if has_pools then pool else host;
  root_upstream_id = [];
  root_forward_host = [];
  root_forward_port = [];
  root_scheme = http;
  locations = [];
  certificate_id = no_certificate;
  toggles = empty_toggles;
  maintenance_allow = [];
  advanced_config = [];
}

unfoldable pub form_of : Host → Form
form_of h = record {
  domains = h.domain_names;
  access_list_id = id_or no_access_list h.access_list_id;
  enabled = or_else h.enabled true;
  root_target_mode = if has_id h.upstream_id then pool else host;
  root_upstream_id = id_text h.upstream_id;
  root_forward_host = or_else h.forward_host [];
  root_forward_port = id_text h.forward_port;
  root_scheme = or_else h.forward_scheme http;
  locations = map row_of (or_else h.locations []);
  certificate_id = id_or no_certificate h.certificate_id;
  toggles = λ k. or_else (h.toggle k) false;
  maintenance_allow = or_else h.maintenance_allow [];
  advanced_config = or_else h.advanced_config [];
}

unfoldable pub state_from_host : Option Host → Bool → Form
unfolding blank_form form_of
state_from_host none has_pools = blank_form has_pools
state_from_host (some h) has_pools = form_of h
