-- ===== src/ProxyHosts/RoundTrip.antt =====
-- Opening the dialog on a stored host and saving it unchanged.
use megoo_pm.Prelude.{ℕ, ◌≤◌, ◌≡◌, ◌≢◌, ◌⊎◌, true, false, Option, none, some, [], map, All}
use megoo_pm.Text.{Text}
use megoo_pm.Text.Trim.{IsTrimmed}
use megoo_pm.Number.{pos}
use megoo_pm.ProxyHosts.{
  LocationTarget, to_host, to_pool, default_site, custom_page, error_page, http, Location, Host,
  JsNumber, int, LocationPayload, HostPayload, or_else,
}
use megoo_pm.ProxyHosts.State.{row_of}

-- What the API stores of a target: the fields of its kind, and null in the others.
abbrev pub BackendStored : Option Text → Option ℕ → Type 0
BackendStored address port =
    (a : Text) × (n : ℕ) × (address ≡ some a)
    × IsTrimmed a
    × (port ≡ some n)
    × (1 ≤ n)
    × (n ≤ 65535)

abbrev pub TargetStored : LocationTarget → Location → Type 0
TargetStored to_pool l =
    ((n : ℕ) × (l.upstream_id ≡ some n))
    × (l.forward_host ≡ none)
    × (l.forward_port ≡ none)
    × (l.custom_page_id ≡ none)
    × (l.error_code ≡ none)
TargetStored to_host l =
    (l.upstream_id ≡ none)
    × BackendStored l.forward_host l.forward_port
    × (l.custom_page_id ≡ none)
    × (l.error_code ≡ none)
TargetStored default_site l =
    (l.upstream_id ≡ none)
    × (l.forward_host ≡ none)
    × (l.forward_port ≡ none)
    × (l.custom_page_id ≡ none)
    × (l.error_code ≡ none)
TargetStored custom_page l =
    (l.upstream_id ≡ none)
    × (l.forward_host ≡ none)
    × (l.forward_port ≡ none)
    × ((n : ℕ) × (l.custom_page_id ≡ some n))
    × (l.error_code ≡ none)
TargetStored error_page l =
    (l.upstream_id ≡ none)
    × (l.forward_host ≡ none)
    × (l.forward_port ≡ none)
    × (l.custom_page_id ≡ none)
    × ((n : ℕ) × (l.error_code ≡ some n))

-- A row without a stored target forwards to its pool, or to its host if it has no pool.
abbrev pub target_of : Location → LocationTarget
target_of l = (row_of l).target_mode

pub record LocationStored (l : Location) : Type 0 where
  pub trimmed : IsTrimmed l.path
  pub stored : TargetStored (row_of l).target_mode l

abbrev pub RootStored : Host → Type 0
RootStored h =
    (((n : ℕ) × (h.upstream_id ≡ some n)) × (h.forward_host ≡ none) × (h.forward_port ≡ none))
    ⊎ ((h.upstream_id ≡ none) × BackendStored h.forward_host h.forward_port)

pub record HostStored (h : Host) : Type 0 where
  pub root : RootStored h
  pub certificate : h.certificate_id ≢ some 0
  pub access_list : h.access_list_id ≢ some 0
  pub rows : All LocationStored (or_else h.locations [])

abbrev pub sent_id : Option ℕ → Option JsNumber
sent_id none = none
sent_id (some n) = some (int (pos n))

-- The request that says of a host what is stored.
unfoldable pub location_as_stored : Location → LocationPayload
location_as_stored l = record {
  path = l.path;
  target = (row_of l).target_mode;
  upstream_id = sent_id l.upstream_id;
  forward_host = l.forward_host;
  forward_port = l.forward_port;
  forward_scheme = or_else l.forward_scheme http;
  custom_page_id = sent_id l.custom_page_id;
  error_code = sent_id l.error_code;
}

unfoldable pub host_as_stored : Host → HostPayload
host_as_stored h = record {
  domain_names = h.domain_names;
  upstream_id = sent_id h.upstream_id;
  forward_host = h.forward_host;
  forward_port = h.forward_port;
  forward_scheme = or_else h.forward_scheme http;
  certificate_id = sent_id h.certificate_id;
  access_list_id = sent_id h.access_list_id;
  enabled = or_else h.enabled true;
  maintenance_allow = or_else h.maintenance_allow [];
  advanced_config = or_else h.advanced_config [];
  toggles = λ k. or_else (h.toggle k) false;
  locations = map location_as_stored (or_else h.locations []);
  crowdsec_appsec_enabled = or_else h.crowdsec_appsec_enabled false;
}

-- The fields of a location that depend on its kind of target come back.
abbrev FieldsBack : LocationPayload → Location → Type 0
FieldsBack p l =
    (p.upstream_id ≡ sent_id l.upstream_id)
    × (p.forward_host ≡ l.forward_host)
    × (p.forward_port ≡ l.forward_port)
    × (p.custom_page_id ≡ sent_id l.custom_page_id)
    × (p.error_code ≡ sent_id l.error_code)
