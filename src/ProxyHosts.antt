-- ===== src/ProxyHosts.antt =====
-- frontend/src/components/proxy-hosts/lib.ts: the model of the proxy host dialog. A stored host
-- (`Host`) becomes the form's state (`Form`), the form is checked, and becomes the request.
pub mod State
pub mod Addresses
pub mod Checks
pub mod Payload
pub mod Accepted
pub mod Sound
pub mod RoundTrip
pub mod Keys
mod Tests
use megoo_pm.Prelude.{ℕ, Bool, Option, List, leb, ◌&&◌, none, some, if◌then◌else◌}
use megoo_pm.Text.{Text, text, trim}
use megoo_pm.Number.{ℤ, pos, negsuc, parse_int}

pub data ToggleKey : Type 0 where
  ssl_forced http2_support hsts_enabled hsts_subdomains caching_enabled : ToggleKey
  block_exploits allow_websocket_upgrade crowdsec_enabled maintenance_enabled : ToggleKey

pub data TargetMode : Type 0 where
  host pool : TargetMode

-- `LocationTargetMode`
pub data LocationTarget : Type 0 where
  to_host to_pool default_site custom_page error_page : LocationTarget

pub data HttpScheme : Type 0 where
  http https : HttpScheme

pub data DialogTab : Type 0 where
  forwarding certificate advanced : DialogTab

pub record LocationRow : Type 0 where
  pub key : Text
  pub path : Text
  pub target_mode : LocationTarget
  pub upstream_id : Text
  pub forward_host : Text
  pub forward_port : Text
  pub scheme : HttpScheme
  pub custom_page_id : Text
  pub error_code : Text

pub record Form : Type 0 where
  pub domains : List Text
  pub access_list_id : Text
  pub enabled : Bool
  pub root_target_mode : TargetMode
  pub root_upstream_id : Text
  pub root_forward_host : Text
  pub root_forward_port : Text
  pub root_scheme : HttpScheme
  pub locations : List LocationRow
  pub certificate_id : Text
  pub toggles : ToggleKey → Bool
  pub maintenance_allow : List Text
  pub advanced_config : Text

-- A failure, and the tab of the field at fault (`none`: outside the tabs).
pub record FormError : Type 0 where
  pub message : Text
  pub tab : Option DialogTab

-- What the API returns: an absent or null field is `none`.
pub record Location : Type 0 where
  pub id : ℕ
  pub path : Text
  pub target : Option LocationTarget
  pub upstream_id : Option ℕ
  pub forward_host : Option Text
  pub forward_port : Option ℕ
  pub forward_scheme : Option HttpScheme
  pub custom_page_id : Option ℕ
  pub error_code : Option ℕ

pub record Host : Type 0 where
  pub domain_names : List Text
  pub upstream_id : Option ℕ
  pub forward_host : Option Text
  pub forward_port : Option ℕ
  pub forward_scheme : Option HttpScheme
  pub certificate_id : Option ℕ
  pub access_list_id : Option ℕ
  pub enabled : Option Bool
  pub locations : Option (List Location)
  pub maintenance_allow : Option (List Text)
  pub advanced_config : Option Text
  pub toggle : ToggleKey → Option Bool
  pub crowdsec_appsec_enabled : Option Bool

-- A JavaScript number out of `parseInt`.
pub data JsNumber : Type 0 where
  nan : JsNumber
  int : ℤ → JsNumber

pub record LocationPayload : Type 0 where
  pub path : Text
  pub target : LocationTarget
  pub upstream_id : Option JsNumber
  pub forward_host : Option Text
  pub forward_port : Option ℕ
  pub forward_scheme : HttpScheme
  pub custom_page_id : Option JsNumber
  pub error_code : Option JsNumber

-- `ProxyHostCreate`
pub record HostPayload : Type 0 where
  pub domain_names : List Text
  pub upstream_id : Option JsNumber
  pub forward_host : Option Text
  pub forward_port : Option ℕ
  pub forward_scheme : HttpScheme
  pub certificate_id : Option JsNumber
  pub access_list_id : Option JsNumber
  pub enabled : Bool
  pub maintenance_allow : List Text
  pub advanced_config : Text
  pub toggles : ToggleKey → Bool
  pub locations : List LocationPayload
  pub crowdsec_appsec_enabled : Bool

-- `NO_ACCESS_LIST` and `NO_CERTIFICATE`
abbrev pub no_access_list : Text
no_access_list = text "none"

abbrev pub no_certificate : Text
no_certificate = text "none"

abbrev port_of : Option ℤ → Option ℕ
port_of none = none
port_of (some (negsuc n)) = none
port_of (some (pos n)) = if leb 1 n && leb n 65535 then some n else none

unfoldable pub parse_port : Text → Option ℕ
parse_port input = port_of (parse_int (trim input))

-- `value ?? fallback`
abbrev pub or_else {ℓ} : {A : Type ℓ} → Option A → A → A
or_else none fallback = fallback
or_else (some a) fallback = a
