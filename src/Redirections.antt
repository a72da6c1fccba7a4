-- ===== src/Redirections.antt =====
-- frontend/src/components/redirection-hosts/redirection-host-dialog.tsx: the dialog of a redirection
-- host, its checks and the payload of a save.
mod Saving
use megoo_pm.Prelude.{ℕ, Bool, true, false, Option, none, some, List, [], ◌∷◌, if◌then◌else◌}
use megoo_pm.Text.{Text, text, is_empty, trim}
use megoo_pm.Number.{ℤ}
use megoo_pm.Streams.Dialog.{certificate_id_from_value, value_from_certificate_id}

pub data Scheme : Type 0 where
  auto http https : Scheme

pub data DialogTab : Type 0 where
  details ssl : DialogTab

pub record Toggles : Type 0 where
  pub ssl_forced : Bool
  pub http2_support : Bool
  pub hsts_enabled : Bool
  pub hsts_subdomains : Bool
  pub block_exploits : Bool
  pub crowdsec_enabled : Bool

-- The stored host
pub record Host : Type 0 where
  pub domain_names : List Text
  pub forward_domain_name : Text
  pub forward_scheme : Scheme
  pub forward_http_code : ℕ
  pub preserve_path : Bool
  pub certificate_id : Option ℕ
  pub enabled : Bool
  pub advanced_config : Option Text
  pub toggles : Toggles

pub record Form : Type 0 where
  pub domains : List Text
  pub forward_domain_name : Text
  pub forward_scheme : Scheme
  pub forward_http_code : ℕ
  pub preserve_path : Bool
  pub certificate_id : Text
  pub enabled : Bool
  pub toggles : Toggles

pub record Payload : Type 0 where
  pub domain_names : List Text
  pub forward_domain_name : Text
  pub forward_scheme : Scheme
  pub forward_http_code : ℕ
  pub preserve_path : Bool
  pub certificate_id : Option (Option ℤ)
  pub enabled : Bool
  pub advanced_config : Text
  pub toggles : Toggles

abbrev pub empty_toggles : Toggles
empty_toggles = record {
  ssl_forced = false;
  http2_support = false;
  hsts_enabled = false;
  hsts_subdomains = false;
  block_exploits = false;
  crowdsec_enabled = true;
}

unfoldable pub state_from_host : Option Host → Form
state_from_host none = record {
  domains = [];
  forward_domain_name = [];
  forward_scheme = auto;
  forward_http_code = 302;
  preserve_path = true;
  certificate_id = value_from_certificate_id none;
  enabled = true;
  toggles = empty_toggles;
}
state_from_host (some h) = record {
  domains = h.domain_names;
  forward_domain_name = h.forward_domain_name;
  forward_scheme = h.forward_scheme;
  forward_http_code = h.forward_http_code;
  preserve_path = h.preserve_path;
  certificate_id = value_from_certificate_id h.certificate_id;
  enabled = h.enabled;
  toggles = h.toggles;
}

-- A problem, with the tab that it opens.
pub data Submitted : Type 0 where
  failed : Text → DialogTab → Submitted
  sent : Payload → Submitted

abbrev advanced_of : Option Text → Text
advanced_of none = []
advanced_of (some s) = s

abbrev pub stored_config : Option Host → Text
stored_config none = []
stored_config (some h) = advanced_of h.advanced_config

abbrev is_none : List Text → Bool
is_none [] = true
is_none (t ∷ ts) = false

-- `domains_invalid` is the mark of the domain field.
unfoldable pub handle_submit : Bool → Option Host → Form → Submitted
handle_submit domains_invalid host form =
    if domains_invalid
    then failed (text "Fix the highlighted domain first.") details
    else if is_none form.domains
    then failed (text "Enter at least one domain name.") details
    else if is_empty (trim form.forward_domain_name)
    then failed (text "Enter a forward domain to redirect to.") details
    else sent (record {
      domain_names = form.domains;
      forward_domain_name = trim form.forward_domain_name;
      forward_scheme = form.forward_scheme;
      forward_http_code = form.forward_http_code;
      preserve_path = form.preserve_path;
      certificate_id = certificate_id_from_value form.certificate_id;
      enabled = form.enabled;
      advanced_config = stored_config host;
      toggles = form.toggles;
    })
