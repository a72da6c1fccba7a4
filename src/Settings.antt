-- ===== src/Settings.antt =====
-- frontend/src/components/settings/lib.ts: the forms of the default site, the LLM integration and, in
-- Smtp, mail delivery.
pub mod DefaultSite
pub mod Keys
pub mod Smtp
mod Tests
use megoo_pm.Prelude.{
  ℕ, ◌+◌, Bool, true, false, not, ◌&&◌, ◌||◌, Option, none, some, [], map, leb, if◌then◌else◌,
}
use megoo_pm.Text.{Text, text, is_empty, trim, starts_with}

pub data SiteMode : Type 0 where
  congratulations not_found no_response redirected custom : SiteMode

pub record SiteForm : Type 0 where
  pub mode : SiteMode
  pub redirect_url : Text
  pub page_id : Option ℕ

-- What the API returns of the settings; an absent or null field is `none`.
pub record SiteSettings : Type 0 where
  pub default_site_mode : SiteMode
  pub default_site_redirect_url : Option Text
  pub default_site_page_id : Option ℕ

abbrev pub default_site_mode_label : SiteMode → Text
default_site_mode_label congratulations = text "Congratulations page"
default_site_mode_label not_found = text "404 page"
default_site_mode_label no_response = text "No response (444)"
default_site_mode_label redirected = text "Redirect"
default_site_mode_label custom = text "Custom page"

abbrev pub empty_site_state : SiteForm
empty_site_state = record { mode = not_found; redirect_url = []; page_id = none }

abbrev pub text_or_blank : Option Text → Text
text_or_blank none = []
text_or_blank (some s) = s

unfoldable pub state_from_settings : SiteSettings → SiteForm
state_from_settings s = record {
  mode = s.default_site_mode;
  redirect_url = text_or_blank s.default_site_redirect_url;
  page_id = s.default_site_page_id;
}

abbrev pub is_redirect : SiteMode → Bool
is_redirect redirected = true
is_redirect _ = false

abbrev pub is_custom : SiteMode → Bool
is_custom custom = true
is_custom _ = false

abbrev is_missing : Option ℕ → Bool
is_missing none = true
is_missing (some n) = false

-- A letter without its case, for `/i` on the letters of the pattern
abbrev folded : ℕ → ℕ
folded c = if leb b'A' c && leb c b'Z' then c + 32 else c

-- `/^https?:\/\//i.test(url)`
unfoldable pub is_http_url : Text → Bool
is_http_url url =
    let low = map folded url in
    starts_with low (text "http://") || starts_with low (text "https://")

abbrev pub url_problem : Text → Option Text
url_problem url =
    if is_empty url
    then some (text "Enter the URL to redirect to.")
    else if not (is_http_url url)
    then some (text "The URL must start with http:// or https://.")
    else none

abbrev pub page_problem : SiteForm → Option Text
page_problem state =
    if is_custom state.mode && is_missing state.page_id
    then some (text "Choose a custom page to serve.")
    else none

abbrev or_problem : Option Text → Option Text → Option Text
or_problem none later = later
or_problem (some p) later = some p

unfoldable pub validate_settings_form : SiteForm → Option Text
validate_settings_form state =
    or_problem (if is_redirect state.mode then url_problem (trim state.redirect_url) else none)
      (page_problem state)

unfoldable pub build_default_site_payload : SiteForm → SiteSettings
build_default_site_payload state = record {
  default_site_mode = state.mode;
  default_site_redirect_url =
      if is_redirect state.mode then some (trim state.redirect_url) else none;
  default_site_page_id = if is_custom state.mode then state.page_id else none;
}

-- The LLM integration. `key_cleared` is false where it is absent.
pub record LlmForm : Type 0 where
  pub enabled : Bool
  pub model : Text
  pub api_base : Text
  pub api_key : Text
  pub key_is_set : Bool
  pub key_cleared : Bool

pub record LlmSettings : Type 0 where
  pub llm_enabled : Bool
  pub llm_model : Option Text
  pub llm_api_base : Option Text
  pub llm_api_key_set : Bool

-- A field that is omitted, sent as null, or sent with a text.
pub data Secret : Type 0 where
  omitted : Secret
  cleared : Secret
  replaced : Text → Secret

pub record LlmPayload : Type 0 where
  pub llm_enabled : Bool
  pub llm_model : Option Text
  pub llm_api_base : Option Text
  pub llm_api_key : Secret

-- The fields that are present
pub record LlmTest : Type 0 where
  pub model : Option Text
  pub api_base : Option Text
  pub api_key : Option Text

abbrev pub empty_llm_state : LlmForm
empty_llm_state = record {
  enabled = false;
  model = [];
  api_base = [];
  api_key = [];
  key_is_set = false;
  key_cleared = false;
}

unfoldable pub llm_state_from_settings : LlmSettings → LlmForm
llm_state_from_settings s = record {
  enabled = s.llm_enabled;
  model = text_or_blank s.llm_model;
  api_base = text_or_blank s.llm_api_base;
  api_key = [];
  key_is_set = s.llm_api_key_set;
  key_cleared = false;
}

unfoldable pub validate_llm_form : LlmForm → Option Text
validate_llm_form state =
    if not state.enabled
    then none
    else if is_empty (trim state.model)
    then some (text "Enter a model to enable LLM features.")
    else none

-- `s || null`
abbrev pub or_null : Text → Option Text
or_null s = if is_empty s then none else some s

unfoldable pub build_llm_payload : LlmForm → LlmPayload
build_llm_payload state = record {
  llm_enabled = state.enabled;
  llm_model = or_null (trim state.model);
  llm_api_base = or_null (trim state.api_base);
  llm_api_key =
      if not (is_empty (trim state.api_key))
      then replaced (trim state.api_key)
      else if state.key_cleared
      then cleared
      else omitted;
}

unfoldable pub build_llm_test_payload : LlmForm → LlmTest
build_llm_test_payload state = record {
  model = or_null (trim state.model);
  api_base = or_null (trim state.api_base);
  api_key = or_null (trim state.api_key);
}
