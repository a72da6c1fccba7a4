-- ===== src/Settings/Tests.antt =====
-- Tests and examples for the settings forms.
use megoo_pm.Prelude.{◌≡◌, refl, ◌↔◌, true, false, none, some, []}
use megoo_pm.Text.{text, trim, trim_start, trim_end, is_space, starts_with}
use megoo_pm.Settings.{
  redirected, SiteForm, is_http_url, validate_settings_form, build_default_site_payload, LlmForm,
  LlmSettings,
}
use megoo_pm.Settings.DefaultSite.{IsSite, validate_settings_form_iff}
use megoo_pm.Settings.Keys.{IsStoredText}

abbrev elsewhere : SiteForm
elsewhere = record { mode = redirected; redirect_url = text " HTTPS://a.test"; page_id = some 3 }

accepted : validate_settings_form elsewhere ≡ none
unfolding validate_settings_form is_http_url text trim trim_start trim_end is_space starts_with
accepted = refl

validate_settings_form_iff_example :
    (validate_settings_form elsewhere ≡ none) ↔ IsSite (build_default_site_payload elsewhere)
validate_settings_form_iff_example = validate_settings_form_iff elsewhere

abbrev llm : LlmSettings
llm = record {
  llm_enabled = true;
  llm_model = some (text "gpt");
  llm_api_base = none;
  llm_api_key_set = true;
}

abbrev typed : LlmForm
typed = record {
  enabled = true;
  model = text "gpt";
  api_base = [];
  api_key = text " k1 ";
  key_is_set = true;
  key_cleared = false;
}

model_stored : IsStoredText llm.llm_model
unfolding trim trim_start trim_end is_space text
model_stored = (refl, refl)
