-- ===== src/Settings/Keys.antt =====
-- What a save does to the stored API key, which the form never sees.
use megoo_pm.Prelude.{
  ◌≡◌, refl, inl, inr, true, false, Bool-cases, Option, none, some, if◌then◌else◌,
}
use megoo_pm.Text.{Text, is_empty, trim}
use megoo_pm.Text.Trim.{IsTrimmed}
use megoo_pm.Settings.{
  LlmForm, LlmSettings, Secret, omitted, cleared, replaced, LlmPayload, text_or_blank,
  llm_state_from_settings, or_null, build_llm_payload,
}

-- The stored key after a save: kept where the field is omitted, removed where it is null.
abbrev pub key_after : Secret → Option Text → Option Text
key_after omitted key = key
key_after cleared key = none
key_after (replaced k) key = some k

-- A stored text: none, or one with no space around it that is not empty.
abbrev pub IsStoredText : Option Text → Type 0
IsStoredText none = Unit
IsStoredText (some s) = IsTrimmed s × (is_empty s ≡ false)

pub or_null-text_or_blank :
    (o : Option Text) → IsStoredText o → or_null (trim (text_or_blank o)) ≡ o
unfolding trim
or_null-text_or_blank none h = refl
or_null-text_or_blank (some s) (t, e) = rw (t, e) refl

abbrev untouched : LlmSettings → LlmPayload
untouched s = record {
  llm_enabled = s.llm_enabled;
  llm_model = s.llm_model;
  llm_api_base = s.llm_api_base;
  llm_api_key = omitted;
}

-- Saving the form as it opens sends what is stored, and keeps the stored key. A key that is typed
-- replaces it, trimmed; and it is removed only by a form that says so and has none typed.
pub build_llm_payload-key :
    (s : LlmSettings) (state : LlmForm) (key : Option Text)
    → IsStoredText s.llm_model
    → IsStoredText s.llm_api_base
    → (build_llm_payload (llm_state_from_settings s) ≡ untouched s)
      × (is_empty (trim state.api_key) ≡ false
          → key_after (build_llm_payload state).llm_api_key key ≡ some (trim state.api_key))
      × (is_empty (trim state.api_key) ≡ true
          → key_after (build_llm_payload state).llm_api_key key
            ≡ (if state.key_cleared then none else key))
unfolding build_llm_payload llm_state_from_settings
build_llm_payload-key s state key m b = (
  rw (or_null-text_or_blank s.llm_model m, or_null-text_or_blank s.llm_api_base b)
      (unfold trim in refl),
  λ typed. rw typed refl,
  λ blank. elim (Bool-cases state.key_cleared) [
    | inl c ↦ rw (blank, c) refl
    | inr c ↦ rw (blank, c) refl
  ],
)
