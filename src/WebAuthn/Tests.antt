-- ===== src/WebAuthn/Tests.antt =====
-- Failures with and without a cause.
use megoo_pm.Prelude.{◌≡◌, refl}
use megoo_pm.Text.{same, Text, text}
use megoo_pm.Json.{get, Json, null, str, obj, end, entry}
use megoo_pm.WebAuthn.{cancelled, origin, unsupported, other, classify_web_authn_error}

abbrev no_text : Json → Text
no_text v = text "[object Object]"

abbrev named : Text → Json
named s = obj (entry (text "name") (str s) end)

classified :
    (classify_web_authn_error no_text (
        obj (
          entry
            (text "name")
            (str (text "WebAuthnError"))
            (entry (text "cause") (named (text "NotAllowedError")) end)))
      ≡ cancelled)
    × (classify_web_authn_error no_text
          (obj (entry (text "code") (str (text "ERROR_INVALID_RP_ID")) end))
        ≡ origin)
    × (classify_web_authn_error no_text (named (text "NotSupportedError")) ≡ unsupported)
    × (classify_web_authn_error no_text null ≡ other)
unfolding classify_web_authn_error text get same
classified = (refl, refl, refl, refl)
