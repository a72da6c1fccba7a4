-- ===== src/WebAuthn.antt =====
-- frontend/src/lib/auth/webauthn.ts: what a failed passkey ceremony means. `String` of a value that
-- is no text is a parameter.
mod Tests
use megoo_pm.Prelude.{Bool, true, false, ◌||◌, Option, none, some, List, [], ◌∷◌, if◌then◌else◌}
use megoo_pm.Text.{Text, text, same}
use megoo_pm.Json.{Json, null, str, obj, arr, get}

pub data Failure : Type 0 where
  cancelled : Failure
  origin : Failure
  unsupported : Failure
  other : Failure

abbrev pub origin_mismatch_message : Text
origin_mismatch_message =
    text
      "This page's address does not match the app URL in Settings, so passkeys cannot be used here."

-- `value === s`
abbrev is_text : Text → Option Json → Bool
is_text s (some (str t)) = same t s
is_text s v = false

abbrev is_named : Text → Option Text → Bool
is_named s none = false
is_named s (some t) = same t s

module _ (string : Json → Text) where
  abbrev stringified : Option Json → Option Text
  stringified none = none
  stringified (some (str s)) = some s
  stringified (some v) = some (string v)

  abbrev first_name : Option Text → Option Text → Option Text
  first_name none own = own
  first_name (some n) own = some n

  -- The name of a cause, where it is an object with one
  abbrev cause_name : Option Json → Option Text
  cause_name none = none
  cause_name (some cause) = stringified (get (text "name") cause)

  unfoldable pub name_of : Json → Option Text
  name_of err =
      first_name (cause_name (get (text "cause") err)) (stringified (get (text "name") err))

  unfoldable pub classify_web_authn_error : Json → Failure
  unfolding name_of
  classify_web_authn_error err =
      let code = get (text "code") err in
      let name = name_of err in
      if is_text (text "ERROR_CEREMONY_ABORTED") code
        || (is_named (text "NotAllowedError") name || is_named (text "AbortError") name)
      then cancelled
      else if is_text (text "ERROR_INVALID_DOMAIN") code
          || (is_text (text "ERROR_INVALID_RP_ID") code || is_named (text "SecurityError") name)
      then origin
      else if is_named (text "NotSupportedError") name
      then unsupported
      else other
