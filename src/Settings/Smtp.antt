-- ===== src/Settings/Smtp.antt =====
-- frontend/src/components/settings/lib.ts: the mail delivery form. `Number`, which reads more than
-- decimal digits, is a parameter, with the integer that a number is where it is one.
pub mod Delivery
mod Tests
use megoo_pm.Prelude.{ℕ, Bool, true, false, ◌||◌, not, Option, none, some, [], ltb, if◌then◌else◌}
use megoo_pm.Text.{Text, text, is_empty, trim}
use megoo_pm.Number.{ℤ, pos, negsuc, number_text}
use megoo_pm.Settings.{Secret, omitted, cleared, replaced, text_or_blank, or_null}

pub record SmtpForm : Type 0 where
  pub enabled : Bool
  pub host : Text
  pub port : Text
  pub security : Text
  pub password : Text
  pub password_is_set : Bool
  pub password_cleared : Bool
  pub username : Text
  pub sender : Text
  pub sender_name : Text
  pub app_url : Text

pub record SmtpSettings : Type 0 where
  pub smtp_enabled : Bool
  pub smtp_host : Option Text
  pub smtp_port : Option ℕ
  pub smtp_security : Option Text
  pub smtp_username : Option Text
  pub smtp_password_set : Bool
  pub smtp_from : Option Text
  pub smtp_from_name : Option Text
  pub app_url : Option Text

abbrev pub given_port : Option ℕ → ℕ
given_port none = 587
given_port (some n) = n

abbrev pub given_security : Option Text → Text
given_security none = text "starttls"
given_security (some s) = s

unfoldable pub smtp_state_from_settings : SmtpSettings → SmtpForm
smtp_state_from_settings s = record {
  enabled = s.smtp_enabled;
  host = text_or_blank s.smtp_host;
  port = number_text (given_port s.smtp_port);
  security = given_security s.smtp_security;
  password = [];
  password_is_set = s.smtp_password_set;
  password_cleared = false;
  username = text_or_blank s.smtp_username;
  sender = text_or_blank s.smtp_from;
  sender_name = text_or_blank s.smtp_from_name;
  app_url = text_or_blank s.app_url;
}

pub record SmtpPayload (N : Type 0) : Type 0 where
  pub smtp_enabled : Bool
  pub smtp_host : Option Text
  pub smtp_port : N
  pub smtp_security : Text
  pub smtp_username : Option Text
  pub smtp_from : Option Text
  pub smtp_from_name : Option Text
  pub app_url : Option Text
  pub smtp_password : Secret

module _ {N : Type 0} (to_number : Text → N) (integer_of : N → Option ℤ) where
  -- `!Number.isInteger(port) || port < 1 || port > 65535`
  abbrev pub is_bad_port : Option ℤ → Bool
  is_bad_port none = true
  is_bad_port (some (pos n)) = ltb n 1 || ltb 65535 n
  is_bad_port (some (negsuc n)) = true

  unfoldable pub validate_smtp_form : SmtpForm → Option Text
  validate_smtp_form state =
      if is_bad_port (integer_of (to_number state.port))
      then some (text "Port must be a whole number between 1 and 65535.")
      else if not state.enabled
      then none
      else if is_empty (trim state.host)
      then some (text "A host is required to send mail.")
      else if is_empty (trim state.sender)
      then some (text "A from address is required to send mail.")
      else none

  unfoldable pub build_smtp_payload : SmtpForm → SmtpPayload N
  build_smtp_payload state = record {
    smtp_enabled = state.enabled;
    smtp_host = or_null (trim state.host);
    smtp_port = to_number state.port;
    smtp_security = state.security;
    smtp_username = or_null (trim state.username);
    smtp_from = or_null (trim state.sender);
    smtp_from_name = or_null (trim state.sender_name);
    app_url = or_null (trim state.app_url);
    smtp_password =
        if not (is_empty state.password)
        then replaced state.password
        else if state.password_cleared
        then cleared
        else omitted;
  }
