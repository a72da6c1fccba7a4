-- ===== src/Settings/Smtp/Tests.antt =====
-- Mail settings, with decimal digits as the only numbers.
use megoo_pm.Prelude.{◌≡◌, ◌↔◌, refl, true, false, [], Option, none, some}
use megoo_pm.Text.{trim, is_space, trim_start, text}
use megoo_pm.Number.{ℤ, parse_int, number_text}
use megoo_pm.Number.Decimal.{parse_int-number_text}
use megoo_pm.Settings.Keys.{key_after}
use megoo_pm.Settings.Smtp.{
  SmtpForm, SmtpSettings, SmtpPayload, smtp_state_from_settings, validate_smtp_form,
  build_smtp_payload,
}
use megoo_pm.Settings.Smtp.Delivery.{Stores, CanDeliver, build_smtp_payload-password}

abbrev as_read : Option ℤ → Option ℤ
as_read o = o

abbrev stored : SmtpSettings
stored = record {
  smtp_enabled = true;
  smtp_host = some (text "mail.example.com");
  smtp_port = some 465;
  smtp_security = none;
  smtp_username = none;
  smtp_password_set = true;
  smtp_from = some (text "a@b.c");
  smtp_from_name = none;
  app_url = none;
}

abbrev no_host : SmtpForm
no_host = record (smtp_state_from_settings stored) { host = text " "; password = text "x" }

unsent :
    (validate_smtp_form parse_int as_read no_host ≡ some (text "A host is required to send mail."))
    × (validate_smtp_form parse_int as_read (record no_host { enabled = false }) ≡ none)
    × (validate_smtp_form parse_int as_read (record no_host { port = text "0" })
        ≡ some (text "Port must be a whole number between 1 and 65535."))
unfolding validate_smtp_form parse_int trim_start smtp_state_from_settings number_text is_space trim
    text
unsent = (refl, refl, refl)

build_smtp_payload-password_example :
    let opened : SmtpPayload (Option ℤ) =
      build_smtp_payload parse_int as_read (smtp_state_from_settings stored) in
    Stores parse_int as_read stored opened
    × (key_after opened.smtp_password (some (text "old")) ≡ some (text "old"))
    × ((validate_smtp_form parse_int as_read (smtp_state_from_settings stored) ≡ none)
        ↔ CanDeliver parse_int as_read stored)
    × ((key_after (build_smtp_payload parse_int as_read no_host).smtp_password (some (text "old"))
          ≡ none)
        ↔ (no_host.password_cleared ≡ true) × (no_host.password ≡ []))
unfolding text trim is_space
build_smtp_payload-password_example =
    build_smtp_payload-password parse_int as_read parse_int-number_text stored no_host
      (some (text "old")) (text "old") ((refl, refl), tt, (refl, refl), tt, tt)
