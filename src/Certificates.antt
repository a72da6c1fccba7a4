-- ===== src/Certificates.antt =====
-- frontend/src/components/certificates/lib.ts: how close a certificate is to its expiry. Times are
-- milliseconds since 1970; the request form and the dates as texts are left out.
pub mod Levels
mod Tests
use megoo_pm.Prelude.{
  ℕ, ◌+◌, ◌-◌, ◌*◌, ◌/◌, Bool, true, false, not, Option, none, some, [], ◌++◌, ltb, leb, ◌==◌,
  if◌then◌else◌,
}
use megoo_pm.Text.{Text, text, is_empty}
use megoo_pm.Number.{ℤ, pos, negsuc, number_text}

pub data ExpiryLevel : Type 0 where
  unknown_expiry fine near_expiry expired : ExpiryLevel

pub record ExpiryInfo : Type 0 where
  pub level : ExpiryLevel
  pub days_until : Option ℤ
  pub label : Text

abbrev pub expiry_warning_days : ℕ
expiry_warning_days = 30

abbrev pub ms_per_day : ℕ
ms_per_day = 24 * 60 * 60 * 1000

abbrev pub no_expiry : ExpiryInfo
no_expiry = record { level = unknown_expiry; days_until = none; label = text "—" }

-- `Math.floor((expiry - now) / MS_PER_DAY)`
unfoldable pub days_between : (now expiry : ℕ) → ℤ
days_between now expiry =
    if leb now expiry
    then pos ((expiry - now) / ms_per_day)
    else negsuc ((now - expiry - 1) / ms_per_day)

abbrev plural : ℕ → Text
plural n = if n == 1 then [] else text "s"

unfoldable pub info_of_days : ℤ → ExpiryInfo
info_of_days (negsuc n) = record {
  level = expired;
  days_until = some (negsuc n);
  label = text "Expired";
}
info_of_days (pos n) =
    if n == 0
    then record { level = near_expiry; days_until = some (pos n); label = text "Expires today" }
    else record {
      level = if leb n expiry_warning_days then near_expiry else fine;
      days_until = some (pos n);
      label = text "in " ++ number_text n ++ text " day" ++ plural n;
    }

abbrev pub info_at : ℕ → Option ℕ → ExpiryInfo
info_at now none = no_expiry
info_at now (some expiry) = info_of_days (days_between now expiry)

-- `date_parse`: the time of `new Date(s)`, `none` for `NaN`
unfoldable pub expiry_info : (Text → Option ℕ) → Option Text → ℕ → ExpiryInfo
expiry_info date_parse none now = no_expiry
expiry_info date_parse (some s) now = if is_empty s then no_expiry else info_at now (date_parse s)
