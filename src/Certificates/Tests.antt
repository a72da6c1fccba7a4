-- ===== src/Certificates/Tests.antt =====
-- Tests and examples for the expiry of certificates.
use megoo_pm.Prelude.{ℕ, ◌*◌, ◌≡◌, refl, Option, some, length}
use megoo_pm.Text.{Text, text}
use megoo_pm.Number.{pos, negsuc, number_text}
use megoo_pm.Certificates.{near_expiry, expired, days_between, info_of_days, expiry_info}

-- Dates written as so many strokes, of a day each
abbrev strokes : Text → Option ℕ
strokes s = some (86400000 * length s)

two_days :
    expiry_info strokes (some (text "|||")) 86400000
    ≡ record { level = near_expiry; days_until = some (pos 2); label = text "in 2 days" }
unfolding expiry_info info_of_days days_between number_text text
two_days = refl

just_over :
    expiry_info strokes (some (text "|")) 86400001
    ≡ record { level = expired; days_until = some (negsuc 0); label = text "Expired" }
unfolding expiry_info info_of_days days_between text
just_over = refl
