-- ===== src/Security/Offenders/Tests.antt =====
-- Three alerts of two sources.
use megoo_pm.Prelude.{◌≤◌, ◌≡◌, refl, Bool, false, none, some, List, [], ◌∷◌, length, All}
use megoo_pm.Text.{same, Text, text}
use megoo_pm.Number.{pos, negsuc}
use megoo_pm.Security.Offenders.{add_country, country_for, add_total, SourceAlert, top_offenders}
use megoo_pm.Security.Offenders.Counting.{events_of}
use megoo_pm.Security.Offenders.Ranking.{Ranked, top_offenders-Ranked}

abbrev in_order : Text → Text → Bool
in_order s t = false

abbrev seen : List SourceAlert
seen =
    record {
      source = some (record { value = none; ip = some (text "10.0.0.1"); cn = none });
      events_count = some (pos 2);
    }
    ∷ record {
      source = some (record { value = some (text "10.0.0.2"); ip = none; cn = some (text "FR") });
      events_count = some (pos 5);
    }
    ∷ record { source = none; events_count = some (pos 9) }
    ∷ record {
      source = some (record { value = some (text "10.0.0.1"); ip = none; cn = some (text "DE") });
      events_count = some (negsuc 3);
    }
    ∷ []

ranking :
    top_offenders in_order seen 5
    ≡ record { key = text "10.0.0.2"; count = 5; country = some (text "FR") }
      ∷ record { key = text "10.0.0.1"; count = 3; country = some (text "DE") }
      ∷ []
unfolding top_offenders text add_total same country_for add_country
ranking = refl

top_offenders-Ranked_example :
    (length (top_offenders in_order seen 1) ≤ 1)
    × Ranked (top_offenders in_order seen 1)
    × All (λ o. o.count ≡ events_of o.key seen) (top_offenders in_order seen 1)
top_offenders-Ranked_example = top_offenders-Ranked in_order seen 1
