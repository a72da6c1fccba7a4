-- ===== src/Security/Tests.antt =====
-- Tests and examples for the security dashboard.
use megoo_pm.Prelude.{
  ℕ, ◌+◌, ◌-◌, ◌*◌, ◌≤◌, ◌<◌, ◌≡◌, refl, Option, none, some, List, [], ◌∷◌, length, arith,
}
use megoo_pm.Text.{Text, text}
use megoo_pm.Number.{pos, number_text}
use megoo_pm.Security.{
  Alert, parse_timestamp, format_relative_time, empty_buckets, count_in, from_now, add_alert,
  add_alerts, build_timeline, page_count, clamp_page, range_start, range_end, range_label,
}
use megoo_pm.Security.Timeline.{count_at, tally, build_timeline-count}
use megoo_pm.Security.Pages.{pages-cover}

-- Dates written as so many strokes of 1000 milliseconds
abbrev strokes : Text → Option ℕ
strokes s = some (1000 * length s)

abbrev alerts : List Alert
alerts =
    record { start_at = some (text "|||||||||"); created_at = none }
    ∷ record { start_at = none; created_at = some (text "||||||||||||") }
    ∷ record { start_at = some (text "|||||"); created_at = none }
    ∷ record { start_at = some (text "|"); created_at = none }
    ∷ record { start_at = none; created_at = none }
    ∷ []

timeline :
    build_timeline strokes alerts 10000 2000 3
    ≡ record { start_ms = pos 4000; count = 1 }
      ∷ record { start_ms = pos 6000; count = 0 }
      ∷ record { start_ms = pos 8000; count = 2 }
      ∷ []
unfolding build_timeline add_alerts add_alert empty_buckets count_in from_now parse_timestamp text
timeline = refl

-- An alert at the very start of a bucket counts in the one before.
at_the_start :
    build_timeline strokes
      (record { start_at = some (text "||||||||"); created_at = none } ∷ [])
      10000
      2000
      2
    ≡ record { start_ms = pos 6000; count = 1 } ∷ record { start_ms = pos 8000; count = 0 } ∷ []
unfolding build_timeline add_alerts add_alert empty_buckets count_in from_now parse_timestamp text
at_the_start = refl

minutes_ago : format_relative_time strokes (some (text "|")) 181000 ≡ text "3m ago"
unfolding format_relative_time parse_timestamp number_text text
minutes_ago = refl

build_timeline-count_example :
    (count_at (3 - 1 - 0) (build_timeline strokes alerts 10000 2000 3)
      ≡ tally strokes 10000 2000 3 0 alerts)
    × (length (build_timeline strokes alerts 10000 2000 3) ≡ 3)
build_timeline-count_example =
    build_timeline-count strokes 10000 2000 3 alerts 0 (omega arith) (omega arith)

label : range_label 5 50 213 ≡ text "201–213 of 213"
unfolding range_label number_text text
label = refl

stale_page : clamp_page (pos 9) 213 50 ≡ 5
unfolding clamp_page page_count
stale_page = refl

third_exists : 3 ≤ page_count 213 50
unfolding page_count
third_exists = omega arith

pages-cover_example :
    (range_start 3 50 ≤ range_end 3 50 213)
    × (range_end 3 50 213 ≤ 213)
    × (range_start 1 50 ≡ 1)
    × (3 < page_count 213 50 → range_start (3 + 1) 50 ≡ range_end 3 50 213 + 1)
    × (range_end (page_count 213 50) 50 213 ≡ 213)
pages-cover_example = pages-cover 3 213 50 (omega arith) (omega arith) (omega arith) third_exists
