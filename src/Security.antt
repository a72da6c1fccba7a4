-- ===== src/Security.antt =====
-- frontend/src/components/security/lib.ts: the timeline, the relative times and the pages of the
-- security dashboard. Times are milliseconds since 1970.
pub mod Timeline
pub mod Pages
pub mod Offenders
mod Tests
use megoo_pm.Prelude.{
  ℕ, zero, suc, ◌+◌, ◌-◌, ◌*◌, ◌/◌, max, min, Bool, true, false, Option, none, some, List, [], ◌∷◌,
  ◌++◌, ltb, leb, ◌==◌, if◌then◌else◌,
}
use megoo_pm.Text.{Text, text, is_empty}
use megoo_pm.Number.{ℤ, pos, negsuc, number_text}

-- `a - b`
abbrev pub minus : ℕ → ℕ → ℤ
minus a b = if leb b a then pos (a - b) else negsuc (b - a - 1)

pub record Alert : Type 0 where
  pub start_at : Option Text
  pub created_at : Option Text

pub record TimeBucket : Type 0 where
  pub start_ms : ℤ
  pub count : ℕ

-- `alert.start_at ?? alert.created_at`
abbrev pub started : Alert → Option Text
started a = or_created a.start_at a.created_at
  where
    or_created : Option Text → Option Text → Option Text
    or_created none c = c
    or_created (some s) c = some s

-- `result[index].count += 1`
unfoldable pub count_in : ℕ → List TimeBucket → List TimeBucket
count_in index [] = []
count_in zero (b ∷ bs) = record b { count = b.count + 1 } ∷ bs
count_in (suc index) (b ∷ bs) = b ∷ count_in index bs

-- `Array.from({ length: buckets }, …)`: `older` buckets and the `left` newest ones after them.
unfoldable pub empty_buckets : (now_ms bucket_ms left : ℕ) → List TimeBucket
empty_buckets now_ms bucket_ms zero = []
empty_buckets now_ms bucket_ms (suc left) =
    record { start_ms = minus now_ms (suc left * bucket_ms); count = 0 }
    ∷ empty_buckets now_ms bucket_ms left

-- The quotient of a future alert is negative, and then 0 is taken.
unfoldable pub from_now : (now_ms bucket_ms t : ℕ) → ℕ
from_now now_ms bucket_ms t = if ltb now_ms t then 0 else (now_ms - t) / bucket_ms

-- `date_parse`: `Date.parse`, `none` for `NaN`
module _ (date_parse : Text → Option ℕ) where
  unfoldable pub parse_timestamp : Option Text → Option ℕ
  parse_timestamp none = none
  parse_timestamp (some iso) = if is_empty iso then none else date_parse iso

  abbrev relative : ℕ → ℕ → Text
  relative now_ms t =
      let minutes = (now_ms - t) / 60000 in
      let hours = minutes / 60 in
      if ltb now_ms (t + 60000)
      then text "just now"
      else if ltb minutes 60
      then number_text minutes ++ text "m ago"
      else if ltb hours 24
      then number_text hours ++ text "h ago"
      else number_text (hours / 24) ++ text "d ago"

  unfoldable pub format_relative_time : Option Text → ℕ → Text
  format_relative_time iso now_ms = shown (parse_timestamp iso)
    where
      shown : Option ℕ → Text
      shown none = text "—"
      shown (some t) = relative now_ms t

  unfoldable pub add_alert :
      (now_ms bucket_ms buckets : ℕ) → Option ℕ → List TimeBucket → List TimeBucket
  add_alert now_ms bucket_ms buckets none result = result
  add_alert now_ms bucket_ms buckets (some t) result =
      let ago = from_now now_ms bucket_ms t in
      if leb buckets ago then result else count_in (buckets - 1 - ago) result

  unfoldable pub add_alerts :
      (now_ms bucket_ms buckets : ℕ) → List Alert → List TimeBucket → List TimeBucket
  add_alerts now_ms bucket_ms buckets [] result = result
  add_alerts now_ms bucket_ms buckets (a ∷ alerts) result =
      add_alerts now_ms bucket_ms buckets alerts
        (add_alert now_ms bucket_ms buckets (parse_timestamp (started a)) result)

  unfoldable pub build_timeline : List Alert → (now_ms bucket_ms buckets : ℕ) → List TimeBucket
  unfolding add_alerts empty_buckets
  build_timeline alerts now_ms bucket_ms buckets =
      add_alerts now_ms bucket_ms buckets alerts (empty_buckets now_ms bucket_ms buckets)

unfoldable pub page_count : (total page_size : ℕ) → ℕ
page_count total page_size =
    if leb page_size 0 then 1 else max 1 ((total + page_size - 1) / page_size)

-- Of a whole page number, and then `Math.floor` changes nothing.
unfoldable pub clamp_page : ℤ → (total page_size : ℕ) → ℕ
clamp_page (negsuc n) total page_size = 1
clamp_page (pos page) total page_size =
    if ltb page 1 then 1 else min page (page_count total page_size)

-- The first and last row of a page, from 1.
abbrev pub range_start : (page page_size : ℕ) → ℕ
range_start page page_size = (page - 1) * page_size + 1

abbrev pub range_end : (page page_size total : ℕ) → ℕ
range_end page page_size total = min (page * page_size) total

-- Of a page from 1, which `clamp_page` gives.
unfoldable pub range_label : (page page_size total : ℕ) → Text
range_label page page_size total =
    if leb total 0
    then text "0 of 0"
    else number_text (range_start page page_size)
      ++ text "–"
      ++ number_text (range_end page page_size total)
      ++ text " of "
      ++ number_text total
