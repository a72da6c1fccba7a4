-- ===== src/LiveLogs.antt =====
-- frontend/src/components/live-logs/lib.ts: the lines of the live logs page and their filters.
-- frontend/src/components/live-logs/use-live-logs.ts is in the child `Socket`.
pub mod Socket
pub mod Buffers
pub mod Retries
pub mod Pausing
pub mod Recovery
mod Tests
use megoo_pm.Prelude.{
  ℕ, ◌-◌, ◌/◌, ◌^◌, Bool, true, false, not, ◌&&◌, ◌||◌, Option, none, some, List, [], ◌∷◌, ◌++◌,
  length, drop, any, ltb, leb, if◌then◌else◌,
}
use megoo_pm.Text.{Text, text, same, is_empty, trim, includes}
use megoo_pm.Number.{ℤ, pos, negsuc, parse_int, number_text}

-- `unknown`: a kind that the page has no tab for
pub data LogKind : Type 0 where
  request error security stream decision unknown : LogKind

pub data Tab : Type 0 where
  requests errors security_events streams : Tab

pub record LiveLine : Type 0 where
  pub id : ℕ
  pub at : ℕ
  pub node : Text
  pub host : Text
  pub log : LogKind
  pub sev : ℕ
  pub f : Option (List (Text × Text))
  pub raw : Option Text
  pub truncated : Bool
  pub cc : Option Text

-- `TAB_OF[log]`
abbrev pub tab_of : LogKind → Option Tab
tab_of request = some requests
tab_of error = some errors
tab_of security = some security_events
tab_of decision = some security_events
tab_of stream = some streams
tab_of unknown = none

abbrev pub line_cap : ℕ
line_cap = 1000

unfoldable pub append_capped : List LiveLine → List LiveLine → ℕ → List LiveLine
append_capped lines next cap =
    let whole = lines ++ next in
    if ltb cap (length whole) then drop (length whole - cap) whole else whole

abbrev class_of : Option ℤ → Option Text
class_of none = none
class_of (some (negsuc n)) = none
class_of (some (pos n)) =
    if ltb n 100 || ltb 599 n then none else some (number_text (n / 100) ++ text "xx")

-- of a text; `line.f?.st` is one or undefined, and then parses as the empty text
unfoldable pub status_class : Option Text → Option Text
status_class none = class_of (parse_int [])
status_class (some st) = class_of (parse_int st)

-- `fields.name`
unfoldable pub field : Text → Option (List (Text × Text)) → Option Text
field name none = none
field name (some []) = none
field name (some ((k, v) ∷ fs)) = if same k name then some v else field name (some fs)

pub record LineFilter : Type 0 where
  pub node : Text
  pub status : Text
  pub search : Text

abbrev is_class : Option Text → Text → Bool
is_class none wanted = false
is_class (some c) wanted = same c wanted

module _ (lower : Text → Text) where
  abbrev pub contains : Text → Option Text → Bool
  contains needle none = false
  contains needle (some part) = includes (lower part) needle

  unfoldable pub matches : LiveLine → LineFilter → Bool
  matches line filter =
      let needle = lower (trim filter.search) in
      let haystack =
        field (text "u") line.f
        ∷ field (text "ip") line.f
        ∷ field (text "ua") line.f
        ∷ line.raw
        ∷ [] in
      if not (is_empty filter.node) && not (same line.node filter.node)
      then false
      else if not (is_empty filter.status)
          && not (is_class (status_class (field (text "st") line.f)) filter.status)
      then false
      else if not (is_empty needle)
      then any (contains needle) haystack
      else true
