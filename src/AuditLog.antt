-- ===== src/AuditLog.antt =====
-- frontend/src/components/audit-log/lib.ts: a row of the audit log in words. `upper` is toUpperCase.
pub mod Line
mod Tests
use megoo_pm.Prelude.{
  ℕ, ◌-◌, Bool, true, false, ◌||◌, Option, none, some, List, [], ◌∷◌, ◌++◌, map, length, take, ltb,
  ◌==◌, if◌then◌else◌,
}
use megoo_pm.Text.{Text, text, same}
use megoo_pm.Number.{number_text}
use megoo_pm.Json.{Json, null, bool, num, str, arr, obj, Items, nil, cons, Fields, end, entry}

abbrev pub max_summary : ℕ
max_summary = 120

pub data Tone : Type 0 where
  destructive positive neutral : Tone

unfoldable pub action_tone : Text → Tone
action_tone action =
    if same action (text "delete") || same action (text "disable")
    then destructive
    else if same action (text "create") || same action (text "enable")
    then positive
    else neutral

-- `words.charAt(0).toUpperCase() + words.slice(1)`
abbrev capital : (Text → Text) → Text → Text
capital upper [] = upper []
capital upper (c ∷ s) = upper (c ∷ []) ++ s

-- `objectType.replace(/_/g, " ")`
abbrev spaced : Text → Text
spaced s = map (λ c. if c == b'_' then 32 else c) s

unfoldable pub describe_object : (Text → Text) → Text → Option ℕ → Text
describe_object upper object_type none = capital upper (spaced object_type)
describe_object upper object_type (some id) =
    capital upper (spaced object_type) ++ text " #" ++ number_text id

-- `parts.join(", ")`
unfoldable pub comma_joined : List Text → Text
comma_joined [] = []
comma_joined (p ∷ []) = p
comma_joined (p ∷ q ∷ ps) = p ++ text ", " ++ comma_joined (q ∷ ps)

mutual
  pub render_value : Json → Text
  render_value null = text "none"
  render_value (bool true) = text "true"
  render_value (bool false) = text "false"
  render_value (num n) = n
  render_value (str s) = s
  render_value (arr vs) = comma_joined (render_items vs)
  render_value (obj fs) = text "{…}"

  pub render_items : Items → List Text
  render_items nil = []
  render_items (cons v vs) = render_value v ∷ render_items vs

-- One field of `changes`: a list of two is a value before and one after.
unfoldable pub render_change : Text → Json → Text
unfolding render_value
render_change field (arr (cons old (cons new nil))) =
    field ++ text ": " ++ render_value old ++ text " → " ++ render_value new
render_change field value = field ++ text ": " ++ render_value value

unfoldable pub change_parts : Fields → List Text
unfolding render_change
change_parts end = []
change_parts (entry k v fs) = render_change k v ∷ change_parts fs

-- One entry of the row's record
unfoldable pub part_of : Text → Json → Text
unfolding change_parts render_value
part_of key (obj fs) =
    if same key (text "changes")
    then comma_joined (change_parts fs)
    else key ++ text ": " ++ render_value (obj fs)
part_of key value = key ++ text ": " ++ render_value value

unfoldable pub parts_of : Fields → List Text
unfolding part_of
parts_of end = []
parts_of (entry k v fs) = part_of k v ∷ parts_of fs

abbrev pub cut_line : Text → Text
cut_line line =
    if ltb max_summary (length line) then take (max_summary - 1) line ++ text "…" else line

unfoldable pub summarise : Fields → Text
unfolding parts_of
summarise end = text "—"
summarise (entry k v fs) = cut_line (comma_joined (parts_of (entry k v fs)))
