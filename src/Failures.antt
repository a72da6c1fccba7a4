-- ===== src/Failures.antt =====
-- frontend/src/components/proxy-hosts/lib.ts (`describeError`) and frontend/src/lib/api/errors.ts
-- (`ApiError`): what the forms show of a thrown value. A body has the types that the source gives
-- it: a detail that is a text, or a list whose items may be `{loc, msg}` objects.
pub mod Fields
mod Tests
use megoo_pm.Prelude.{
  ℕ, ◌*◌, ◌+◌, ◌-◌, Bool, true, false, ◌||◌, ◌&&◌, not, Option, none, some, List, [], ◌∷◌, ◌++◌,
  length, all, ltb, leb, ◌==◌, if◌then◌else◌,
}
use megoo_pm.Text.{Text, text, same, has, is_empty}
use megoo_pm.Entries.{lookup}
use megoo_pm.Number.{is_digit, value_from}

pub data Part : Type 0 where
  named : Text → Part
  at : ℕ → Part

-- The source's `ValidationItem`; `not_item` is an item that is no object.
pub data DetailItem : Type 0 where
  item : Option (List Part) → Option Text → DetailItem
  not_item : DetailItem

pub data Detail : Type 0 where
  detail_text : Text → Detail
  detail_list : List DetailItem → Detail
  other_detail : Detail

-- `detail` of the body: `none` is a body without one, or no object.
pub record ApiError : Type 0 where
  pub status : ℕ
  pub message : Text
  pub body : Option Detail

pub data Thrown : Type 0 where
  api_failure : ApiError → Thrown
  plain_error : Text → Thrown
  other_value : Thrown

-- `fieldErrors` in the order its keys were set.
pub record DescribedError : Type 0 where
  pub message : Text
  pub field_errors : List (Text × Text)

abbrev pub text_or : Option Detail → Text → Text
text_or (some (detail_text t)) message = t
text_or other message = message

unfoldable pub detail_of : ApiError → Text
detail_of e = text_or e.body e.message

unfoldable pub is_unauthorized : ApiError → Bool
is_unauthorized e = e.status == 401

-- `"msg" in d`
abbrev pub has_msg : DetailItem → Bool
has_msg (item loc (some msg)) = true
has_msg other = false

abbrev pub is_validation_list : List DetailItem → Bool
is_validation_list items = all has_msg items

abbrev is_field : Part → Option Text
is_field (named s) = if same s (text "body") then none else some s
is_field (at i) = none

abbrev pub first_or : {A : Type 0} → Option A → Option A → Option A
first_or none later = later
first_or (some a) later = some a

unfoldable pub field_in : List Part → Option Text
field_in [] = none
field_in (p ∷ ps) = first_or (is_field p) (field_in ps)

abbrev pub field_of : Option (List Part) → Option Text
field_of none = none
field_of (some parts) = field_in parts

-- An object literal reads these from `Object.prototype`.
abbrev pub inherited : List Text
inherited =
    text "constructor"
    ∷ text "__defineGetter__"
    ∷ text "__defineSetter__"
    ∷ text "hasOwnProperty"
    ∷ text "__lookupGetter__"
    ∷ text "__lookupSetter__"
    ∷ text "isPrototypeOf"
    ∷ text "propertyIsEnumerable"
    ∷ text "toString"
    ∷ text "valueOf"
    ∷ text "__proto__"
    ∷ text "toLocaleString"
    ∷ []

abbrev pub is_some : {A : Type 0} → Option A → Bool
is_some none = false
is_some (some a) = true

-- `!fieldErrors[field]`: a message that was set is not empty.
abbrev pub is_unset : Text → List (Text × Text) → Bool
is_unset field errors = not (has field inherited) && not (is_some (lookup field errors))

abbrev pub with_message : Option Text → Text → List (Text × Text) → List (Text × Text)
with_message none msg errors = errors
with_message (some field) msg errors =
    if not (is_empty msg) && is_unset field errors then errors ++ (field, msg) ∷ [] else errors

unfoldable pub add_item : DetailItem → List (Text × Text) → List (Text × Text)
add_item (item loc (some msg)) errors = with_message (field_of loc) msg errors
add_item other errors = errors

unfoldable pub collect : List DetailItem → List (Text × Text) → List (Text × Text)
collect [] errors = errors
collect (i ∷ is) errors = collect is (add_item i errors)

-- A key that is an array index: JavaScript lists these first, by number.
abbrev is_canonical : Text → Bool
is_canonical [] = false
is_canonical (c ∷ []) = is_digit c
is_canonical (c ∷ d ∷ s) = not (c == b'0') && all is_digit (c ∷ d ∷ s)

abbrev pub is_index : Text → Bool
is_index s = is_canonical s && ltb (value_from 0 s) 4294967295

abbrev pub smaller_of : ℕ → Text → Option (ℕ × Text) → Option (ℕ × Text)
smaller_of n v none = some (n, v)
smaller_of n v (some (m, w)) = if leb n m then some (n, v) else some (m, w)

unfoldable pub least_index : List (Text × Text) → Option (ℕ × Text)
least_index [] = none
least_index ((k, v) ∷ rest) =
    let later = least_index rest in
    if is_index k then smaller_of (value_from 0 k) v later else later

abbrev first_entry : List (Text × Text) → Option Text
first_entry [] = none
first_entry ((k, v) ∷ rest) = some v

abbrev first_listed : Option (ℕ × Text) → List (Text × Text) → Option Text
first_listed none errors = first_entry errors
first_listed (some (n, v)) errors = some v

-- `Object.values(fieldErrors)[0]`
unfoldable pub first_value : List (Text × Text) → Option Text
unfolding least_index
first_value errors = first_listed (least_index errors) errors

abbrev pub message_of : Option Text → Text
message_of none = text "Please fix the highlighted fields."
message_of (some m) = m

unfoldable pub describe_list : List DetailItem → DescribedError
unfolding collect first_value
describe_list items =
    let errors = collect items [] in
    record { message = message_of (first_value errors); field_errors = errors }

abbrev pub describe_detail : ApiError → Option Detail → DescribedError
describe_detail e (some (detail_list items)) =
    if is_validation_list items
    then describe_list items
    else record { message = detail_of e; field_errors = [] }
describe_detail e other = record { message = detail_of e; field_errors = [] }

unfoldable pub describe_error : Thrown → DescribedError
unfolding describe_list detail_of
describe_error (api_failure e) = describe_detail e e.body
describe_error (plain_error m) = record { message = m; field_errors = [] }
describe_error other_value = record {
  message = text "Something went wrong. Please try again.";
  field_errors = [];
}
