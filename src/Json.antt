-- ===== src/Json.antt =====
-- The values that `JSON.parse` returns. A number is kept by its decimal form, which is what the
-- client prints of it; an object is the list of its entries, in order.
use megoo_pm.Prelude.{Bool, true, false, Option, none, some, List, [], ◌∷◌, ◌++◌, if◌then◌else◌}
use megoo_pm.Text.{Text, text, same}

mutual
  pub data Json : Type 0 where
    null : Json
    bool : Bool → Json
    num : Text → Json
    str : Text → Json
    arr : Items → Json
    obj : Fields → Json

  pub data Items : Type 0 where
    nil : Items
    cons : Json → Items → Items

  pub data Fields : Type 0 where
    end : Fields
    entry : Text → Json → Fields → Fields

abbrev pub items : Items → List Json
items nil = []
items (cons v vs) = v ∷ items vs

abbrev pub of_items : List Json → Items
of_items [] = nil
of_items (v ∷ vs) = cons v (of_items vs)

abbrev pub entries : Fields → List (Text × Json)
entries end = []
entries (entry k v fs) = (k, v) ∷ entries fs

unfoldable pub get_field : Text → Fields → Option Json
get_field key end = none
get_field key (entry k v fs) = if same k key then some v else get_field key fs

-- `value[key]`, where `value` may be no object
unfoldable pub get : Text → Json → Option Json
unfolding get_field
get key (obj fs) = get_field key fs
get key null = none
get key v = none

-- `typeof value === "string"`
abbrev pub as_text : Option Json → Option Text
as_text none = none
as_text (some (str s)) = some s
as_text (some v) = none

-- `String(value)`: the elements of an array are joined by commas, a null one as the empty text.
-- `blank` is what null gives.
unfoldable mutual
  pub string_of : Text → Json → Text
  string_of blank null = blank
  string_of blank (bool true) = text "true"
  string_of blank (bool false) = text "false"
  string_of blank (num t) = t
  string_of blank (str s) = s
  string_of blank (arr nil) = []
  string_of blank (arr (cons v vs)) = string_of [] v ++ strings_of vs
  string_of blank (obj fs) = text "[object Object]"

  pub strings_of : Items → Text
  strings_of nil = []
  strings_of (cons v vs) = text "," ++ string_of [] v ++ strings_of vs

-- ... of a value that may be undefined
abbrev pub js_string : Option Json → Text
js_string none = text "undefined"
js_string (some v) = string_of (text "null") v
