-- ===== src/Failures/Fields.antt =====
-- The field errors of a validation list, against what each item says of a field.
use megoo_pm.Prelude.{
  ◌≡◌, refl, sym, true, false, not, ◌&&◌, Option, none, some, List, [], ◌∷◌, if◌then◌else◌,
}
use megoo_pm.Text.{Text, same, has, is_empty}
use megoo_pm.Text.Equality.{same→eq}
use megoo_pm.Entries.{lookup}
use megoo_pm.Failures.{DetailItem, item, first_or, field_of, inherited, is_unset}

-- What an item says of a field.
unfoldable pub message_for : Text → Option Text → Text → Option Text
message_for f none msg = none
message_for f (some g) msg = if same f g && not (is_empty msg) then some msg else none

abbrev pub item_message : Text → DetailItem → Option Text
item_message f (item loc (some msg)) = message_for f (field_of loc) msg
item_message f other = none

-- The first item that says something of it.
unfoldable pub first_message : Text → List DetailItem → Option Text
first_message f [] = none
first_message f (i ∷ is) = first_or (item_message f i) (first_message f is)

-- For a field that no prototype has.
module _ (f : Text) (own : has f inherited ≡ false) where
  present :
      (g : Text) (errors : List (Text × Text)) (m : Text)
      → same f g ≡ true
      → lookup f errors ≡ some m
      → is_unset g errors ≡ false
  present g errors m e h = let here : g ≡ f = sym (same→eq f g e) in rw (here, own, h) refl
