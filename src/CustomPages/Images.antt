-- ===== src/CustomPages/Images.antt =====
-- `elideImages` and `restoreImages`.
use megoo_pm.Prelude.{
  ℕ, zero, suc, ◌+◌, ◌-◌, Bool, true, false, Option, none, some, List, [], ◌∷◌, ◌++◌, length,
  get_elem?, any, ltb, ◌==◌, if◌then◌else◌,
}
use megoo_pm.Text.{Text, text}
use megoo_pm.Number.{value_from, number_text}
use megoo_pm.CustomPages.Uris.{
  Hit, mime_text, Piece, lit, hit, match_uri, match_placeholder, pieces,
}

abbrev pub uri_text : Hit → Text
uri_text h = text "data:" ++ (mime_text h.mime ++ (text ";base64," ++ h.body))

abbrev pub placeholder : Hit → ℕ → Text
placeholder h index =
    text "data:"
    ++ (mime_text h.mime ++ (text ";base64," ++ (text "MEGOOPM_IMAGE_" ++ number_text index)))

pub record ElidedDocument : Type 0 where
  pub html : Text
  pub images : List Text

pub record RestoredDocument : Type 0 where
  pub html : Text
  pub warnings : List Text

-- `images` in order, and the document with the placeholders from `index` on.
unfoldable pub images_of : List Piece → List Text
images_of [] = []
images_of (lit c ∷ ps) = images_of ps
images_of (hit h ∷ ps) = uri_text h ∷ images_of ps

unfoldable pub elided_from : ℕ → List Piece → Text
elided_from index [] = []
elided_from index (lit c ∷ ps) = c ∷ elided_from index ps
elided_from index (hit h ∷ ps) = placeholder h index ++ elided_from (index + 1) ps

unfoldable pub elide_images : Text → ElidedDocument
elide_images html =
    let ps = pieces match_uri html in record { html = elided_from 1 ps; images = images_of ps }

unfoldable pub count_images : ℕ → Text
count_images n = if n == 1 then text "1 image" else number_text n ++ text " images"

-- `seen` is a set; `unknown` counts.
pub record Restoring : Type 0 where
  pub done : Text
  pub seen : List ℕ
  pub unknown : ℕ

-- `images[position - 1]`, undefined at position 0 too
abbrev pub image_at : List Text → ℕ → Option Text
image_at images zero = none
image_at images (suc i) = get_elem? images i

abbrev pub add_seen : ℕ → List ℕ → List ℕ
add_seen n seen = if any (λ m. m == n) seen then seen else seen ++ n ∷ []

abbrev pub put_back : Hit → ℕ → Option Text → Restoring → Restoring
put_back h position none r = record r {
  done =
      r.done
      ++ (text "data:"
          ++ (mime_text h.mime ++ (text ";base64," ++ (text "MEGOOPM_IMAGE_" ++ h.body))));
  unknown = r.unknown + 1;
}
put_back h position (some original) r = record r {
  done = r.done ++ original;
  seen = add_seen position r.seen;
}

unfoldable pub restore_piece : List Text → Piece → Restoring → Restoring
restore_piece images (lit c) r = record r { done = r.done ++ c ∷ [] }
restore_piece images (hit h) r =
    let position = value_from 0 h.body in put_back h position (image_at images position) r

unfoldable pub restore_pieces : List Text → List Piece → Restoring → Restoring
restore_pieces images [] r = r
restore_pieces images (p ∷ ps) r = restore_pieces images ps (restore_piece images p r)

abbrev was : ℕ → Text
was n = if n == 1 then text "was" else text "were"

abbrev pub warning_if : Bool → Text → List Text
warning_if true w = w ∷ []
warning_if false w = []

unfoldable pub report : List Text → Restoring → RestoredDocument
unfolding count_images
report images r =
    let dropped = length images - length r.seen in
    record {
      html = r.done;
      warnings =
          warning_if (ltb 0 dropped)
            (count_images dropped ++ text " " ++ was dropped ++ text " removed from the page.")
          ++ warning_if (ltb 0 r.unknown) (
              text "The result referenced "
              ++ count_images r.unknown
              ++ text " that isn't in your page.");
    }

unfoldable pub restore_images : Text → List Text → RestoredDocument
unfolding restore_pieces report
restore_images html images = report images (
    restore_pieces images (pieces match_placeholder html)
      (record { done = []; seen = []; unknown = 0 }))
