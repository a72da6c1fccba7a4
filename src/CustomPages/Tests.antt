-- ===== src/CustomPages/Tests.antt =====
-- A page with two images, an image name with a quote, and a script that does not parse.
use megoo_pm.Number.{value_from, number_text}
use megoo_pm.CustomPages.Uris.{
  match_placeholder, is_base64_unit, is_mime_unit, span, plus_run, strip, uri_head, match_uri, scan,
}
use megoo_pm.Prelude.{
  ◌+◌, ◌≡◌, refl, Option, none, some, [], ◌∷◌, ◌++◌, All, ◌↔◌, arith, length, ◌≤◌, take,
  if◌then◌else◌,
}
use megoo_pm.Text.{trim, is_space, trim_start, Text, text, same}
use megoo_pm.CustomPages.Images.{
  restore_piece, images_of, elided_from, elide_images, restore_images,
}
use megoo_pm.CustomPages.RoundTrip.{restore_images-elide_images}
use megoo_pm.CustomPages.Sizes.{format_bytes}
use megoo_pm.CustomPages.Tag.{
  img_tag_for, IsQuotable, escaped, without_extension, img_tag_for-escaped,
}
use megoo_pm.CustomPages.Scripts.{
  ScriptProblem, max_instruction_chars, extract_scripts, check_scripts, whole_report,
  describe_script_problems,
}
use megoo_pm.CustomPages.Reports.{Reported, check_scripts-Reported}
use megoo_pm.CustomPages.Caps.{describe_script_problems-length}

abbrev page : Text
page = text "<p>data:image/png;base64,QQ==</p>data:image/gif;base64,ABCD1."

elided : elide_images page ≡ record {
  html = text "<p>data:image/png;base64,MEGOOPM_IMAGE_1</p>data:image/gif;base64,MEGOOPM_IMAGE_2.";
  images = text "data:image/png;base64,QQ==" ∷ text "data:image/gif;base64,ABCD1" ∷ [];
}
unfolding elide_images text elided_from images_of scan match_uri uri_head strip plus_run span
    is_mime_unit is_base64_unit number_text
elided = refl

kept_one :
    (restore_images
      (text "x data:image/gif;base64,MEGOOPM_IMAGE_2 data:a/b;base64,MEGOOPM_IMAGE_7")
      (text "A" ∷ text "B" ∷ []))
    ≡ record {
      html = text "x B data:a/b;base64,MEGOOPM_IMAGE_7";
      warnings =
          text "1 image was removed from the page."
          ∷ text "The result referenced 1 image that isn't in your page."
          ∷ [];
    }
unfolding restore_images text scan match_placeholder uri_head strip plus_run span is_mime_unit
    restore_piece value_from
kept_one = refl

restore_images-elide_images_example :
    restore_images (elide_images page).html (elide_images page).images
    ≡ record { html = page; warnings = [] }
restore_images-elide_images_example = restore_images-elide_images page

sizes :
    (format_bytes 847 ≡ text "847 B")
    × (format_bytes 4300 ≡ text "4.2 KB")
    × (format_bytes 2097152 ≡ text "2.0 MB")
unfolding format_bytes text number_text
sizes = (refl, refl, refl)

abbrev name : Text
name = text "a\".b.png"

tag : img_tag_for name (text "data:x") ≡ text "<img src=\"data:x\" alt=\"a&quot;.b\">"
unfolding img_tag_for text
tag = refl

img_tag_for-escaped_example :
    (alt : Text) × (img_tag_for name (text "data:x")
      ≡ text "<img src=\"" ++ text "data:x" ++ text "\" alt=\"" ++ alt ++ text "\">")
    × (alt ≡ escaped (without_extension name))
    × All IsQuotable alt
img_tag_for-escaped_example = img_tag_for-escaped name (text "data:x")

abbrev scripts_page : Text
scripts_page =
    text "<SCRIPT defer>let a = 1;</script ><script src=\"x\"></script><script>\n(;</script>"

-- A compiler that rejects one body.
abbrev compile : Text → Option Text
compile body = if same body (text "\n(;") then some (text "Unexpected token ';'") else none

found : extract_scripts scripts_page ≡ text "let a = 1;" ∷ text "\n(;" ∷ []
unfolding extract_scripts text strip trim_start is_space trim
found = refl

check_scripts-Reported_example :
    All (Reported compile (extract_scripts scripts_page) 0) (check_scripts compile scripts_page)
    × ((check_scripts compile scripts_page ≡ [])
        ↔ All (λ s. compile s ≡ none) (extract_scripts scripts_page))
check_scripts-Reported_example = check_scripts-Reported compile scripts_page

abbrev problem : ScriptProblem
problem = record { index = 2; message = text "Unexpected token ';'"; source = text "(;" }

reported :
    describe_script_problems (problem ∷ [])
    ≡ text
        "The page has 1 script(s) that will not parse. Fix the JavaScript and change nothing else.\n\nScript 2 - Unexpected token ';'\n(;"
unfolding describe_script_problems text number_text
reported = refl

describe_script_problems-length_example :
    (length (describe_script_problems (problem ∷ [])) ≤ max_instruction_chars)
    × (describe_script_problems (problem ∷ [])
        ≡ take max_instruction_chars (whole_report (problem ∷ [])))
    × (length (whole_report (problem ∷ [])) ≤ max_instruction_chars + 50 + 1)
unfolding text number_text
describe_script_problems-length_example = describe_script_problems-length problem [] (omega arith)
