-- ===== src/CustomPages/Sizes.antt =====
-- The sizes the editor shows and checks. A size is a natural number below 2^50, so the divisions by
-- powers of two are exact, and `toFixed(1)` rounds a half up.
use megoo_pm.Prelude.{
  ℕ, ◌+◌, ◌*◌, ◌/◌, ◌%◌, ◌≤◌, ◌<◌, ◌≡◌, inl, inr, Bool, true, false, Bool-cases, ◌&&◌, Option, none,
  some, [], ◌∷◌, ◌++◌, length, ltb, leb, if◌then◌else◌, arith,
}
use megoo_pm.Text.{Text, text}
use megoo_pm.Number.{number_text}

abbrev pub image_warn_bytes : ℕ
image_warn_bytes = 256 * 1024

abbrev pub max_page_bytes : ℕ
max_page_bytes = 2 * 1024 * 1024

abbrev pub max_assist_bytes : ℕ
max_assist_bytes = 200 * 1024

-- `(n / d).toFixed(1)`
abbrev to_fixed_1 : ℕ → ℕ → Text
to_fixed_1 n d =
    let tenths = (n * 20 + d) / (d * 2) in
    number_text (tenths / 10) ++ text "." ++ number_text (tenths % 10)

unfoldable pub format_bytes : ℕ → Text
format_bytes bytes =
    if ltb bytes 1024
    then number_text bytes ++ text " B"
    else if ltb bytes (1024 * 1024)
    then to_fixed_1 bytes 1024 ++ text " KB"
    else to_fixed_1 bytes (1024 * 1024) ++ text " MB"

abbrev is_high : ℕ → Bool
is_high c = leb 55296 c && leb c 56319

abbrev is_low : ℕ → Bool
is_low c = leb 56320 c && leb c 57343

-- Bytes of a unit in UTF-8, but for a pair of surrogates: a lone one is encoded as U+FFFD.
abbrev unit_bytes : ℕ → ℕ
unit_bytes c = if ltb c 128 then 1 else if ltb c 2048 then 2 else 3

-- A pair of surrogates is one character of four bytes.
unfoldable pub html_byte_length : Text → ℕ
html_byte_length [] = 0
html_byte_length (c ∷ []) = unit_bytes c
html_byte_length (c ∷ d ∷ s) =
    let alone = unit_bytes c + html_byte_length (d ∷ s) in
    let paired = 4 + html_byte_length s in if is_high c && is_low d then paired else alone

unfoldable pub is_over_page_cap : Text → Bool
unfolding html_byte_length
is_over_page_cap html = ltb max_page_bytes (html_byte_length html)

unfoldable pub is_over_assist_cap : Text → Bool
unfolding html_byte_length
is_over_assist_cap html = ltb max_assist_bytes (html_byte_length html)

unfoldable pub describe_image_size : ℕ → Option Text
unfolding format_bytes
describe_image_size bytes =
    if leb bytes image_warn_bytes
    then none
    else some (
        text "That image is "
        ++ format_bytes bytes
        ++ text ". Embedding inflates it to about "
        ++ format_bytes ((bytes * 4 + 2) / 3)
        ++ text ", and it becomes part of the "
        ++ text "page source — consider a smaller or more compressed file.")

unit_bytes-bounds : (c : ℕ) → (1 ≤ unit_bytes c) × (unit_bytes c ≤ 3)
unit_bytes-bounds c = ground arith

-- Between one byte and three for a unit.
html_byte_length-bounds :
    (s : Text) → (length s ≤ html_byte_length s) × (html_byte_length s ≤ 3 * length s)
unfolding html_byte_length
html_byte_length-bounds [] = omega arith
html_byte_length-bounds (c ∷ []) = let (low, high) = unit_bytes-bounds c in omega arith
html_byte_length-bounds (c ∷ d ∷ s) =
    let (low, high) = html_byte_length-bounds s in
    let (low_next, high_next) = html_byte_length-bounds (d ∷ s) in
    elim (Bool-cases (is_high c && is_low d)) [
      | inl pair ↦ rw pair (omega arith)
      | inr alone ↦ rw alone (let (low_one, high_one) = unit_bytes-bounds c in omega arith)
    ]

-- A page of more units than the cap has bytes is over it, and one whose units would fit at three
-- bytes each is not.
pub is_over_page_cap-bounds :
    (html : Text)
    → (max_page_bytes < length html → is_over_page_cap html ≡ true)
      × (3 * length html ≤ max_page_bytes → is_over_page_cap html ≡ false)
unfolding is_over_page_cap
is_over_page_cap-bounds html =
    let (low, high) = html_byte_length-bounds html in
    (
      λ h. above (html_byte_length html) (omega arith),
      λ h. below (html_byte_length html) (omega arith),
    )
  where
    above : (n : ℕ) → max_page_bytes < n → ltb max_page_bytes n ≡ true
    above n h = ground arith

    below : (n : ℕ) → n ≤ max_page_bytes → ltb max_page_bytes n ≡ false
    below n h = ground arith
