-- ===== src/CustomPages/Tag.antt =====
-- The image tag that the editor inserts.
use megoo_pm.Prelude.{
  ℕ, ◌≡◌, ◌≢◌, refl, sym, ap, ◌∙◌, inl, inr, Bool-cases, ◌&&◌, not, [], ◌∷◌, ◌++◌, append_assoc,
  All, All-append, any, ◌==◌, if◌then◌else◌, arith,
}
use megoo_pm.Text.{Text, text, is_empty}

-- `value.replace(/c/g, t)`, for one unit `c`
unfoldable pub replace_unit : ℕ → Text → Text → Text
replace_unit c t [] = []
replace_unit c t (d ∷ s) = let rest = replace_unit c t s in if d == c then t ++ rest else d ∷ rest

unfoldable pub escape_attribute : Text → Text
unfolding replace_unit
escape_attribute value = replace_unit b'>' (text "&gt;") (
    replace_unit b'<' (text "&lt;")
      (replace_unit b'"' (text "&quot;") (replace_unit b'&' (text "&amp;") value)))

-- `filename.replace(/\.[^.]+$/, "")`
unfoldable pub without_extension : Text → Text
without_extension [] = []
without_extension (c ∷ s) =
    let rest = without_extension s in
    if c == b'.' && not (is_empty s) && not (any (λ d. d == b'.') s) then [] else c ∷ rest

unfoldable pub img_tag_for : Text → Text → Text
unfolding escape_attribute without_extension
img_tag_for filename data_uri =
    text "<img src=\""
    ++ data_uri
    ++ text "\" alt=\""
    ++ escape_attribute (without_extension filename)
    ++ text "\">"

-- A unit that neither ends the attribute nor opens a tag.
abbrev pub IsQuotable : ℕ → Type 0
IsQuotable c = (c ≢ b'"') × (c ≢ b'<') × (c ≢ b'>')

-- What one unit becomes.
unfoldable pub escaped_unit : ℕ → Text
escaped_unit c =
    if c == b'&'
    then text "&amp;"
    else if c == b'"'
    then text "&quot;"
    else if c == b'<'
    then text "&lt;"
    else if c == b'>'
    then text "&gt;"
    else c ∷ []

unfoldable pub escaped : Text → Text
escaped [] = []
escaped (c ∷ s) = escaped_unit c ++ escaped s

replace_unit-append :
    (c : ℕ) (t u v : Text) → replace_unit c t (u ++ v) ≡ replace_unit c t u ++ replace_unit c t v
unfolding replace_unit
replace_unit-append c t [] v = refl
replace_unit-append c t (d ∷ u) v = elim (Bool-cases (d == c)) [
  | inl e ↦ rw e (ap (λ w. t ++ w) (replace_unit-append c t u v) ∙ sym (append_assoc t _ _))
  | inr e ↦ rw e (ap (λ w. d ∷ w) (replace_unit-append c t u v))
]

escape_attribute-append :
    (u v : Text) → escape_attribute (u ++ v) ≡ escape_attribute u ++ escape_attribute v
unfolding escape_attribute
escape_attribute-append u v = simp replace_unit-append

escape_attribute-nil : escape_attribute [] ≡ []
unfolding escape_attribute replace_unit
escape_attribute-nil = refl

escape-unit : (c : ℕ) → escape_attribute (c ∷ []) ≡ escaped_unit c
unfolding escape_attribute replace_unit escaped_unit text
escape-unit c = elim (Bool-cases (c == b'&')) [
  | inl e ↦ rw e refl
  | inr e ↦ elim (Bool-cases (c == b'"')) [
    | inl f ↦ rw (e, f) refl
    | inr f ↦ elim (Bool-cases (c == b'<')) [
      | inl g ↦ rw (e, f, g) refl
      | inr g ↦
          rw (e, f, g) (elim (Bool-cases (c == b'>')) [ inl h ↦ rw h refl | inr h ↦ rw h refl ])
    ]
  ]
]

-- The four replacements, one after another, are one pass over the text.
escape_attribute-escaped : (s : Text) → escape_attribute s ≡ escaped s
unfolding escaped
escape_attribute-escaped [] = escape_attribute-nil
escape_attribute-escaped (c ∷ s) =
    escape_attribute-append (c ∷ []) s
    ∙ ap (λ u. u ++ escape_attribute s) (escape-unit c)
    ∙ ap (λ v. escaped_unit c ++ v) (escape_attribute-escaped s)

escaped_unit-All : (c : ℕ) → All IsQuotable (escaped_unit c)
unfolding escaped_unit text
escaped_unit-All c = ground arith

escaped-All : (s : Text) → All IsQuotable (escaped s)
unfolding escaped
escaped-All [] = tt
escaped-All (c ∷ s) =
    All-append IsQuotable (escaped_unit c) (escaped s) (escaped_unit-All c) (escaped-All s)

-- The tag is the two attributes in double quotes, where the second is the name without its
-- extension, escaped in one pass, and holds no quote and no angle bracket: the attribute ends at
-- the quote that the tag gives it.
pub img_tag_for-escaped :
    (filename data_uri : Text)
    → (alt : Text) × (img_tag_for filename data_uri
        ≡ text "<img src=\"" ++ data_uri ++ text "\" alt=\"" ++ alt ++ text "\">")
      × (alt ≡ escaped (without_extension filename))
      × All IsQuotable alt
unfolding img_tag_for
img_tag_for-escaped filename data_uri =
    let alt = escape_attribute-escaped (without_extension filename) in
    (
      escape_attribute (without_extension filename),
      refl,
      alt,
      rw alt (escaped-All (without_extension filename)),
    )
