-- ===== src/CustomPages/Printing.antt =====
-- The matches of the two patterns, as they stand in a text.
use megoo_pm.Prelude.{
  ℕ, ◌≡◌, refl, sym, ap, ◌∙◌, true, false, Option, none, some, [], ◌∷◌, ◌++◌, append_assoc, All,
  arith,
}
use megoo_pm.Text.{Text, text, is_empty}
use megoo_pm.Number.{is_digit, number_text}
use megoo_pm.Number.Decimal.{number_text-All, number_text-nonempty}
use megoo_pm.CustomPages.Uris.{
  plus_run, ◌>>=◌, is_mime_unit, is_base64_unit, Mime, Hit, uri_head, match_uri, match_placeholder,
}
use megoo_pm.CustomPages.Images.{uri_text, placeholder}
use megoo_pm.CustomPages.Reading.{
  Head, HeadOk, uri_head-HeadOk, Head-uri_head, Nonempty, Stops, plus_run-Run, Run-plus_run,
  strip-append, strip-eq,
}

-- A type of a data URI.
pub record IsMime (m : Mime) : Type 0 where
  pub kind_units : All (λ c. is_mime_unit c ≡ true) m.kind
  pub kind_full : Nonempty m.kind
  pub subtype_units : All (λ c. is_mime_unit c ≡ true) m.subtype
  pub subtype_full : Nonempty m.subtype

abbrev pub head_text : Mime → Text → Text
head_text m r = text "data:" ++ (m.kind ++ (text "/" ++ (m.subtype ++ (text ";base64," ++ r))))

pub Head-text : (s : Text) (m : Mime) (r : Text) → Head s m r → (s ≡ head_text m r) × IsMime m
Head-text s m r h =
    let kind = plus_run-Run is_mime_unit h.after_data m.kind h.after_kind h.at_kind in
    let subtype = plus_run-Run is_mime_unit h.after_slash m.subtype h.after_subtype h.at_subtype in
    let e0 = strip-eq (text "data:") s h.after_data h.at_data in
    let e2 = strip-eq (text "/") h.after_kind h.after_slash h.at_slash in
    let e4 = strip-eq (text ";base64,") h.after_subtype r h.at_base64 in
    (
      e0
          ∙ ap (λ t. text "data:" ++ t)
              (kind.whole
                ∙ ap (λ t. m.kind ++ t)
                    (e2 ∙ ap (λ t. text "/" ++ t) (subtype.whole ∙ ap (λ t. m.subtype ++ t) e4))),
      record {
        kind_units = kind.units;
        kind_full = kind.full;
        subtype_units = subtype.units;
        subtype_full = subtype.full;
      },
    )

slash-Stops : (x : Text) → Stops is_mime_unit (text "/" ++ x)
unfolding text is_mime_unit
slash-Stops x = refl

semicolon-Stops : (x : Text) → Stops is_mime_unit (text ";base64," ++ x)
unfolding text is_mime_unit
semicolon-Stops x = refl

pub uri_head-text : (m : Mime) (r : Text) → IsMime m → uri_head (head_text m r) ≡ some (m, r)
uri_head-text m r ok = Head-uri_head (record {
  after_data = m.kind ++ (text "/" ++ (m.subtype ++ (text ";base64," ++ r)));
  after_kind = text "/" ++ (m.subtype ++ (text ";base64," ++ r));
  after_slash = m.subtype ++ (text ";base64," ++ r);
  after_subtype = text ";base64," ++ r;
  at_data = strip-append _ _;
  at_kind = Run-plus_run is_mime_unit m.kind _ ok.kind_units ok.kind_full (slash-Stops _);
  at_slash = strip-append _ _;
  at_subtype =
      Run-plus_run is_mime_unit m.subtype _ ok.subtype_units ok.subtype_full (semicolon-Stops _);
  at_base64 = strip-append _ _;
})

-- What a match of the first pattern says.
abbrev pub MatchOk : Text → Option (Hit × Text) → Type 0
MatchOk s none = Unit
MatchOk s (some (h, rest)) = (s ≡ uri_text h ++ rest) × IsMime h.mime × Stops is_base64_unit rest

uri_text-append : (h : Hit) (rest : Text) → uri_text h ++ rest ≡ head_text h.mime (h.body ++ rest)
uri_text-append h rest = simp append_assoc

pub match_uri-MatchOk : (s : Text) → MatchOk s (match_uri s)
unfolding match_uri
match_uri-MatchOk s = go (uri_head s) (uri_head-HeadOk s)
  where
    last :
        (m : Mime) (r : Text) (o : Option (Text × Text))
        → Head s m r
        → plus_run is_base64_unit r ≡ o
        → MatchOk s (o >>= λ p. some (record { mime = m; body = p.0 }, p.1))
    last m r none h e = tt
    last m r (some (payload, rest)) h e =
        let run = plus_run-Run is_base64_unit r payload rest e in
        let (whole, ok) = Head-text s m r h in
        (
          whole
              ∙ ap (head_text m) run.whole
              ∙ sym (uri_text-append (record { mime = m; body = payload }) rest),
          ok,
          run.ended,
        )

    go :
        (o : Option (Mime × Text))
        → HeadOk s o
        → MatchOk s (do
          (m, r) ← o
          (payload, rest) ← plus_run is_base64_unit r
          some (record { mime = m; body = payload }, rest))
    go none h = tt
    go (some (m, r)) h = last m r (plus_run is_base64_unit r) h refl

pub number_full : (s : Text) → is_empty s ≡ false → Nonempty s
number_full [] h = absurd (ground arith)
number_full (c ∷ s) h = tt

placeholder-append :
    (h : Hit) (index : ℕ) (rest : Text)
    → placeholder h index ++ rest
      ≡ head_text h.mime (text "MEGOOPM_IMAGE_" ++ (number_text index ++ rest))
placeholder-append h index rest = simp append_assoc

-- A placeholder reads back as itself, before anything but a digit.
pub match_placeholder-some :
    (h : Hit) (index : ℕ) (rest : Text)
    → IsMime h.mime
    → Stops is_digit rest
    → match_placeholder (placeholder h index ++ rest)
      ≡ some (record h { body = number_text index }, rest)
unfolding match_placeholder
match_placeholder-some h index rest ok k =
    let start = uri_head-text h.mime (text "MEGOOPM_IMAGE_" ++ (number_text index ++ rest)) ok in
    let word = strip-append (text "MEGOOPM_IMAGE_") (number_text index ++ rest) in
    let digits_read =
      Run-plus_run is_digit (number_text index) rest (number_text-All index)
        (number_full (number_text index) (number_text-nonempty index)) k in
    ap match_placeholder (placeholder-append h index rest) ∙ rw (start, word, digits_read) refl
