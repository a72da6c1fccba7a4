-- ===== src/CustomPages/Crossing.antt =====
-- No match crosses the start of an image: a placeholder that begins before it reads the same, as
-- the start of a data URI, in the document as it was.
use megoo_pm.Prelude.{
  ℕ, ◌≡◌, ◌≢◌, refl, sym, ap, subst, ◌∙◌, inl, inr, Bool, false, Bool-cases, Option-cases, none,
  some, [], ◌∷◌, ◌++◌, All, ◌==◌, if◌then◌else◌, arith,
}
use megoo_pm.Text.{Text, text}
use megoo_pm.CustomPages.Uris.{
  strip, span, full_run, plus_run, is_mime_unit, is_base64_unit, Mime, uri_head, match_uri,
  match_placeholder,
}
use megoo_pm.CustomPages.Agreement.{Agree, ends, same_unit, marked, Both, strip-Both, span-Agree}
use megoo_pm.CustomPages.Reading.{strip-eq, Head, HeadOk, uri_head-HeadOk, Head-uri_head}

abbrev pub data_mark : Text
data_mark = b'd' ∷ b'a' ∷ b't' ∷ b'a' ∷ b':' ∷ []

abbrev colon : Text
colon = b':' ∷ []

Agree-colon : {s t : Text} → Agree data_mark s t → Agree colon s t
Agree-colon ends = ends
Agree-colon (same_unit a) = same_unit (Agree-colon a)
Agree-colon (marked x y e f) =
    rw (e, f) (same_unit (same_unit (same_unit (same_unit (marked x y refl refl)))))

-- A literal or a run that reads in one text reads in the other.
strip-Agree :
    (h : ℕ) (mark w s t r : Text)
    → All (λ d. h ≢ d) w
    → Agree (h ∷ mark) s t
    → strip w s ≡ some r
    → (r' : Text) × (strip w t ≡ some r') × Agree (h ∷ mark) r r'
strip-Agree h mark w s t r k a e =
    subst (λ o. Both (h ∷ mark) o (strip w t)) e (strip-Both h mark w k a)

plus_run-Agree :
    (p : ℕ → Bool) (h : ℕ) (mark s t run r : Text)
    → p h ≡ false
    → Agree (h ∷ mark) s t
    → plus_run p s ≡ some (run, r)
    → (r' : Text) × (plus_run p t ≡ some (run, r')) × Agree (h ∷ mark) r r'
unfolding plus_run
plus_run-Agree p h mark s t run r k a e =
    let (runs, rests) = span-Agree p h mark k a in go (span p s) (span p t) runs rests e
  where
    go :
        (u v : Text × Text)
        → u.0 ≡ v.0
        → Agree (h ∷ mark) u.1 v.1
        → full_run u ≡ some (run, r)
        → (r' : Text) × (full_run v ≡ some (run, r')) × Agree (h ∷ mark) r r'
    go ([], x) v q b f = absurd (ground arith)
    go (c ∷ x, y) ([], z) q b f = absurd (ground arith)
    go (c ∷ x, y) (d ∷ w, z) q b f =
        let here : d ∷ w ≡ run = cc in
        let rest : y ≡ r = cc in
        (z, ap (λ v. some (v, z)) here, subst (λ v. Agree (h ∷ mark) v z) rest b)

data_step :
    (c : ℕ) (s : Text)
    → strip (text "data:") (c ∷ s) ≡ (if c == b'd' then strip (text "ata:") s else none)
unfolding strip text
data_step c s = refl

no_d : All (λ d. b'd' ≢ d) (text "ata:")
unfolding text
no_d = omega arith

Head-Agree :
    (c : ℕ) (s t : Text) (m : Mime) (r : Text)
    → Agree data_mark s t
    → Head (c ∷ s) m r
    → (r' : Text) × Head (c ∷ t) m r' × Agree colon r r'
unfolding text
Head-Agree c s t m r a h =
    let e : (if c == b'd' then strip (text "ata:") s else none) ≡ some h.after_data =
      sym (data_step c s) ∙ h.at_data in
    elim (Bool-cases (c == b'd')) [
      | inr other ↦ absurd (ground arith)
      | inl starts ↦
          let e0 : strip (text "ata:") s ≡ some h.after_data = ground arith in
          let (r0, f0, a0) = strip-Agree b'd' _ (text "ata:") s t h.after_data no_d a e0 in
          let (r1, f1, a1) =
            plus_run-Agree is_mime_unit b':' [] _ r0 _ _ (unfold is_mime_unit in refl)
              (Agree-colon a0) h.at_kind in
          let (r2, f2, a2) = strip-Agree b':' [] (text "/") _ r1 _ (omega arith) a1 h.at_slash in
          let (r3, f3, a3) =
            plus_run-Agree is_mime_unit b':' [] _ r2 _ _ (unfold is_mime_unit in refl) a2
              h.at_subtype in
          let (r4, f4, a4) =
            strip-Agree b':' [] (text ";base64,") _ r3 _ (omega arith) a3 h.at_base64 in
          (
            r4,
            record {
              after_data = r0;
              after_kind = r1;
              after_slash = r2;
              after_subtype = r3;
              at_data = data_step c t ∙ rw starts f0;
              at_kind = f1;
              at_slash = f2;
              at_subtype = f3;
              at_base64 = f4;
            },
            a4,
          )
    ]

starts_base64 :
    (x : Text)
    → plus_run is_base64_unit (text "MEGOOPM_IMAGE_" ++ x)
      ≡ some (text "MEGOOPM", text "_IMAGE_" ++ x)
unfolding plus_run span is_base64_unit text
starts_base64 x = refl

match_uri-found :
    (s : Text) (m : Mime) (r x : Text)
    → uri_head s ≡ some (m, r)
    → r ≡ text "MEGOOPM_IMAGE_" ++ x
    → match_uri s ≢ none
unfolding match_uri
match_uri-found s m r x e q none_found =
    let found = ap (plus_run is_base64_unit) q ∙ starts_base64 x in
    let found_here : match_uri s
        ≡ some (record { mime = m; body = text "MEGOOPM" }, text "_IMAGE_" ++ x) =
      rw (e, found) refl in
    cc

no_colon : All (λ d. b':' ≢ d) (text "MEGOOPM_IMAGE_")
unfolding text
no_colon = omega arith

-- Where no data URI starts in a text, no placeholder starts in one that agrees with it up to the
-- next image.
pub match_placeholder-none :
    (c : ℕ) (s t : Text)
    → Agree data_mark s t
    → match_uri (c ∷ t) ≡ none
    → match_placeholder (c ∷ s) ≡ none
unfolding match_placeholder
match_placeholder-none c s t a free = elim (Option-cases (uri_head (c ∷ s))) [
  | inl e ↦ rw e refl
  | inr ((m, r), e) ↦ elim (Option-cases (strip (text "MEGOOPM_IMAGE_") r)) [
    | inl f ↦ rw (e, f) refl
    | inr (r1, f) ↦
        let h : Head (c ∷ s) m r = subst (HeadOk (c ∷ s)) e (uri_head-HeadOk (c ∷ s)) in
        let (r', h', b) = Head-Agree c s t m r a h in
        let (x, g, _) = strip-Agree b':' [] (text "MEGOOPM_IMAGE_") r r' r1 no_colon b f in
        absurd (
          match_uri-found (c ∷ t) m r' x (Head-uri_head h')
            (strip-eq (text "MEGOOPM_IMAGE_") r' x g) free)
  ]
]
