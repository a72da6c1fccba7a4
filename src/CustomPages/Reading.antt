-- ===== src/CustomPages/Reading.antt =====
-- The start of a data URI: what a reading says of the text, and that a printed one reads back.
use megoo_pm.Prelude.{
  ℕ, ◌≡◌, refl, ap, inl, inr, Bool, true, false, Bool-cases, Option, none, some, [], ◌∷◌, ◌++◌, All,
  ◌==◌, arith,
}
use megoo_pm.Text.{Text, text}
use megoo_pm.CustomPages.Uris.{strip, span, full_run, plus_run, ◌>>=◌, is_mime_unit, Mime, uri_head}

-- The steps of a reading.
pub record Head (s : Text) (m : Mime) (r : Text) : Type 0 where
  pub after_data : Text
  pub after_kind : Text
  pub after_slash : Text
  pub after_subtype : Text
  pub at_data : strip (text "data:") s ≡ some after_data
  pub at_kind : plus_run is_mime_unit after_data ≡ some (m.kind, after_kind)
  pub at_slash : strip (text "/") after_kind ≡ some after_slash
  pub at_subtype : plus_run is_mime_unit after_slash ≡ some (m.subtype, after_subtype)
  pub at_base64 : strip (text ";base64,") after_subtype ≡ some r

abbrev pub HeadOk : Text → Option (Mime × Text) → Type 0
HeadOk s none = Unit
HeadOk s (some (m, r)) = Head s m r

-- The steps, from the last to the first.
module _ (s : Text) where
  at_last :
      (r0 kind r1 r2 subtype r3 : Text) (o : Option Text)
      → strip (text "data:") s ≡ some r0
      → plus_run is_mime_unit r0 ≡ some (kind, r1)
      → strip (text "/") r1 ≡ some r2
      → plus_run is_mime_unit r2 ≡ some (subtype, r3)
      → strip (text ";base64,") r3 ≡ o
      → HeadOk s (o >>= λ r4. some (record { kind = kind; subtype = subtype }, r4))
  at_last r0 kind r1 r2 subtype r3 none a b c d e = tt
  at_last r0 kind r1 r2 subtype r3 (some r4) a b c d e = record {
    after_data = r0;
    after_kind = r1;
    after_slash = r2;
    after_subtype = r3;
    at_data = a;
    at_kind = b;
    at_slash = c;
    at_subtype = d;
    at_base64 = e;
  }

  at_fourth :
      (r0 kind r1 r2 : Text) (o : Option (Text × Text))
      → strip (text "data:") s ≡ some r0
      → plus_run is_mime_unit r0 ≡ some (kind, r1)
      → strip (text "/") r1 ≡ some r2
      → plus_run is_mime_unit r2 ≡ o
      → HeadOk s (do
        (subtype, r3) ← o
        r4 ← strip (text ";base64,") r3
        some (record { kind = kind; subtype = subtype }, r4))
  at_fourth r0 kind r1 r2 none a b c d = tt
  at_fourth r0 kind r1 r2 (some (subtype, r3)) a b c d =
      at_last r0 kind r1 r2 subtype r3 (strip (text ";base64,") r3) a b c d refl

  at_third :
      (r0 kind r1 : Text) (o : Option Text)
      → strip (text "data:") s ≡ some r0
      → plus_run is_mime_unit r0 ≡ some (kind, r1)
      → strip (text "/") r1 ≡ o
      → HeadOk s (do
        r2 ← o
        (subtype, r3) ← plus_run is_mime_unit r2
        r4 ← strip (text ";base64,") r3
        some (record { kind = kind; subtype = subtype }, r4))
  at_third r0 kind r1 none a b c = tt
  at_third r0 kind r1 (some r2) a b c =
      at_fourth r0 kind r1 r2 (plus_run is_mime_unit r2) a b c refl

  at_second :
      (r0 : Text) (o : Option (Text × Text))
      → strip (text "data:") s ≡ some r0
      → plus_run is_mime_unit r0 ≡ o
      → HeadOk s (do
        (kind, r1) ← o
        r2 ← strip (text "/") r1
        (subtype, r3) ← plus_run is_mime_unit r2
        r4 ← strip (text ";base64,") r3
        some (record { kind = kind; subtype = subtype }, r4))
  at_second r0 none a b = tt
  at_second r0 (some (kind, r1)) a b = at_third r0 kind r1 (strip (text "/") r1) a b refl

  at_first :
      (o : Option Text)
      → strip (text "data:") s ≡ o
      → HeadOk s (do
        r0 ← o
        (kind, r1) ← plus_run is_mime_unit r0
        r2 ← strip (text "/") r1
        (subtype, r3) ← plus_run is_mime_unit r2
        r4 ← strip (text ";base64,") r3
        some (record { kind = kind; subtype = subtype }, r4))
  at_first none a = tt
  at_first (some r0) a = at_second r0 (plus_run is_mime_unit r0) a refl

  pub uri_head-HeadOk : HeadOk s (uri_head s)
  unfolding uri_head
  uri_head-HeadOk = at_first (strip (text "data:") s) refl

pub Head-uri_head : {s : Text} {m : Mime} {r : Text} → Head s m r → uri_head s ≡ some (m, r)
unfolding uri_head
Head-uri_head h = rw (h.at_data, h.at_kind, h.at_slash, h.at_subtype, h.at_base64) refl

pub strip-append : (w s : Text) → strip w (w ++ s) ≡ some s
unfolding strip
strip-append [] s = refl
strip-append (d ∷ w) s = let here : (d == d) ≡ true = ground arith in rw here (strip-append w s)

pub strip-eq : (w s r : Text) → strip w s ≡ some r → s ≡ w ++ r
unfolding strip
strip-eq [] s r h = cc
strip-eq (d ∷ w) [] r h = absurd (ground arith)
strip-eq (d ∷ w) (c ∷ s) r h = elim (Bool-cases (c == d)) [
  | inl e ↦
      let more : strip w s ≡ some r = ground arith in
      let here : c ≡ d = ground arith in rw (here, strip-eq w s r more) refl
  | inr e ↦ absurd (ground arith)
]

-- A text that does not go on with the class.
abbrev pub Stops : (ℕ → Bool) → Text → Type 0
Stops p [] = Unit
Stops p (c ∷ s) = p c ≡ false

span-append :
    (p : ℕ → Bool) (run s : Text)
    → All (λ c. p c ≡ true) run
    → Stops p s
    → span p (run ++ s) ≡ (run, s)
unfolding span
span-append p [] [] h k = refl
span-append p [] (c ∷ s) h k = rw k refl
span-append p (c ∷ run) s (h, hs) k = rw (h, span-append p run s hs k) refl

span-Run :
    (p : ℕ → Bool) (s : Text)
    → (s ≡ (span p s).0 ++ (span p s).1) × All (λ c. p c ≡ true) (span p s).0 × Stops p (span p s).1
unfolding span
span-Run p [] = (refl, tt, tt)
span-Run p (c ∷ s) = elim (Bool-cases (p c)) [
  | inl more ↦ let (e, a, k) = span-Run p s in rw more (ap (λ t. c ∷ t) e, (more, a), k)
  | inr stop ↦ rw stop (refl, tt, stop)
]

abbrev pub Nonempty : Text → Type 0
Nonempty [] = ⊥
Nonempty (c ∷ s) = Unit

-- A run: its units are of the class, and it ends where they do.
pub record Run (p : ℕ → Bool) (s run rest : Text) : Type 0 where
  pub whole : s ≡ run ++ rest
  pub units : All (λ c. p c ≡ true) run
  pub full : Nonempty run
  pub ended : Stops p rest

pub plus_run-Run :
    (p : ℕ → Bool) (s run rest : Text) → plus_run p s ≡ some (run, rest) → Run p s run rest
unfolding plus_run
plus_run-Run p s run rest h = go (span p s) (span-Run p s) h
  where
    go :
        (t : Text × Text)
        → (s ≡ t.0 ++ t.1) × All (λ c. p c ≡ true) t.0 × Stops p t.1
        → full_run t ≡ some (run, rest)
        → Run p s run rest
    go ([], r) k e = absurd (ground arith)
    go (c ∷ a, r) (w, u, k) e =
        let same_run : c ∷ a ≡ run = ground arith in
        let same_rest : r ≡ rest = ground arith in
        record {
          whole = rw (← same_run, ← same_rest) w;
          units = rw (← same_run) u;
          full = rw (← same_run) tt;
          ended = rw (← same_rest) k;
        }

pub Run-plus_run :
    (p : ℕ → Bool) (run rest : Text)
    → All (λ c. p c ≡ true) run
    → Nonempty run
    → Stops p rest
    → plus_run p (run ++ rest) ≡ some (run, rest)
unfolding plus_run
Run-plus_run p [] rest u f k = absurd f
Run-plus_run p (c ∷ run) rest u f k = ap full_run (span-append p (c ∷ run) rest u k)
