-- ===== src/Events/Chunks.antt =====
-- A chunk boundary can fall anywhere.
use megoo_pm.Prelude.{
  ℕ, zero, suc, ◌≤◌, ◌≡◌, refl, sym, ap, ◌∙◌, false, Option, none, some, List, [], ◌∷◌, ◌++◌,
  append_assoc, append-nil, map, length, arith,
}
use megoo_pm.Text.{Text}
use megoo_pm.Events.{
  cut, and_on, after, parse_frames, types_of_lines, lines_of, Subscription, Happening, chunk,
  reading, happen, history, read,
}
use megoo_pm.Events.Frames.{cut-Extends, Extends, Within, cut_short, parse_frames-cut}

-- A chunk whose callbacks leave the subscription as it is
abbrev pub kept : Text → Happening
kept value = chunk value false

abbrev pub joined : List Text → Text
joined [] = []
joined (c ∷ cs) = c ++ joined cs

module _ (type_of : Text → Option Text) where
  -- The types of both parts, and the rest of the second.
  abbrev pub both : List Text → List Text × Text → List Text × Text
  both types found = (types ++ found.0, found.1)

  abbrev types_in : Text → List Text
  types_in b = (parse_frames type_of b).0

  abbrev rest_of : Text → Text
  rest_of b = (parse_frames type_of b).1

  abbrev Splits : Text → Text → Type 0
  Splits b more =
      parse_frames type_of (b ++ more)
      ≡ both (types_in b) (parse_frames type_of (rest_of b ++ more))

  Splits-of_cut :
      (b more : Text) (o : Option (Text × Text)) (n : ℕ)
      → cut b ≡ o
      → Within (suc n) o
      → Extends more o (cut (b ++ more))
      → ((r : Text) → length r ≤ n → Splits r more)
      → Splits b more
  Splits-of_cut b more none n e w x ih =
      let whole : parse_frames type_of b ≡ ([], b) =
        parse_frames-cut type_of b ∙ ap (and_on type_of (parse_frames type_of) b) e in
      ap (λ p. both p.0 (parse_frames type_of (p.1 ++ more))) (sym whole)
  Splits-of_cut b more (some (frame, rest)) n e w x ih =
      let first : parse_frames type_of b ≡ after type_of frame (parse_frames type_of rest) =
        parse_frames-cut type_of b ∙ ap (and_on type_of (parse_frames type_of) b) e in
      let longer : parse_frames type_of (b ++ more)
          ≡ after type_of frame (parse_frames type_of (rest ++ more)) =
        parse_frames-cut type_of (b ++ more)
        ∙ ap (and_on type_of (parse_frames type_of) (b ++ more)) x in
      longer
      ∙ ap (after type_of frame) (ih rest (omega arith))
      ∙ ap (λ ts. (ts, (parse_frames type_of (rest_of rest ++ more)).1))
          (sym (
            append_assoc (types_of_lines type_of (lines_of frame)) (types_in rest)
              (types_in (rest_of rest ++ more))))
      ∙ ap (λ p. both p.0 (parse_frames type_of (p.1 ++ more))) (sym first)

  nothing : parse_frames type_of [] ≡ ([], [])
  unfolding cut
  nothing = parse_frames-cut type_of []

  splits : (n : ℕ) (b more : Text) → length b ≤ n → Splits b more
  splits zero [] more h = ap (λ p. both p.0 (parse_frames type_of (p.1 ++ more))) (sym nothing)
  splits zero (c ∷ b) more h = absurd (omega arith)
  splits (suc n) b more h =
      Splits-of_cut b more (cut b) n refl (cut_short type_of b (suc n) h) (cut-Extends b more)
        (λ r le. splits n r more le)

  -- The frames of a text and the text after it are those of the text, and then those of what it
  -- leaves with the text after it.
  frames-append : (b more : Text) → Splits b more
  frames-append b more = splits (length b) b more (omega arith)

  read_from :
      (cs : List Text) (x : Text) (s : Subscription) (seen : List Text)
      → s.phase ≡ reading
      → s.stopped ≡ false
      → s.buffer ≡ rest_of x
      → s.seen ≡ seen ++ types_in x
      → let t : Subscription = history type_of s (map kept cs) in
        (t.buffer ≡ rest_of (x ++ joined cs)) × (t.seen ≡ seen ++ types_in (x ++ joined cs))
  unfolding history
  read_from [] x s seen p u b e = rw (append-nil x) (b, e)
  read_from (c ∷ cs) x s seen p u b e =
      let one : happen type_of s (kept c) ≡ read type_of c false s =
        unfold happen in rw (p, u) refl in
      let joint = frames-append x c in
      let t : Subscription = read type_of c false s in
      let left : t.buffer ≡ rest_of (x ++ c) =
        unfold read in ap (λ v. rest_of (v ++ c)) b ∙ ap (λ p. p.1) (sym joint) in
      let found : t.seen ≡ seen ++ types_in (x ++ c) =
        unfold read in
        ap (λ v. s.seen ++ types_in (v ++ c)) b
        ∙ ap (λ v. v ++ types_in (rest_of x ++ c)) e
        ∙ append_assoc seen (types_in x) (types_in (rest_of x ++ c))
        ∙ ap (λ p. seen ++ p.0) (sym joint) in
      let still : t.phase ≡ reading = unfold read in p in
      let on : t.stopped ≡ false = unfold read in u in
      let ih = read_from cs (x ++ c) t seen still on left found in
      let moved = ap (λ v. history type_of v (map kept cs)) one in
      let whole = append_assoc x c (joined cs) in
      (
        ap (λ (v : Subscription). v.buffer) moved ∙ ih.0 ∙ ap rest_of whole,
        ap (λ (v : Subscription). v.seen) moved ∙ ih.1 ∙ ap (λ v. seen ++ types_in v) whole,
      )

-- Where no callback unsubscribes, however the stream is cut into chunks, the events seen of them,
-- and the text left over, are those of the whole text.
pub chunks-whole :
    (type_of : Text → Option Text) (chunks : List Text) (seen : List Text) (attempt openings : ℕ)
    → let s : Subscription = record {
      phase = reading;
      stopped = false;
      attempt = attempt;
      buffer = [];
      seen = seen;
      openings = openings;
    } in
      let t : Subscription = history type_of s (map kept chunks) in
      let whole : List Text × Text = parse_frames type_of (joined chunks) in
      (t.seen ≡ seen ++ whole.0) × (t.buffer ≡ whole.1)
unfolding cut
chunks-whole type_of chunks seen attempt openings =
    let start : parse_frames type_of [] ≡ ([], []) = parse_frames-cut type_of [] in
    let all =
      read_from type_of chunks []
        (record {
          phase = reading;
          stopped = false;
          attempt = attempt;
          buffer = [];
          seen = seen;
          openings = openings;
        })
        seen refl refl (sym (ap (λ p. p.1) start))
        (sym (ap (λ p. seen ++ p.0) start ∙ append-nil seen)) in
    (all.1, all.0)
