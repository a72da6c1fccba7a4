-- ===== src/Events/Frames.antt =====
-- What a turn of the loop cuts off, and that the fuel is enough.
use megoo_pm.Prelude.{
  ℕ, zero, suc, ◌+◌, ◌≤◌, ◌≡◌, refl, ap, ◌∙◌, true, false, Bool-cases, inl, inr, ◌&&◌, Option, none,
  some, List, [], ◌∷◌, ◌++◌, length, min, ◌==◌, arith,
}
use megoo_pm.Text.{Text}
use megoo_pm.Events.{onto_frame, cut, and_on, after, frames_loop, parse_frames}

cut-hit : (c d : ℕ) (s : Text) → (c == 10 && d == 10) ≡ true → cut (c ∷ d ∷ s) ≡ some ([], s)
unfolding cut
cut-hit c d s h = rw h refl

cut-miss :
    (c d : ℕ) (s : Text)
    → (c == 10 && d == 10) ≡ false
    → cut (c ∷ d ∷ s) ≡ onto_frame c (cut (d ∷ s))
unfolding cut
cut-miss c d s h = rw h refl

-- A cut leaves a shorter rest, at least by the two newlines.
abbrev pub Within : ℕ → Option (Text × Text) → Type 0
Within n none = Unit
Within n (some (frame, rest)) = length rest + 2 ≤ n

onto_frame-Within :
    (c n : ℕ) (o : Option (Text × Text)) → Within n o → Within (suc n) (onto_frame c o)
onto_frame-Within c n none h = tt
onto_frame-Within c n (some (frame, rest)) h = omega arith

cut-Within : (b : Text) → Within (length b) (cut b)
cut-Within [] = unfold cut in tt
cut-Within (c ∷ []) = unfold cut in tt
cut-Within (c ∷ d ∷ s) = elim (Bool-cases (c == 10 && d == 10)) [
  | inl e ↦ rw (cut-hit c d s e) (omega arith)
  | inr e ↦
      rw (cut-miss c d s e)
        (onto_frame-Within c (length (d ∷ s)) (cut (d ∷ s)) (cut-Within (d ∷ s)))
]

-- More text after a cut goes to the rest.
abbrev pub Extends : Text → Option (Text × Text) → Option (Text × Text) → Type 0
Extends more none o = Unit
Extends more (some (frame, rest)) o = o ≡ some (frame, rest ++ more)

onto_frame-Extends :
    (c : ℕ) (more : Text) (o p : Option (Text × Text))
    → Extends more o p
    → Extends more (onto_frame c o) (onto_frame c p)
onto_frame-Extends c more none p h = tt
onto_frame-Extends c more (some (frame, rest)) p h = ap (onto_frame c) h

pub cut-Extends : (b more : Text) → Extends more (cut b) (cut (b ++ more))
cut-Extends [] more = unfold cut in tt
cut-Extends (c ∷ []) more = unfold cut in tt
cut-Extends (c ∷ d ∷ s) more = elim (Bool-cases (c == 10 && d == 10)) [
  | inl e ↦ rw (cut-hit c d s e) (cut-hit c d (s ++ more) e)
  | inr e ↦
      rw (cut-miss c d s e, cut-miss c d (s ++ more) e)
        (onto_frame-Extends c more (cut (d ∷ s)) (cut (d ∷ s ++ more)) (cut-Extends (d ∷ s) more))
]

module _ (type_of : Text → Option Text) where
  and_on_congr :
      (f g : Text → List Text × Text) (b : Text) (o : Option (Text × Text)) (n : ℕ)
      → Within (suc n) o
      → ((r : Text) → length r ≤ n → f r ≡ g r)
      → and_on type_of f b o ≡ and_on type_of g b o
  and_on_congr f g b none n h k = refl
  and_on_congr f g b (some (frame, rest)) n h k = ap (after type_of frame) (k rest (omega arith))

  pub cut_short : (b : Text) (n : ℕ) → length b ≤ n → Within n (cut b)
  cut_short b n h = go (cut b) (cut-Within b)
    where
      go : (o : Option (Text × Text)) → Within (length b) o → Within n o
      go none k = tt
      go (some (frame, rest)) k = omega arith

  frames_loop_enough :
      (n m : ℕ) (b : Text)
      → length b ≤ n
      → length b ≤ m
      → frames_loop type_of n b ≡ frames_loop type_of m b
  unfolding frames_loop cut
  frames_loop_enough zero zero b h k = refl
  frames_loop_enough zero (suc m) [] h k = refl
  frames_loop_enough (suc n) zero [] h k = refl
  frames_loop_enough zero (suc m) (c ∷ b) h k = absurd (omega arith)
  frames_loop_enough (suc n) zero (c ∷ b) h k = absurd (omega arith)
  frames_loop_enough (suc n) (suc m) b h k =
      and_on_congr (frames_loop type_of n) (frames_loop type_of m) b (cut b) (min n m)
        (cut_short b (suc (min n m)) (omega arith))
        (λ r le. frames_loop_enough n m r (omega arith) (omega arith))

  -- The loop as the code writes it: the fuel does not show.
  pub parse_frames-cut :
      (b : Text) → parse_frames type_of b ≡ and_on type_of (parse_frames type_of) b (cut b)
  unfolding parse_frames frames_loop
  parse_frames-cut b =
      frames_loop_enough (length b) (suc (length b)) b (omega arith) (omega arith)
      ∙ and_on_congr (frames_loop type_of (length b)) (parse_frames type_of) b (cut b) (length b)
          (cut_short b (suc (length b)) (omega arith))
          (λ r le. frames_loop_enough (length b) (length r) r le (omega arith))
