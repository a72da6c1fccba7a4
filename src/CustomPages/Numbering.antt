-- ===== src/CustomPages/Numbering.antt =====
-- The elided document, scanned for placeholders: they are the ones that were put in, in order.
use megoo_pm.Prelude.{
  ℕ, zero, suc, ◌+◌, ◌≤◌, ◌≡◌, refl, ap, ◌∙◌, inl, inr, false, Bool-cases, none, some, List, [],
  ◌∷◌, ◌++◌, length, length-append, arith,
}
use megoo_pm.Text.{Text, text}
use megoo_pm.Number.{is_digit, number_text}
use megoo_pm.CustomPages.Uris.{
  is_base64_unit, Hit, match_placeholder, Piece, lit, hit, pieces_of, scan,
}
use megoo_pm.CustomPages.Images.{placeholder, elided_from}
use megoo_pm.CustomPages.Agreement.{Agree, ends, same_unit, marked}
use megoo_pm.CustomPages.Crossing.{data_mark, match_placeholder-none}
use megoo_pm.CustomPages.Reading.{Stops}
use megoo_pm.CustomPages.Printing.{match_placeholder-some}
use megoo_pm.CustomPages.Pieces.{flat, Scanned}

-- The images of a document, numbered from `k` on.
unfoldable pub numbered : ℕ → List Piece → List Piece
numbered k [] = []
numbered k (lit c ∷ ps) = lit c ∷ numbered k ps
numbered k (hit h ∷ ps) = hit (record h { body = number_text k }) ∷ numbered (k + 1) ps

elided-Agree : (k : ℕ) (ps : List Piece) → Agree data_mark (elided_from k ps) (flat ps)
unfolding elided_from flat text
elided-Agree k [] = ends
elided-Agree k (lit c ∷ ps) = same_unit (elided-Agree k ps)
elided-Agree k (hit h ∷ ps) = marked _ _ refl refl

digit_is_base64 : (c : ℕ) → is_base64_unit c ≡ false → is_digit c ≡ false
unfolding is_base64_unit
digit_is_base64 c h = elim (Bool-cases (is_digit c)) [ inl e ↦ absurd (ground arith) | inr e ↦ e ]

elided-Stops :
    (k : ℕ) (ps : List Piece) → Stops is_base64_unit (flat ps) → Stops is_digit (elided_from k ps)
unfolding elided_from flat text
elided-Stops k [] h = tt
elided-Stops k (lit c ∷ ps) h = digit_is_base64 c h
elided-Stops k (hit found ∷ ps) h = refl

scan-lit :
    (fuel : ℕ) (c : ℕ) (s : Text)
    → match_placeholder (c ∷ s) ≡ none
    → scan match_placeholder (suc fuel) (c ∷ s) ≡ lit c ∷ scan match_placeholder fuel s
unfolding scan
scan-lit fuel c s e = ap (pieces_of (scan match_placeholder fuel) c s) e

scan-hit :
    (fuel : ℕ) (s rest : Text) (h found : Hit) (k : ℕ)
    → match_placeholder (placeholder h k ++ s) ≡ some (found, rest)
    → scan match_placeholder (suc fuel) (placeholder h k ++ s)
      ≡ hit found ∷ scan match_placeholder fuel rest
unfolding scan text
scan-hit fuel s rest h found k e = ap (pieces_of (scan match_placeholder fuel) _ _) e

placeholder-length : (h : Hit) (k : ℕ) (s : Text) → suc (length s) ≤ length (placeholder h k ++ s)
unfolding text
placeholder-length h k s = let sized = length-append (placeholder h k) s in omega arith

pub scan-elided :
    (fuel k : ℕ) (ps : List Piece)
    → length (elided_from k ps) ≤ fuel
    → Scanned ps
    → scan match_placeholder fuel (elided_from k ps) ≡ numbered k ps
unfolding elided_from numbered Scanned
scan-elided zero k [] h ok = unfold scan in refl
scan-elided (suc fuel) k [] h ok = unfold scan in refl
scan-elided zero k (lit c ∷ ps) h ok = absurd (omega arith)
scan-elided (suc fuel) k (lit c ∷ ps) h (free, ok) =
    let missed = match_placeholder-none c (elided_from k ps) (flat ps) (elided-Agree k ps) free in
    scan-lit fuel c (elided_from k ps) missed
    ∙ ap (λ more. lit c ∷ more) (scan-elided fuel k ps (omega arith) ok)
scan-elided zero k (hit found ∷ ps) h ok =
    absurd (let long = placeholder-length found k (elided_from (k + 1) ps) in omega arith)
scan-elided (suc fuel) k (hit found ∷ ps) h (mime, stops, ok) =
    let long = placeholder-length found k (elided_from (k + 1) ps) in
    scan-hit fuel _ _ found _ k
      (match_placeholder-some found k (elided_from (k + 1) ps) mime (elided-Stops (k + 1) ps stops))
    ∙ ap (λ more. hit (record found { body = number_text k }) ∷ more)
        (scan-elided fuel (k + 1) ps (omega arith) ok)
