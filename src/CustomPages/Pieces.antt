-- ===== src/CustomPages/Pieces.antt =====
-- The pieces of a document that the first pattern finds: they spell the document, and each is as
-- the pattern says.
use megoo_pm.Prelude.{
  ℕ, zero, suc, ◌+◌, ◌≤◌, ◌≡◌, refl, sym, ap, subst, ◌∙◌, Option, none, some, List, [], ◌∷◌, ◌++◌,
  length, length-append, arith,
}
use megoo_pm.Text.{Text, text}
use megoo_pm.CustomPages.Uris.{is_base64_unit, Hit, match_uri, Piece, lit, hit, pieces_of, scan}
use megoo_pm.CustomPages.Images.{uri_text}
use megoo_pm.CustomPages.Reading.{Stops}
use megoo_pm.CustomPages.Printing.{IsMime, MatchOk, match_uri-MatchOk}

-- The document that pieces spell.
unfoldable pub flat : List Piece → Text
flat [] = []
flat (lit c ∷ ps) = c ∷ flat ps
flat (hit h ∷ ps) = uri_text h ++ flat ps

-- What a scan finds: no match starts at a literal, and a match is as long as it can be.
unfoldable pub Scanned : List Piece → Type 0
Scanned [] = Unit
Scanned (lit c ∷ ps) = (match_uri (c ∷ flat ps) ≡ none) × Scanned ps
Scanned (hit h ∷ ps) = IsMime h.mime × Stops is_base64_unit (flat ps) × Scanned ps

shorter : (h : Hit) (s rest : Text) → s ≡ uri_text h ++ rest → length rest + 1 ≤ length s
unfolding text
shorter h s rest e = let sized = ap length e ∙ length-append (uri_text h) rest in omega arith

pub scan-Scanned :
    (fuel : ℕ) (s : Text)
    → length s ≤ fuel
    → Scanned (scan match_uri fuel s) × (flat (scan match_uri fuel s) ≡ s)
unfolding scan flat Scanned
scan-Scanned zero [] h = (tt, refl)
scan-Scanned zero (c ∷ s) h = absurd (omega arith)
scan-Scanned (suc fuel) [] h = (tt, refl)
scan-Scanned (suc fuel) (c ∷ s) h =
    go (scan-Scanned fuel) (match_uri (c ∷ s)) refl (match_uri-MatchOk (c ∷ s))
  where
    go :
        ((t : Text)
          → length t ≤ fuel
          → Scanned (scan match_uri fuel t) × (flat (scan match_uri fuel t) ≡ t))
        → (o : Option (Hit × Text)) → match_uri (c ∷ s) ≡ o
        → MatchOk (c ∷ s) o
        → Scanned (pieces_of (scan match_uri fuel) c s o)
          × (flat (pieces_of (scan match_uri fuel) c s o) ≡ c ∷ s)
    go more none e k =
        let (ok, spelt) = more s (omega arith) in
        ((ap (λ t. match_uri (c ∷ t)) spelt ∙ e, ok), ap (λ t. c ∷ t) spelt)
    go more (some (found, rest)) e (whole, mime, stops) =
        let (ok, spelt) = more rest (let l = shorter found (c ∷ s) rest whole in omega arith) in
        (
          (mime, subst (Stops is_base64_unit) (sym spelt) stops, ok),
          ap (λ t. uri_text found ++ t) spelt ∙ sym whole,
        )
