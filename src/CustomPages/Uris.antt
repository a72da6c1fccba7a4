-- ===== src/CustomPages/Uris.antt =====
-- The two patterns of the image round trip, and `replace` with a global pattern: the pieces of a
-- document, from left to right. Each class ends before the character that follows it in the
-- pattern, so the longest run is the only match.
use megoo_pm.Prelude.{
  ℕ, zero, suc, Bool, ◌||◌, ◌&&◌, Option, none, some, List, [], ◌∷◌, ◌++◌, leb, ◌==◌, if◌then◌else◌,
  length,
}
use megoo_pm.Text.{Text, text}
use megoo_pm.Number.{is_digit}

-- `[\w.+-]`
unfoldable pub is_mime_unit : ℕ → Bool
is_mime_unit c =
    is_digit c
    || (leb b'a' c && leb c b'z')
    || (leb b'A' c && leb c b'Z')
    || c == b'_'
    || c == b'.'
    || c == b'+'
    || c == b'-'

-- `[A-Za-z0-9+/=]`
unfoldable pub is_base64_unit : ℕ → Bool
is_base64_unit c =
    is_digit c
    || (leb b'a' c && leb c b'z')
    || (leb b'A' c && leb c b'Z')
    || c == b'+'
    || c == b'/'
    || c == b'='

-- What is left after a literal
unfoldable pub strip : Text → Text → Option Text
strip [] s = some s
strip (d ∷ w) [] = none
strip (d ∷ w) (c ∷ s) = if c == d then strip w s else none

abbrev pub onto_run : ℕ → Text × Text → Text × Text
onto_run c (run, rest) = (c ∷ run, rest)

-- The longest run of a class, and what follows it.
unfoldable pub span : (ℕ → Bool) → Text → Text × Text
span p [] = ([], [])
span p (c ∷ s) = let further = onto_run c (span p s) in if p c then further else ([], c ∷ s)

-- A run of at least one
abbrev pub full_run : Text × Text → Option (Text × Text)
full_run ([], rest) = none
full_run (c ∷ run, rest) = some (c ∷ run, rest)

unfoldable pub plus_run : (ℕ → Bool) → Text → Option (Text × Text)
plus_run p s = full_run (span p s)

infixl 5 ◌>>=◌
abbrev pub ◌>>=◌ {ℓ κ} : {A : Type ℓ} {B : Type κ} → Option A → (A → Option B) → Option B
none >>= f = none
some a >>= f = f a

pub record Mime : Type 0 where
  pub kind : Text
  pub subtype : Text

abbrev pub mime_text : Mime → Text
mime_text m = m.kind ++ text "/" ++ m.subtype

-- `data:([\w.+-]+\/[\w.+-]+);base64,`
unfoldable pub uri_head : Text → Option (Mime × Text)
uri_head s = do
  r0 ← strip (text "data:") s
  (kind, r1) ← plus_run is_mime_unit r0
  r2 ← strip (text "/") r1
  (subtype, r3) ← plus_run is_mime_unit r2
  r4 ← strip (text ";base64,") r3
  some (record { kind = kind; subtype = subtype }, r4)

-- A match, and what follows it: the type, and the payload or the index.
pub record Hit : Type 0 where
  pub mime : Mime
  pub body : Text

unfoldable pub match_uri : Text → Option (Hit × Text)
match_uri s = do
  (m, r) ← uri_head s
  (payload, rest) ← plus_run is_base64_unit r
  some (record { mime = m; body = payload }, rest)

unfoldable pub match_placeholder : Text → Option (Hit × Text)
match_placeholder s = do
  (m, r) ← uri_head s
  r1 ← strip (text "MEGOOPM_IMAGE_") r
  (index, rest) ← plus_run is_digit r1
  some (record { mime = m; body = index }, rest)

pub data Piece : Type 0 where
  lit : ℕ → Piece
  hit : Hit → Piece

-- A match goes on after its end, and a place without one is kept. The fuel is the length.
abbrev pub pieces_of : (Text → List Piece) → ℕ → Text → Option (Hit × Text) → List Piece
pieces_of more c s none = lit c ∷ more s
pieces_of more c s (some (h, rest)) = hit h ∷ more rest

unfoldable pub scan : (Text → Option (Hit × Text)) → ℕ → Text → List Piece
scan match zero s = []
scan match (suc fuel) [] = []
scan match (suc fuel) (c ∷ s) = pieces_of (scan match fuel) c s (match (c ∷ s))

abbrev pub pieces : (Text → Option (Hit × Text)) → Text → List Piece
pieces match s = scan match (length s) s
