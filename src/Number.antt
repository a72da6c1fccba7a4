-- ===== src/Number.antt =====
-- `Number.parseInt(s, 10)` and `String(n)`, over the integers: the client's numbers are ports and
-- row ids, which JavaScript holds exactly.
pub mod Decimal
use megoo_pm.Prelude.{
  ℕ, zero, suc, ◌+◌, ◌-◌, ◌*◌, ◌/◌, ◌%◌, Bool, true, false, ◌&&◌, Option, none, some, [], ◌∷◌, ◌++◌,
  ltb, leb, ◌==◌, if◌then◌else◌,
}
use megoo_pm.Text.{Text, trim_start}

-- `negsuc n` is -(n + 1).
pub data ℤ : Type 0 where
  pos : ℕ → ℤ
  negsuc : ℕ → ℤ

abbrev pub negated : ℕ → ℤ
negated zero = pos 0
negated (suc n) = negsuc n

abbrev pub is_digit : ℕ → Bool
is_digit c = leb b'0' c && leb c b'9'

-- The digits of a prefix, after a value.
unfoldable pub value_from : ℕ → Text → ℕ
value_from acc [] = acc
value_from acc (c ∷ s) =
    let more = value_from (acc * 10 + (c - 48)) s in if is_digit c then more else acc

-- `none` is `NaN`.
unfoldable pub unsigned : Text → Option ℕ
unfolding value_from
unsigned [] = none
unsigned (c ∷ s) = if is_digit c then some (value_from 0 (c ∷ s)) else none

abbrev pub as_pos : Option ℕ → Option ℤ
as_pos none = none
as_pos (some n) = some (pos n)

abbrev pub as_neg : Option ℕ → Option ℤ
as_neg none = none
as_neg (some n) = some (negated n)

unfoldable pub signed : Text → Option ℤ
unfolding unsigned
signed [] = none
signed (c ∷ s) =
    if c == b'-'
    then as_neg (unsigned s)
    else if c == b'+'
    then as_pos (unsigned s)
    else as_pos (unsigned (c ∷ s))

unfoldable pub parse_int : Text → Option ℤ
unfolding signed
parse_int s = signed (trim_start s)

-- The fuel is above the number, so it does not run out.
digits : ℕ → ℕ → Text
digits zero n = []
digits (suc fuel) n = elim (ltb n 10) [
  | true ↦ (48 + n) ∷ []
  | false ↦ digits fuel (n / 10) ++ (48 + n % 10) ∷ []
]

unfoldable pub number_text : ℕ → Text
unfolding digits
number_text n = digits (suc n) n
