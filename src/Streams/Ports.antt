-- ===== src/Streams/Ports.antt =====
-- A port field against the ports: what it accepts, and that every port is accepted as it is printed.
use megoo_pm.Prelude.{
  ℕ, ◌≤◌, ◌≡◌, refl, Bool, true, false, ◌||◌, not, none, some, all, All, [], ◌∷◌, ltb,
  if◌then◌else◌, arith,
}
use megoo_pm.Text.{Text, trim}
use megoo_pm.Number.{is_digit, value_from, number_text}
use megoo_pm.Number.Decimal.{
  value_from-number_text, number_text-All, number_text-IsTrimmed, number_text-nonempty,
}
use megoo_pm.Streams.{is_digits, parse_port}

-- The digits of a port, with white space around them.
abbrev pub IsPortText : Text → ℕ → Type 0
IsPortText input n =
    (is_digits (trim input) ≡ true) × (value_from 0 (trim input) ≡ n) × (1 ≤ n) × (n ≤ 65535)

in_range :
    (n m : ℕ)
    → (if ltb n 1 || ltb 65535 n then none else some n) ≡ some m
    → (n ≡ m) × (1 ≤ m) × (m ≤ 65535)
in_range n m h = ground arith

range_in : (n : ℕ) → 1 ≤ n → n ≤ 65535 → (if ltb n 1 || ltb 65535 n then none else some n) ≡ some n
range_in n low high = ground arith

pub parse_port_sound : (input : Text) (n : ℕ) → parse_port input ≡ some n → IsPortText input n
unfolding parse_port
parse_port_sound input n h = go (is_digits (trim input)) refl h
  where
    go :
        (b : Bool)
        → is_digits (trim input) ≡ b
        → (if not b
            then none
            else if ltb (value_from 0 (trim input)) 1 || ltb 65535 (value_from 0 (trim input))
            then none
            else some (value_from 0 (trim input)))
          ≡ some n
        → IsPortText input n
    go false e k = absurd (ground arith)
    go true e k =
        let (value, low, high) = in_range (value_from 0 (trim input)) n k in (e, value, low, high)

parse_port_complete : (input : Text) (n : ℕ) → IsPortText input n → parse_port input ≡ some n
unfolding parse_port
parse_port_complete input n (good, value, low, high) = rw (good, value) (range_in n low high)

all_of : (s : Text) → All (λ c. is_digit c ≡ true) s → all is_digit s ≡ true
all_of [] h = refl
all_of (c ∷ s) (e, h) = rw (e, all_of s h) refl

printed : (n : ℕ) → is_digits (number_text n) ≡ true
unfolding is_digits
printed n = rw (number_text-nonempty n, all_of (number_text n) (number_text-All n)) refl

-- A port is read exactly of a text of digits, white space around them aside, whose number is from 1
-- to 65535, and each of these ports reads back from its decimal form.
pub parse_port-IsPortText :
    (input : Text) (n : ℕ)
    → ((parse_port input ≡ some n → IsPortText input n)
        × (IsPortText input n → parse_port input ≡ some n))
      × (1 ≤ n → n ≤ 65535 → parse_port (number_text n) ≡ some n)
parse_port-IsPortText input n = (
  (parse_port_sound input n, parse_port_complete input n),
  λ low high.
      parse_port_complete (number_text n) n
        (rw (number_text-IsTrimmed n) (printed n, value_from-number_text n, low, high)),
)
