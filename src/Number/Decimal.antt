-- ===== src/Number/Decimal.antt =====
-- A printed number parses back.
use megoo_pm.Prelude.{
  ℕ, zero, suc, ◌+◌, ◌-◌, ◌*◌, ◌/◌, ◌%◌, ◌<◌, ◌≡◌, refl, sym, ap, ◌∙◌, true, false, Bool-cases, inl,
  inr, some, [], ◌∷◌, ◌++◌, append_assoc, append-nil, arith, ltb, All, All-append, All-mono,
}
use megoo_pm.Text.{Text, same, is_empty, is_space, trim_start}
use megoo_pm.Text.Trim.{IsTrimmed, trim_of_solid}
use megoo_pm.Number.{pos, is_digit, value_from, unsigned, parse_int, digits, number_text}

digits-small : (fuel n : ℕ) → ltb n 10 ≡ true → digits (suc fuel) n ≡ (48 + n) ∷ []
unfolding digits
digits-small fuel n h = rw (h, digits)

digits-large :
    (fuel n : ℕ)
    → ltb n 10 ≡ false
    → digits (suc fuel) n ≡ digits fuel (n / 10) ++ (48 + n % 10) ∷ []
unfolding digits
digits-large fuel n h = rw (h, digits)

value_from-digit :
    (a d : ℕ) (r : Text) → d < 10 → value_from a ((48 + d) ∷ r) ≡ value_from (a * 10 + d) r
unfolding value_from
value_from-digit a d r k =
    let e : 48 + d - 48 ≡ d = omega arith in
    let yes_digit : is_digit (48 + d) ≡ true = ground arith in rw (yes_digit, e) refl

digits-value :
    (fuel n : ℕ) (rest : Text) → n < fuel → value_from 0 (digits fuel n ++ rest) ≡ value_from n rest
digits-value zero n rest h = absurd (omega arith)
digits-value (suc fuel) n rest h = elim (Bool-cases (ltb n 10)) [
  | inl small ↦
      ap (λ s. value_from 0 (s ++ rest)) (digits-small fuel n small)
      ∙ value_from-digit 0 n rest (ground arith)
      ∙ ap (λ m. value_from m rest) (omega arith)
  | inr large ↦
      ap (λ s. value_from 0 (s ++ rest)) (digits-large fuel n large)
      ∙ ap (value_from 0) (append_assoc (digits fuel (n / 10)) ((48 + n % 10) ∷ []) rest)
      ∙ digits-value fuel (n / 10) ((48 + n % 10) ∷ rest) (ground arith)
      ∙ value_from-digit (n / 10) (n % 10) rest (omega arith)
      ∙ ap (λ m. value_from m rest) (omega arith)
]

abbrev StartsDigit : Text → Type 0
StartsDigit [] = ⊥
StartsDigit (c ∷ s) = is_digit c ≡ true

StartsDigit-append : (s t : Text) → StartsDigit s → StartsDigit (s ++ t)
StartsDigit-append [] t h = absurd h
StartsDigit-append (c ∷ s) t h = h

digits-StartsDigit : (fuel n : ℕ) → n < fuel → StartsDigit (digits fuel n)
digits-StartsDigit zero n h = absurd (omega arith)
digits-StartsDigit (suc fuel) n h = elim (Bool-cases (ltb n 10)) [
  | inl small ↦ rw (digits-small fuel n small) (ground arith)
  | inr large ↦
      rw (digits-large fuel n large)
        (StartsDigit-append _ _ (digits-StartsDigit fuel (n / 10) (ground arith)))
]

parse_of_StartsDigit : (s : Text) → StartsDigit s → parse_int s ≡ some (pos (value_from 0 s))
unfolding parse_int is_space trim_start unsigned
parse_of_StartsDigit [] h = absurd h
parse_of_StartsDigit (c ∷ s) h = ground arith

value_from-nil : (n : ℕ) → value_from n [] ≡ n
unfolding value_from
value_from-nil n = refl

-- The digits of a number have its value.
pub value_from-number_text : (n : ℕ) → value_from 0 (number_text n) ≡ n
unfolding number_text
value_from-number_text n =
    ap (value_from 0) (sym (append-nil (digits (suc n) n)))
    ∙ digits-value (suc n) n [] (omega arith)
    ∙ value_from-nil n

-- Parsing the decimal form of a number gives the number.
pub parse_int-number_text : (n : ℕ) → parse_int (number_text n) ≡ some (pos n)
unfolding number_text
parse_int-number_text n =
    parse_of_StartsDigit _ (digits-StartsDigit (suc n) n (omega arith))
    ∙ ap (λ m. some (pos m))
        (ap (value_from 0) (sym (append-nil (digits (suc n) n)))
          ∙ digits-value (suc n) n [] (omega arith)
          ∙ value_from-nil n)

digits-All : (fuel n : ℕ) → n < fuel → All (λ c. is_digit c ≡ true) (digits fuel n)
digits-All zero n h = absurd (omega arith)
digits-All (suc fuel) n h = elim (Bool-cases (ltb n 10)) [
  | inl small ↦ rw (digits-small fuel n small) (ground arith, tt)
  | inr large ↦ rw (digits-large fuel n large) (
      All-append _ (digits fuel (n / 10)) _ (digits-All fuel (n / 10) (ground arith))
        (ground arith, tt))
]

pub number_text-All : (n : ℕ) → All (λ c. is_digit c ≡ true) (number_text n)
unfolding number_text
number_text-All n = digits-All (suc n) n (omega arith)

digit_solid : (c : ℕ) → is_digit c ≡ true → is_space c ≡ false
unfolding is_space
digit_solid c h = ground arith

pub number_text-IsTrimmed : (n : ℕ) → IsTrimmed (number_text n)
number_text-IsTrimmed n = trim_of_solid _ (All-mono digit_solid (number_text n) (number_text-All n))

number_text-StartsDigit : (n : ℕ) → StartsDigit (number_text n)
unfolding number_text
number_text-StartsDigit n = digits-StartsDigit (suc n) n (omega arith)

-- A number does not print as a text that starts with another character than a digit.
pub number_text-ne :
    (n c : ℕ) (s : Text) → is_digit c ≡ false → same (number_text n) (c ∷ s) ≡ false
number_text-ne n c s h = go (number_text n) (number_text-StartsDigit n)
  where
    go : (t : Text) → StartsDigit t → same t (c ∷ s) ≡ false
    go [] k = absurd k
    go (d ∷ t) k = unfold same in ground arith

pub number_text-nonempty : (n : ℕ) → is_empty (number_text n) ≡ false
number_text-nonempty n = go (number_text n) (number_text-StartsDigit n)
  where
    go : (t : Text) → StartsDigit t → is_empty t ≡ false
    go [] k = absurd k
    go (d ∷ t) k = refl

pub number_text-injective : (n m : ℕ) → number_text n ≡ number_text m → n ≡ m
number_text-injective n m e =
    let both : some (pos n) ≡ some (pos m) =
      sym (parse_int-number_text n) ∙ ap parse_int e ∙ parse_int-number_text m in
    cc
