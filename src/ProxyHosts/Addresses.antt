-- ===== src/ProxyHosts/Addresses.antt =====
-- `isIpOrCidr`: the entries that bypass maintenance.
use megoo_pm.Prelude.{
  ℕ, Bool, true, false, not, ◌&&◌, ◌||◌, Option, none, some, List, [], ◌∷◌, leb, ltb, ◌==◌,
  if◌then◌else◌, all, length,
}
use megoo_pm.Text.{Text, text, trim, includes, is_empty}
use megoo_pm.Number.{is_digit, value_from}
use megoo_pm.Regex.{Regex, cls, seq, upto, plus, test}

abbrev onto_first : ℕ → List Text → List Text
onto_first c [] = (c ∷ []) ∷ []
onto_first c (piece ∷ pieces) = (c ∷ piece) ∷ pieces

-- `s.split(c)` at one unit
unfoldable pub split_at : ℕ → Text → List Text
split_at sep [] = [] ∷ []
split_at sep (c ∷ s) = if c == sep then [] ∷ split_at sep s else onto_first c (split_at sep s)

-- `^\d{1,3}$`
abbrev pub short_number_re : Regex
short_number_re = seq (cls is_digit) (upto 2 (cls is_digit))

-- `[0-9a-fA-F:]`
abbrev pub is_v6_unit : ℕ → Bool
is_v6_unit c = is_digit c || (leb b'a' c && leb c b'f') || (leb b'A' c && leb c b'F') || c == b':'

-- `Number(s)` of a text of digits
abbrev pub digits_number : Text → ℕ
digits_number s = value_from 0 s

unfoldable pub is_octet : Text → Bool
is_octet octet = test short_number_re octet && leb (digits_number octet) 255

abbrev max_prefix : Bool → ℕ
max_prefix v6 = if v6 then 128 else 32

-- `prefix !== undefined` and its two tests
unfoldable pub prefix_ok : Bool → Option Text → Bool
prefix_ok v6 none = true
prefix_ok v6 (some prefix) =
    if not (test short_number_re prefix)
    then false
    else if ltb (max_prefix v6) (digits_number prefix)
    then false
    else true

unfoldable pub address_ok : Text → Bool
unfolding is_octet
address_ok address =
    if includes address (text ":")
    then test (plus (cls is_v6_unit)) address && not (includes address (text ":::"))
    else let octets = split_at b'.' address in length octets == 4 && all is_octet octets

unfoldable pub parts_ok : List Text → Bool
unfolding prefix_ok address_ok
parts_ok [] = false
parts_ok (address ∷ []) = prefix_ok (includes address (text ":")) none && address_ok address
parts_ok (address ∷ prefix ∷ []) =
    prefix_ok (includes address (text ":")) (some prefix) && address_ok address
parts_ok (address ∷ prefix ∷ more ∷ rest) = false

unfoldable pub is_ip_or_cidr : Text → Bool
unfolding parts_ok
is_ip_or_cidr entry =
    let value = trim entry in if is_empty value then false else parts_ok (split_at b'/' value)
