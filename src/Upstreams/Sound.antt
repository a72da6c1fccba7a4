-- ===== src/Upstreams/Sound.antt =====
-- What a submit sends.
use megoo_pm.Prelude.{
  ℕ, ◌≤◌, ◌≡◌, refl, Bool, true, false, not, Option, none, some, any, if◌then◌else◌, arith,
}
use megoo_pm.Text.{Text, is_empty, is_space, trim}
use megoo_pm.Number.{ℤ, pos, negsuc, parse_int}
use megoo_pm.Upstreams.{
  BackendRow, BackendCreate, row_to_create, is_port_number, is_natural, validate_row,
}

-- A backend that the API takes.
pub record IsSent (f : BackendCreate) : Type 0 where
  pub named : is_empty f.host ≡ false
  pub solid : any is_space f.host ≡ false
  pub port_ok : (n : ℕ) × (f.port ≡ some (pos n)) × (1 ≤ n) × (n ≤ 65535)
  pub weight_ok : is_natural f.weight ≡ true
  pub max_fails_ok : is_natural f.max_fails ≡ true
  pub fail_timeout_ok : is_natural f.fail_timeout ≡ true

port_of :
    (o : Option ℤ) → is_port_number o ≡ true → (n : ℕ) × (o ≡ some (pos n)) × (1 ≤ n) × (n ≤ 65535)
port_of none h = absurd (ground arith)
port_of (some (pos n)) h = (n, refl, ground arith, ground arith)
port_of (some (negsuc n)) h = absurd (ground arith)

-- The checks of a row, in their order
checked :
    (a b c d e f : Bool) (m1 m2 m3 m4 m5 m6 : Text)
    → (if a
        then some m1
        else if b
        then some m2
        else if not c
        then some m3
        else if not d
        then some m4
        else if not e
        then some m5
        else if not f
        then some m6
        else none)
      ≡ none
    → (a ≡ false) × (b ≡ false) × (c ≡ true) × (d ≡ true) × (e ≡ true) × (f ≡ true)
checked true b c d e f m1 m2 m3 m4 m5 m6 h = absurd (ground arith)
checked false true c d e f m1 m2 m3 m4 m5 m6 h = absurd (ground arith)
checked false false false d e f m1 m2 m3 m4 m5 m6 h = absurd (ground arith)
checked false false true false e f m1 m2 m3 m4 m5 m6 h = absurd (ground arith)
checked false false true true false f m1 m2 m3 m4 m5 m6 h = absurd (ground arith)
checked false false true true true false m1 m2 m3 m4 m5 m6 h = absurd (ground arith)
checked false false true true true true m1 m2 m3 m4 m5 m6 h = (refl, refl, refl, refl, refl, refl)

-- A row without a problem is sent with a host that is not empty and has no space, a port from 1 to
-- 65535, and natural numbers for the rest.
validate_row-IsSent : (row : BackendRow) → validate_row row ≡ none → IsSent (row_to_create row)
unfolding validate_row row_to_create
validate_row-IsSent row h =
    let (named, solid, port, weight, max_fails, timeout) =
      checked (is_empty (trim row.host)) (any is_space (trim row.host))
        (is_port_number (parse_int row.port)) (is_natural (parse_int row.weight))
        (is_natural (parse_int row.max_fails)) (is_natural (parse_int row.fail_timeout)) _ _ _ _ _ _
        h in
    record {
      named = named;
      solid = solid;
      port_ok = port_of (parse_int row.port) port;
      weight_ok = weight;
      max_fails_ok = max_fails;
      fail_timeout_ok = timeout;
    }
