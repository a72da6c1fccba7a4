-- ===== src/Upstreams.antt =====
-- frontend/src/components/upstreams/upstream-dialog.tsx: the dialog of an upstream pool, what it
-- checks and the requests that a save makes of its rows.
pub mod Requests
pub mod Patches
pub mod Saving
pub mod Effects
pub mod Reconciling
pub mod Sound
mod Tests
use megoo_pm.Prelude.{
  ℕ, zero, suc, ◌+◌, Bool, true, false, ◌||◌, ◌&&◌, not, Option, none, some, List, [], ◌∷◌, ◌++◌,
  map, filter, any, ltb, leb, ◌==◌, if◌then◌else◌,
}
use megoo_pm.Text.{Text, text, same, is_empty, is_space, trim}
use megoo_pm.Number.{ℤ, pos, negsuc, parse_int, number_text}

pub data Context : Type 0 where
  http_only streams_only both : Context

pub data LbMethod : Type 0 where
  round_robin least_conn ip_hash hash random : LbMethod

-- A field that the API left out is `none`.
pub record Backend : Type 0 where
  pub id : ℕ
  pub host : Text
  pub port : ℕ
  pub weight : Option ℕ
  pub max_fails : Option ℕ
  pub fail_timeout : Option ℕ
  pub backup : Option Bool
  pub down : Option Bool
  pub enabled : Option Bool

pub record BackendRow : Type 0 where
  pub key : Text
  pub id : Option ℕ
  pub host : Text
  pub port : Text
  pub weight : Text
  pub max_fails : Text
  pub fail_timeout : Text
  pub backup : Bool
  pub down : Bool
  pub enabled : Bool

-- `none` is `NaN`.
pub record BackendCreate : Type 0 where
  pub host : Text
  pub port : Option ℤ
  pub weight : Option ℤ
  pub max_fails : Option ℤ
  pub fail_timeout : Option ℤ
  pub backup : Bool
  pub down : Bool
  pub enabled : Bool

-- The fields that are present
pub record BackendUpdate : Type 0 where
  pub host : Option Text
  pub port : Option (Option ℤ)
  pub weight : Option (Option ℤ)
  pub max_fails : Option (Option ℤ)
  pub fail_timeout : Option (Option ℤ)
  pub backup : Option Bool
  pub down : Option Bool
  pub enabled : Option Bool

abbrev pub or_default : {A : Type 0} → Option A → A → A
or_default none d = d
or_default (some a) d = a

-- The row, and the counter of new rows.
unfoldable pub new_row : ℕ → BackendRow × ℕ
new_row seq = (
  record {
    key = text "new-" ++ number_text (seq + 1);
    id = none;
    host = [];
    port = text "80";
    weight = text "1";
    max_fails = text "1";
    fail_timeout = text "10";
    backup = false;
    down = false;
    enabled = true;
  },
  seq + 1,
)

unfoldable pub row_from_backend : Backend → BackendRow
row_from_backend b = record {
  key = text "existing-" ++ number_text b.id;
  id = some b.id;
  host = b.host;
  port = number_text b.port;
  weight = number_text (or_default b.weight 1);
  max_fails = number_text (or_default b.max_fails 1);
  fail_timeout = number_text (or_default b.fail_timeout 10);
  backup = or_default b.backup false;
  down = or_default b.down false;
  enabled = or_default b.enabled true;
}

unfoldable pub row_to_create : BackendRow → BackendCreate
row_to_create row = record {
  host = trim row.host;
  port = parse_int row.port;
  weight = parse_int row.weight;
  max_fails = parse_int row.max_fails;
  fail_timeout = parse_int row.fail_timeout;
  backup = row.backup;
  down = row.down;
  enabled = row.enabled;
}

-- `a === n`, where `NaN` is equal to nothing
abbrev pub is_number : Option ℤ → ℕ → Bool
is_number none n = false
is_number (some (pos m)) n = m == n
is_number (some (negsuc m)) n = false

abbrev pub same_flag : Bool → Bool → Bool
same_flag true b = b
same_flag false b = not b

abbrev pub changed : {A : Type 0} → Bool → A → Option A
changed true a = none
changed false a = some a

unfoldable pub backend_diff : Backend → BackendRow → BackendUpdate
unfolding row_to_create
backend_diff original row =
    let next = row_to_create row in
    record {
      host = changed (same next.host original.host) next.host;
      port = changed (is_number next.port original.port) next.port;
      weight = changed (is_number next.weight (or_default original.weight 1)) next.weight;
      max_fails =
          changed (is_number next.max_fails (or_default original.max_fails 1)) next.max_fails;
      fail_timeout =
          changed (is_number next.fail_timeout (or_default original.fail_timeout 10))
            next.fail_timeout;
      backup = changed (same_flag next.backup (or_default original.backup false)) next.backup;
      down = changed (same_flag next.down (or_default original.down false)) next.down;
      enabled = changed (same_flag next.enabled (or_default original.enabled true)) next.enabled;
    }

abbrev is_absent : {A : Type 0} → Option A → Bool
is_absent none = true
is_absent (some a) = false

-- `Object.keys(changes).length > 0` does not hold.
abbrev pub is_unchanged : BackendUpdate → Bool
is_unchanged c =
    is_absent c.host
    && (is_absent c.port
        && (is_absent c.weight
            && (is_absent c.max_fails
                && (is_absent c.fail_timeout
                    && (is_absent c.backup && (is_absent c.down && is_absent c.enabled))))))

-- `Number.isInteger(n) && n >= low && n <= high`
abbrev pub is_port_number : Option ℤ → Bool
is_port_number none = false
is_port_number (some (pos n)) = leb 1 n && leb n 65535
is_port_number (some (negsuc n)) = false

abbrev pub is_natural : Option ℤ → Bool
is_natural none = false
is_natural (some (pos n)) = true
is_natural (some (negsuc n)) = false

unfoldable pub validate_row : BackendRow → Option Text
validate_row row =
    let host = trim row.host in
    if is_empty host
    then some (text "Backend host is required.")
    else if any is_space host
    then some (text "Backend host must not contain spaces.")
    else if not (is_port_number (parse_int row.port))
    then some (text "Port for " ++ host ++ text " must be between 1 and 65535.")
    else if not (is_natural (parse_int row.weight))
    then some (text "Weight for " ++ host ++ text " must be 0 or greater.")
    else if not (is_natural (parse_int row.max_fails))
    then some (text "Max fails for " ++ host ++ text " must be 0 or greater.")
    else if not (is_natural (parse_int row.fail_timeout))
    then some (text "Fail timeout for " ++ host ++ text " must be 0 or greater.")
    else none
