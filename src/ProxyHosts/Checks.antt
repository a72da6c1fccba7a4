-- ===== src/ProxyHosts/Checks.antt =====
-- `validateLocations` and `validateForm`.
use megoo_pm.Prelude.{
  ℕ, Bool, true, false, not, ◌&&◌, ◌||◌, Option, none, some, List, [], ◌∷◌, ◌++◌, ltb, ◌==◌,
  if◌then◌else◌, length, any,
}
use megoo_pm.Text.{Text, text, same, has, is_empty, is_space, trim, starts_with}
use megoo_pm.ProxyHosts.{
  host, pool, to_host, to_pool, custom_page, error_page, DialogTab, forwarding, advanced,
  LocationRow, Form, FormError, parse_port,
}
use megoo_pm.ProxyHosts.Addresses.{is_ip_or_cidr}
use megoo_pm.ProxyHosts.Payload.{is_target}

-- `[\s{};"]`
unfoldable pub is_forbidden : ℕ → Bool
is_forbidden c = is_space c || c == b'{' || c == b'}' || c == b';' || c == 34

abbrev pub no_port : Text → Bool
no_port input = elim (parse_port input) [ none ↦ true | some n ↦ false ]

-- The message for a row, after the paths seen before it; `none` if there is nothing to say.
unfoldable pub row_message : List Text → LocationRow → Option Text
row_message seen row =
    let path = trim row.path in
    if not (starts_with path (text "/"))
    then some (text "Location path \"" ++ path ++ text "\" must start with /.")
    else if same path (text "/")
    then some (text "/ is the root route — add a sub-path such as /api/.")
    else if any is_forbidden path
    then some
        (text "Location path \"" ++ path ++ text "\" must not contain whitespace or { } ; \".")
    else if ltb 255 (length path)
    then some (text "Location paths are limited to 255 characters.")
    else if has path seen
    then some (text "Duplicate location path \"" ++ path ++ text "\".")
    else if is_target row.target_mode to_pool && is_empty row.upstream_id
    then some (text "Select an upstream pool for " ++ path ++ text ".")
    else if is_target row.target_mode custom_page && is_empty row.custom_page_id
    then some (text "Select a page for " ++ path ++ text ".")
    else if is_target row.target_mode error_page && is_empty row.error_code
    then some (text "Select a status code for " ++ path ++ text ".")
    else if is_target row.target_mode to_host && is_empty (trim row.forward_host)
    then some (text "Enter a forward host for " ++ path ++ text ".")
    else if is_target row.target_mode to_host && no_port row.forward_port
    then some (text "Forward port for " ++ path ++ text " must be between 1 and 65535.")
    else none

unfoldable pub validate_from : List Text → List LocationRow → Option FormError
validate_from seen [] = none
validate_from seen (row ∷ rows) =
    let later = validate_from (seen ++ trim row.path ∷ []) rows in
    elim (row_message seen row) [
      | some message ↦ some (record { message = message; tab = some forwarding })
      | none ↦ later
    ]

unfoldable pub validate_locations : List LocationRow → Option FormError
unfolding validate_from
validate_locations rows = validate_from [] rows

abbrev failure : Text → Option DialogTab → Option FormError
failure message tab = some (record { message = message; tab = tab })

-- the loop over `maintenanceAllow`
unfoldable pub validate_allow : List Text → Option FormError
validate_allow [] = none
validate_allow (entry ∷ entries) =
    let later = validate_allow entries in
    if not (is_ip_or_cidr entry)
    then failure (text "\"" ++ entry ++ text "\" is not an IP address or CIDR range.")
        (some advanced)
    else later

unfoldable pub validate_root : Form → Option FormError
validate_root form = elim form.root_target_mode [
  | pool ↦
      if is_empty form.root_upstream_id
      then failure (text "Select an upstream pool to forward to.") (some forwarding)
      else none
  | host ↦
      if is_empty (trim form.root_forward_host)
      then failure (text "Enter a forward host.") (some forwarding)
      else if no_port form.root_forward_port
      then failure (text "Forward port must be between 1 and 65535.") (some forwarding)
      else none
]

-- The first failure of two checks.
abbrev pub and_then : Option FormError → Option FormError → Option FormError
and_then none next = next
and_then (some e) next = some e

unfoldable pub validate_form : Form → Option FormError
validate_form form =
    if length form.domains == 0
    then failure (text "Enter at least one domain name.") none
    else and_then (validate_root form)
        (and_then (validate_allow form.maintenance_allow) (validate_locations form.locations))
