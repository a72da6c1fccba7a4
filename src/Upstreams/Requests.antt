-- ===== src/Upstreams/Requests.antt =====
-- The requests that a save of the dialog makes, and its submit.
use megoo_pm.Prelude.{
  ℕ, zero, suc, Bool, true, false, not, Option, none, some, List, [], ◌∷◌, ◌++◌, map, filter, any,
  ◌==◌, if◌then◌else◌,
}
use megoo_pm.Text.{Text, text, same, is_empty, trim}
use megoo_pm.Upstreams.{
  Context, http_only, LbMethod, round_robin, ip_hash, Backend, BackendRow, BackendCreate,
  BackendUpdate, row_to_create, backend_diff, is_unchanged, validate_row,
}

-- A map by id: `get`, and `set`, which keeps the place of a key that is there.
unfoldable pub get_id : {A : Type 0} → ℕ → List (ℕ × A) → Option A
get_id k [] = none
get_id k ((j, a) ∷ rest) = if k == j then some a else get_id k rest

unfoldable pub set_id : {A : Type 0} → ℕ → A → List (ℕ × A) → List (ℕ × A)
set_id k a [] = (k, a) ∷ []
set_id k a ((j, b) ∷ rest) =
    let further = set_id k a rest in if k == j then (k, a) ∷ rest else (j, b) ∷ further

unfoldable pub original_backends : List Backend → List (ℕ × Backend) → List (ℕ × Backend)
unfolding set_id
original_backends [] m = m
original_backends (b ∷ bs) m = original_backends bs (set_id b.id b m)

pub data Request : Type 0 where
  remove_backend : ℕ → Request
  update_backend : ℕ → BackendUpdate → Request
  add_backend : BackendCreate → Request

-- `row.id`, where it is truthy
abbrev pub row_id : BackendRow → Option ℕ
row_id row = truthy row.id
  where
    truthy : Option ℕ → Option ℕ
    truthy none = none
    truthy (some zero) = none
    truthy (some (suc k)) = some (suc k)

abbrev pub has_id : ℕ → BackendRow → Bool
has_id k row = is_id (row_id row)
  where
    is_id : Option ℕ → Bool
    is_id none = false
    is_id (some j) = k == j

unfoldable pub removals : List BackendRow → List (ℕ × Backend) → List Request
removals rows [] = []
removals rows ((k, b) ∷ originals) =
    let rest = removals rows originals in
    if any (has_id k) rows then rest else remove_backend k ∷ rest

abbrev pub update_if : ℕ → Option Backend → BackendRow → List Request
update_if k none row = []
update_if k (some original) row =
    let changes = backend_diff original row in
    if is_unchanged changes then [] else update_backend k changes ∷ []

abbrev pub row_request : List (ℕ × Backend) → BackendRow → Option ℕ → List Request
row_request originals row none = add_backend (row_to_create row) ∷ []
row_request originals row (some k) = update_if k (get_id k originals) row

unfoldable pub row_requests : List (ℕ × Backend) → List BackendRow → List Request
unfolding get_id
row_requests originals [] = []
row_requests originals (row ∷ rows) =
    row_request originals row (row_id row) ++ row_requests originals rows

-- The requests of a save, in the order they are made.
unfoldable pub save_requests : List Backend → List BackendRow → List Request
unfolding original_backends removals row_requests
save_requests backends rows =
    let originals = original_backends backends [] in
    removals rows originals ++ row_requests originals rows

unfoldable pub first_row_error : List BackendRow → Option Text
unfolding validate_row
first_row_error [] = none
first_row_error (row ∷ rows) = or_later (validate_row row) (first_row_error rows)
  where
    or_later : Option Text → Option Text → Option Text
    or_later none later = later
    or_later (some e) later = some e

pub record PoolForm : Type 0 where
  pub name : Text
  pub description : Text
  pub lb_method : LbMethod
  pub context : Context
  pub enabled : Bool
  pub rows : List BackendRow

-- What a submit comes to: a problem, a new pool with its backends, or the pool's fields and the
-- requests for its backends.
pub data Submitted : Type 0 where
  problem : Text → Submitted
  created : PoolForm → List BackendCreate → Submitted
  updated : PoolForm → List Request → Submitted

abbrev pub trimmed : PoolForm → PoolForm
trimmed form = record form { name = trim form.name; description = trim form.description }

-- `none` is a new pool.
abbrev pub accepted : Option (List Backend) → PoolForm → Submitted
accepted none form = created (trimmed form) (map row_to_create form.rows)
accepted (some backends) form = updated (trimmed form) (save_requests backends form.rows)

abbrev pub problem_or : Option Text → Submitted → Submitted
problem_or none later = later
problem_or (some e) later = problem e

abbrev pub no_rows : List BackendRow → Bool
no_rows [] = true
no_rows (row ∷ rows) = false

unfoldable pub handle_submit : Option (List Backend) → PoolForm → Submitted
unfolding first_row_error
handle_submit upstream form =
    if is_empty (trim form.name)
    then problem (text "Pool name is required.")
    else if no_rows form.rows
    then problem (text "Add at least one backend server.")
    else problem_or (first_row_error form.rows) (accepted upstream form)

-- `ip_hash` is for pools of proxy hosts only.
unfoldable pub change_context : Context → PoolForm → PoolForm
change_context http_only form = record form { context = http_only }
change_context next form = record form { context = next; lb_method = legal form.lb_method }
  where
    legal : LbMethod → LbMethod
    legal ip_hash = round_robin
    legal m = m

unfoldable pub update_row : Text → (BackendRow → BackendRow) → List BackendRow → List BackendRow
update_row key patch rows = map (λ r. if same r.key key then patch r else r) rows

unfoldable pub remove_row : Text → List BackendRow → List BackendRow
remove_row key rows = filter (λ r. not (same r.key key)) rows
