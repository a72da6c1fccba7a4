-- ===== src/Upstreams/Tests.antt =====
-- A pool of two backends: one gets another port, one is removed, and one is new.
use megoo_pm.Prelude.{
  ℕ, ◌≡◌, refl, inl, inr, true, false, Bool-cases, none, some, List, [], ◌∷◌, ◌==◌,
}
use megoo_pm.Text.{is_space, trim, same, Text, text}
use megoo_pm.Number.{number_text, parse_int, pos}
use megoo_pm.Upstreams.{
  backend_diff, http_only, both, ip_hash, round_robin, Backend, BackendRow, new_row,
  row_from_backend, row_to_create, BackendUpdate,
}
use megoo_pm.Upstreams.Requests.{
  get_id, original_backends, remove_backend, update_backend, add_backend, save_requests, PoolForm,
  problem, handle_submit, change_context,
}
use megoo_pm.Upstreams.Patches.{stored}
use megoo_pm.Upstreams.Saving.{Pool, perform_all}
use megoo_pm.Upstreams.Effects.{row_for, wanted, as_stored, DistinctRows, new_fields}
use megoo_pm.Upstreams.Reconciling.{save_requests-Pool}

abbrev backend : ℕ → Text → Backend
backend id host = record {
  id = id;
  host = host;
  port = 80;
  weight = none;
  max_fails = some 1;
  fail_timeout = some 10;
  backup = none;
  down = some false;
  enabled = some true;
}

abbrev backends : List Backend
backends = backend 1 (text "a") ∷ backend 2 (text "b") ∷ []

abbrev fresh : BackendRow
fresh = record (new_row 0).0 { host = text " c " }

abbrev rows : List BackendRow
rows = record (row_from_backend (backend 1 (text "a"))) { port = text "8080" } ∷ fresh ∷ []

abbrev no_change : BackendUpdate
no_change = record {
  host = none;
  port = none;
  weight = none;
  max_fails = none;
  fail_timeout = none;
  backup = none;
  down = none;
  enabled = none;
}

requests :
    save_requests backends rows
    ≡ remove_backend 2
      ∷ update_backend 1 (record no_change { port = some (some (pos 8080)) })
      ∷ add_backend (row_to_create fresh)
      ∷ []
unfolding save_requests text row_from_backend new_row backend_diff same trim is_space parse_int
    number_text
requests = refl

abbrev form : PoolForm
form = record {
  name = text "pool";
  description = [];
  lb_method = ip_hash;
  context = http_only;
  enabled = true;
  rows = rows;
}

refused :
    (handle_submit none (record form { name = text " " }) ≡ problem (text "Pool name is required."))
    × (handle_submit none (record form { rows = [] })
        ≡ problem (text "Add at least one backend server."))
    × (handle_submit none (record form { rows = record fresh { port = text "0" } ∷ [] })
        ≡ problem (text "Port for c must be between 1 and 65535."))
unfolding handle_submit text trim is_space parse_int
refused = (refl, refl, refl)

legal : (change_context both form).lb_method ≡ round_robin
unfolding change_context
legal = refl

abbrev pool : Pool
pool = record {
  known = (1, stored (backend 1 (text "a"))) ∷ (2, stored (backend 2 (text "b"))) ∷ [];
  added = [];
}

held : (k : ℕ) → get_id k pool.known ≡ as_stored (get_id k (original_backends backends []))
unfolding get_id original_backends
held k = elim (Bool-cases (k == 1)) [
  | inl a ↦ rw a refl
  | inr a ↦ elim (Bool-cases (k == 2)) [ inl b ↦ rw (a, b) refl | inr b ↦ rw (a, b) refl ]
]

save_requests-Pool_example :
    ((k : ℕ)
      → get_id k (perform_all (save_requests backends rows) pool).known
        ≡ wanted (row_for k rows) (get_id k (original_backends backends [])))
    × ((perform_all (save_requests backends rows) pool).added ≡ new_fields rows)
unfolding DistinctRows row_from_backend new_row
save_requests-Pool_example = save_requests-Pool backends rows pool (refl, (tt, tt)) held
