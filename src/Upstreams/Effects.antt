-- ===== src/Upstreams/Effects.antt =====
-- What the removals and the patches of a save do to the backends of the server.
use megoo_pm.Prelude.{
  ℕ, ◌≡◌, refl, sym, ap, ◌∙◌, inl, inr, Bool, true, false, Bool-cases, Option, none, some, List, [],
  ◌∷◌, any, ◌==◌, if◌then◌else◌, arith,
}
use megoo_pm.Upstreams.{
  Backend, BackendRow, BackendCreate, row_to_create, backend_diff, is_unchanged,
}
use megoo_pm.Upstreams.Requests.{get_id, remove_backend, row_id, has_id, removals, update_if}
use megoo_pm.Upstreams.Patches.{stored, patched-backend_diff, patched-unchanged}
use megoo_pm.Upstreams.Saving.{Pool, perform, perform_all, get_id-remove, get_id-patch}

abbrev pub as_stored : Option Backend → Option BackendCreate
as_stored none = none
as_stored (some b) = some (stored b)

-- The row of an id
unfoldable pub row_for : ℕ → List BackendRow → Option BackendRow
row_for k [] = none
row_for k (r ∷ rows) = if has_id k r then some r else row_for k rows

-- What the server is to have of an id: the fields of its row, where it is a backend of the pool.
abbrev pub wanted : Option BackendRow → Option Backend → Option BackendCreate
wanted (some row) (some b) = some (row_to_create row)
wanted row b = none

-- The fields of the rows that are new.
abbrev pub new_or : Option ℕ → BackendCreate → List BackendCreate → List BackendCreate
new_or none f fs = f ∷ fs
new_or (some k) f fs = fs

unfoldable pub new_fields : List BackendRow → List BackendCreate
new_fields [] = []
new_fields (r ∷ rows) = new_or (row_id r) (row_to_create r) (new_fields rows)

-- No two rows have one id.
abbrev pub Alone : Option ℕ → List BackendRow → Type 0
Alone none rows = Unit
Alone (some k) rows = any (has_id k) rows ≡ false

unfoldable pub DistinctRows : List BackendRow → Type 0
DistinctRows [] = Unit
DistinctRows (r ∷ rows) = Alone (row_id r) rows × DistinctRows rows

abbrev pub cut : Option Backend → Option BackendCreate → Option BackendCreate
cut none o = o
cut (some b) o = none

same_branch : (b : Bool) (o : Option BackendCreate) → o ≡ (if b then o else o)
same_branch true o = refl
same_branch false o = refl

cut-none : (o : Option Backend) → cut o none ≡ none
cut-none none = refl
cut-none (some b) = refl

pub removals-known :
    (rows : List BackendRow) (m : List (ℕ × Backend)) (p : Pool) (k : ℕ)
    → get_id k (perform_all (removals rows m) p).known
      ≡ (if any (has_id k) rows then get_id k p.known else cut (get_id k m) (get_id k p.known))
unfolding removals perform_all get_id
removals-known rows [] p k = same_branch (any (has_id k) rows) (get_id k p.known)
removals-known rows ((j, b) ∷ m) p k =
    let kept = removals-known rows m p k in
    let removed = removals-known rows m (perform (remove_backend j) p) k in
    elim (Bool-cases (any (has_id j) rows)) [
      | inl here ↦ rw here (
          kept ∙ elim (Bool-cases (k == j)) [
            | inl e ↦
                let same_id : k ≡ j = ground arith in
                let q : any (has_id k) rows ≡ true = rw same_id here in rw q refl
            | inr e ↦ rw e refl
          ])
      | inr gone ↦ rw gone (
          removed ∙ elim (Bool-cases (k == j)) [
            | inl e ↦
                let same_id : k ≡ j = ground arith in
                let q : any (has_id k) rows ≡ false = rw same_id gone in
                rw (q, get_id-remove k j p.known, e) (cut-none (get_id k m))
            | inr e ↦ rw (get_id-remove k j p.known, e) refl
          ])
    ]

pub removals-added :
    (rows : List BackendRow) (m : List (ℕ × Backend)) (p : Pool)
    → (perform_all (removals rows m) p).added ≡ p.added
unfolding removals perform_all
removals-added rows [] p = refl
removals-added rows ((j, b) ∷ m) p =
    let kept = removals-added rows m p in
    let removed = removals-added rows m (perform (remove_backend j) p) in
    elim (Bool-cases (any (has_id j) rows)) [ inl here ↦ rw here kept | inr gone ↦ rw gone removed ]

-- The request for a row of a backend, if one is needed.
pub update-known :
    (j : ℕ) (o : Option Backend) (row : BackendRow) (p : Pool) (k : ℕ)
    → get_id j p.known ≡ as_stored o
    → get_id k (perform_all (update_if j o row) p).known
      ≡ (if k == j then wanted (some row) o else get_id k p.known)
unfolding perform_all
update-known j none row p k h = elim (Bool-cases (k == j)) [
  | inl e ↦ let same_id : k ≡ j = ground arith in rw (e, same_id) h
  | inr e ↦ rw e refl
]
update-known j (some b) row p k h = elim (Bool-cases (is_unchanged (backend_diff b row))) [
  | inl none_changed ↦
      let stays : stored b ≡ row_to_create row =
        sym (patched-unchanged (backend_diff b row) (stored b) none_changed)
        ∙ patched-backend_diff b row in
      rw none_changed (elim (Bool-cases (k == j)) [
        | inl e ↦ let same_id : k ≡ j = ground arith in rw (e, same_id) (h ∙ ap some stays)
        | inr e ↦ rw e refl
      ])
  | inr some_changed ↦ rw some_changed (
      get_id-patch k j (backend_diff b row) p.known ∙ elim (Bool-cases (k == j)) [
        | inl e ↦
            let same_id : k ≡ j = ground arith in
            rw (e, same_id, h) (ap some (patched-backend_diff b row))
        | inr e ↦ rw e refl
      ])
]

pub update-added :
    (j : ℕ) (o : Option Backend) (row : BackendRow) (p : Pool)
    → (perform_all (update_if j o row) p).added ≡ p.added
unfolding perform_all
update-added j none row p = refl
update-added j (some b) row p = elim (Bool-cases (is_unchanged (backend_diff b row))) [
  | inl e ↦ rw e refl
  | inr e ↦ rw e refl
]
