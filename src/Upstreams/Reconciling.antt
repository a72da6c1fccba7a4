-- ===== src/Upstreams/Reconciling.antt =====
-- A save brings the server's backends in line with the rows.
use megoo_pm.Prelude.{
  ℕ, ◌≡◌, refl, sym, ap, subst, ◌∙◌, inl, inr, true, false, Bool-cases, ◌||◌, Option, Option-cases,
  none, some, List, [], ◌∷◌, ◌++◌, append_assoc, append-nil, any, ◌==◌, if◌then◌else◌, arith,
}
use megoo_pm.Upstreams.{Backend, BackendRow, BackendCreate, row_to_create}
use megoo_pm.Upstreams.Requests.{
  get_id, original_backends, add_backend, row_id, has_id, removals, update_if, row_request,
  row_requests, save_requests,
}
use megoo_pm.Upstreams.Saving.{Pool, perform, perform_all, perform_all-append}
use megoo_pm.Upstreams.Effects.{
  as_stored, row_for, wanted, new_or, new_fields, Alone, DistinctRows, cut, removals-known,
  removals-added, update-known, update-added,
}

row_for-none :
    (k : ℕ) (rows : List BackendRow) → any (has_id k) rows ≡ false → row_for k rows ≡ none
unfolding row_for
row_for-none k [] h = refl
row_for-none k (r ∷ rows) h = elim (Bool-cases (has_id k r)) [
  | inl e ↦ absurd (let q : any (has_id k) (r ∷ rows) ≡ true = rw e refl in ground arith)
  | inr e ↦ rw e (row_for-none k rows (subst (λ b. (b || any (has_id k) rows) ≡ false) e h))
]

none-any : (k : ℕ) (rows : List BackendRow) → row_for k rows ≡ none → any (has_id k) rows ≡ false
unfolding row_for
none-any k [] h = refl
none-any k (r ∷ rows) h = elim (Bool-cases (has_id k r)) [
  | inl e ↦
      absurd
        (let q = subst (λ b. (if b then some r else row_for k rows) ≡ none) e h in ground arith)
  | inr e ↦ rw e (none-any k rows (subst (λ b. (if b then some r else row_for k rows) ≡ none) e h))
]

cut-stored : (o : Option Backend) → cut o (as_stored o) ≡ none
cut-stored none = refl
cut-stored (some b) = refl

-- What is there of an id after the requests for some rows.
abbrev after : Option BackendRow → Option Backend → Option BackendCreate → Option BackendCreate
after none o kept = kept
after (some row) o kept = wanted (some row) o

-- The server agrees with the dialog on the backends of some rows.
abbrev Agreed : List (ℕ × Backend) → List BackendRow → Pool → Type 0
Agreed originals rows p =
    (k : ℕ) → any (has_id k) rows ≡ true → get_id k p.known ≡ as_stored (get_id k originals)

has_id-none : (row : BackendRow) (k : ℕ) → row_id row ≡ none → has_id k row ≡ false
has_id-none row k e = rw e refl

has_id-some : (row : BackendRow) (k j : ℕ) → row_id row ≡ some j → has_id k row ≡ (k == j)
has_id-some row k j e = rw e refl

apart :
    (k j : ℕ) (rows : List BackendRow)
    → any (has_id j) rows ≡ false
    → any (has_id k) rows ≡ true
    → (k == j) ≡ false
apart k j rows alone h = elim (Bool-cases (k == j)) [
  | inl e ↦
      let same_id : k ≡ j = ground arith in
      absurd (let q : any (has_id j) rows ≡ true = rw (← same_id) h in ground arith)
  | inr e ↦ e
]

later :
    (row : BackendRow) (rows : List BackendRow) (k : ℕ)
    → any (has_id k) rows ≡ true
    → any (has_id k) (row ∷ rows) ≡ true
later row rows k h = elim (Bool-cases (has_id k row)) [ inl e ↦ rw e refl | inr e ↦ rw e h ]

Reconciled : List (ℕ × Backend) → List BackendRow → Pool → Type 0
Reconciled originals rows p =
    (k : ℕ)
    → get_id k (perform_all (row_requests originals rows) p).known
      ≡ after (row_for k rows) (get_id k originals) (get_id k p.known)

finish :
    (originals : List (ℕ × Backend)) (row : BackendRow) (rows : List BackendRow) (p : Pool)
    (j k : ℕ) (now : Option BackendCreate)
    → row_id row ≡ some j
    → any (has_id j) rows ≡ false
    → now ≡ (if k == j then wanted (some row) (get_id j originals) else get_id k p.known)
    → after (row_for k rows) (get_id k originals) now
      ≡ after
          (if has_id k row then some row else row_for k rows)
          (get_id k originals)
          (get_id k p.known)
finish originals row rows p j k now e alone h = elim (Bool-cases (k == j)) [
  | inl here ↦
      let same_id : k ≡ j = ground arith in
      let none_else : row_for k rows ≡ none = row_for-none k rows (rw same_id alone) in
      rw (has_id-some row k j e, here, none_else) (h ∙ rw (here, same_id) refl)
  | inr other ↦
      rw (has_id-some row k j e, other)
        (ap (after (row_for k rows) (get_id k originals)) (h ∙ rw other refl))
]

rows-Reconciled :
    (originals : List (ℕ × Backend)) (rows : List BackendRow) (p : Pool)
    → DistinctRows rows
    → Agreed originals rows p
    → Reconciled originals rows p
unfolding row_requests perform_all Reconciled DistinctRows row_for
rows-Reconciled originals [] p d h = λ k. refl
rows-Reconciled originals (row ∷ rows) p (alone, d) h =
    go (row_id row) refl alone (λ q a. rows-Reconciled originals rows q d a)
  where
    go :
        (i : Option ℕ)
        → row_id row ≡ i
        → Alone i rows
        → ((q : Pool) → Agreed originals rows q → Reconciled originals rows q)
        → (k : ℕ)
        → get_id k
            (perform_all (row_request originals row i ++ row_requests originals rows) p).known
          ≡ after
              (if has_id k row then some row else row_for k rows)
              (get_id k originals)
              (get_id k p.known)
    go none e a more k =
        let rest =
          more (perform (add_backend (row_to_create row)) p) (λ j t. h j (later row rows j t)) k in
        rw (has_id-none row k e) rest
    go (some j) e a more k =
        let equal : (j == j) ≡ true = ground arith in
        let here : any (has_id j) (row ∷ rows) ≡ true = rw (has_id-some row j j e, equal) refl in
        let known : (i : ℕ)
            → get_id i (perform_all (update_if j (get_id j originals) row) p).known
              ≡ (if i == j then wanted (some row) (get_id j originals) else get_id i p.known) =
          λ i. update-known j (get_id j originals) row p i (h j here) in
        let agreed : Agreed originals rows (perform_all (update_if j (get_id j originals) row) p) =
          λ i t. known i ∙ rw (apart i j rows a t) (h i (later row rows i t)) in
        ap (λ q. get_id k q.known)
          (perform_all-append (update_if j (get_id j originals) row) (row_requests originals rows)
            p)
        ∙ more (perform_all (update_if j (get_id j originals) row) p) agreed k
        ∙ finish originals row rows p j k
            (get_id k (perform_all (update_if j (get_id j originals) row) p).known) e a (known k)

rows-added :
    (originals : List (ℕ × Backend)) (rows : List BackendRow) (p : Pool)
    → (perform_all (row_requests originals rows) p).added ≡ p.added ++ new_fields rows
unfolding row_requests perform_all new_fields
rows-added originals [] p = sym (append-nil p.added)
rows-added originals (row ∷ rows) p = go (row_id row) (rows-added originals rows)
  where
    go :
        (i : Option ℕ)
        → ((q : Pool)
            → (perform_all (row_requests originals rows) q).added ≡ q.added ++ new_fields rows)
        → (perform_all (row_request originals row i ++ row_requests originals rows) p).added
          ≡ p.added ++ new_or i (row_to_create row) (new_fields rows)
    go none more =
        more (perform (add_backend (row_to_create row)) p)
        ∙ append_assoc p.added (row_to_create row ∷ []) (new_fields rows)
    go (some j) more =
        ap (λ q. q.added)
          (perform_all-append (update_if j (get_id j originals) row) (row_requests originals rows)
            p)
        ∙ more (perform_all (update_if j (get_id j originals) row) p)
        ∙ ap (λ fs. fs ++ new_fields rows) (update-added j (get_id j originals) row p)

-- For rows with distinct ids, and a server that holds the pool as the dialog got it: once the
-- requests of a save are performed, the server has of each backend of the pool the fields of its
-- row, no backend without a row, and the new rows' fields added in order.
pub save_requests-Pool :
    (backends : List Backend) (rows : List BackendRow) (p : Pool)
    → DistinctRows rows
    → ((k : ℕ) → get_id k p.known ≡ as_stored (get_id k (original_backends backends [])))
    → ((k : ℕ)
        → get_id k (perform_all (save_requests backends rows) p).known
          ≡ wanted (row_for k rows) (get_id k (original_backends backends [])))
      × ((perform_all (save_requests backends rows) p).added ≡ p.added ++ new_fields rows)
unfolding save_requests Reconciled
save_requests-Pool backends rows p d h =
    let originals = original_backends backends [] in
    let q = perform_all (removals rows originals) p in
    let split = perform_all-append (removals rows originals) (row_requests originals rows) p in
    let agreed : Agreed originals rows q = λ k t. removals-known rows originals p k ∙ rw t (h k) in
    (
      λ k.
          ap (λ r. get_id k r.known) split
          ∙ rows-Reconciled originals rows q d agreed k
          ∙ last originals p k h,
      ap (λ r. r.added) split
          ∙ rows-added originals rows q
          ∙ ap (λ fs. fs ++ new_fields rows) (removals-added rows originals p),
    )
  where
    last :
        (originals : List (ℕ × Backend)) (p : Pool) (k : ℕ)
        → ((i : ℕ) → get_id i p.known ≡ as_stored (get_id i originals))
        → after
            (row_for k rows)
            (get_id k originals)
            (get_id k (perform_all (removals rows originals) p).known)
          ≡ wanted (row_for k rows) (get_id k originals)
    last originals p k h = elim (Option-cases (row_for k rows)) [
      | inr (row, e) ↦ rw e refl
      | inl e ↦
          rw (e, removals-known rows originals p k, none-any k rows e, h k)
            (cut-stored (get_id k originals))
    ]
