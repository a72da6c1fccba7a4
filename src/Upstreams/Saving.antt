-- ===== src/Upstreams/Saving.antt =====
-- The requests of a save against the backends that the server has after them.
use megoo_pm.Prelude.{
  ℕ, ◌≡◌, refl, ◌∙◌, inl, inr, true, false, Bool-cases, Option, none, some, List, [], ◌∷◌, ◌++◌,
  ◌==◌, if◌then◌else◌, arith,
}
use megoo_pm.Upstreams.{BackendCreate, BackendUpdate}
use megoo_pm.Upstreams.Requests.{get_id, Request, remove_backend, update_backend, add_backend}
use megoo_pm.Upstreams.Patches.{patched}

-- The pool at the server: the backends that it had, and those added since, in order.
pub record Pool : Type 0 where
  pub known : List (ℕ × BackendCreate)
  pub added : List BackendCreate

abbrev pub remove_id : ℕ → List (ℕ × BackendCreate) → List (ℕ × BackendCreate)
remove_id k [] = []
remove_id k ((j, f) ∷ rest) = let kept = remove_id k rest in if k == j then kept else (j, f) ∷ kept

abbrev pub patch_id : ℕ → BackendUpdate → List (ℕ × BackendCreate) → List (ℕ × BackendCreate)
patch_id k c [] = []
patch_id k c ((j, f) ∷ rest) =
    let after = patch_id k c rest in if k == j then (j, patched c f) ∷ after else (j, f) ∷ after

abbrev pub perform : Request → Pool → Pool
perform (remove_backend k) p = record p { known = remove_id k p.known }
perform (update_backend k c) p = record p { known = patch_id k c p.known }
perform (add_backend f) p = record p { added = p.added ++ f ∷ [] }

unfoldable pub perform_all : List Request → Pool → Pool
perform_all [] p = p
perform_all (r ∷ rs) p = perform_all rs (perform r p)

abbrev pub mapped : (BackendCreate → BackendCreate) → Option BackendCreate → Option BackendCreate
mapped f none = none
mapped f (some a) = some (f a)

pub get_id-remove :
    (k j : ℕ) (l : List (ℕ × BackendCreate))
    → get_id k (remove_id j l) ≡ (if k == j then none else get_id k l)
unfolding get_id
get_id-remove k j [] = elim (Bool-cases (k == j)) [ inl e ↦ rw e refl | inr e ↦ rw e refl ]
get_id-remove k j ((i, f) ∷ l) =
    let rest = get_id-remove k j l in
    elim (Bool-cases (j == i)) [
      | inl here ↦ rw here (rest ∙ gone k j i here (get_id k l) f)
      | inr other ↦ rw other (elim (Bool-cases (k == i)) [
        | inl e ↦ rw e (let q : (k == j) ≡ false = ground arith in rw q refl)
        | inr e ↦ rw e rest
      ])
    ]
  where
    gone :
        (k j i : ℕ)
        → (j == i) ≡ true
        → (o : Option BackendCreate) (f : BackendCreate)
        → (if k == j then none else o) ≡ (if k == j then none else (if k == i then some f else o))
    gone k j i h o f = elim (Bool-cases (k == j)) [
      | inl e ↦ rw e refl
      | inr e ↦ rw e (let q : (k == i) ≡ false = ground arith in rw q refl)
    ]

pub get_id-patch :
    (k j : ℕ) (c : BackendUpdate) (l : List (ℕ × BackendCreate))
    → get_id k (patch_id j c l) ≡ (if k == j then mapped (patched c) (get_id k l) else get_id k l)
unfolding get_id
get_id-patch k j c [] = elim (Bool-cases (k == j)) [ inl e ↦ rw e refl | inr e ↦ rw e refl ]
get_id-patch k j c ((i, f) ∷ l) =
    let rest = get_id-patch k j c l in
    elim (Bool-cases (k == i)) [
      | inl here ↦ elim (Bool-cases (j == i)) [
        | inl e ↦ let q : (k == j) ≡ true = ground arith in rw (e, here, q) refl
        | inr e ↦ let q : (k == j) ≡ false = ground arith in rw (e, here, q) refl
      ]
      | inr other ↦ elim (Bool-cases (j == i)) [
        | inl e ↦ rw (e, other) rest
        | inr e ↦ rw (e, other) rest
      ]
    ]

pub perform_all-append :
    (rs qs : List Request) (p : Pool) → perform_all (rs ++ qs) p ≡ perform_all qs (perform_all rs p)
unfolding perform_all
perform_all-append [] qs p = refl
perform_all-append (r ∷ rs) qs p = perform_all-append rs qs (perform r p)
