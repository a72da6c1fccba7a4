-- ===== src/Upstreams/Patches.antt =====
-- The patch of a backend against the row that it was made of.
use megoo_pm.Prelude.{
  ℕ, ◌≡◌, refl, sym, ap, inl, inr, Bool, true, false, Bool-cases, ◌&&◌, Option, none, some, ◌==◌,
  arith,
}
use megoo_pm.Text.{Text, same}
use megoo_pm.Text.Equality.{same→eq}
use megoo_pm.Number.{ℤ, pos, negsuc}
use megoo_pm.Upstreams.{
  Backend, BackendRow, BackendCreate, BackendUpdate, or_default, row_to_create, is_number,
  same_flag, changed, backend_diff, is_absent, is_unchanged,
}

-- A backend as the server stores it, with the defaults of the API.
abbrev pub stored : Backend → BackendCreate
stored b = record {
  host = b.host;
  port = some (pos b.port);
  weight = some (pos (or_default b.weight 1));
  max_fails = some (pos (or_default b.max_fails 1));
  fail_timeout = some (pos (or_default b.fail_timeout 10));
  backup = or_default b.backup false;
  down = or_default b.down false;
  enabled = or_default b.enabled true;
}

-- A patch: the fields that are present replace the stored ones.
abbrev pub patched : BackendUpdate → BackendCreate → BackendCreate
patched c f = record {
  host = or_default c.host f.host;
  port = or_default c.port f.port;
  weight = or_default c.weight f.weight;
  max_fails = or_default c.max_fails f.max_fails;
  fail_timeout = or_default c.fail_timeout f.fail_timeout;
  backup = or_default c.backup f.backup;
  down = or_default c.down f.down;
  enabled = or_default c.enabled f.enabled;
}

text-changed : (x y : Text) → or_default (changed (same x y) x) y ≡ x
text-changed x y = elim (Bool-cases (same x y)) [
  | inl e ↦ rw e (sym (same→eq x y e))
  | inr e ↦ rw e refl
]

number-changed : (o : Option ℤ) (n : ℕ) → or_default (changed (is_number o n) o) (some (pos n)) ≡ o
number-changed none n = refl
number-changed (some (negsuc m)) n = refl
number-changed (some (pos m)) n = elim (Bool-cases (m == n)) [
  | inl e ↦ rw e (ap (λ k. some (pos k)) (ground arith))
  | inr e ↦ rw e refl
]

flag-changed : (a b : Bool) → or_default (changed (same_flag a b) a) b ≡ a
flag-changed true true = refl
flag-changed true false = refl
flag-changed false true = refl
flag-changed false false = refl

pub patched-backend_diff :
    (b : Backend) (row : BackendRow) → patched (backend_diff b row) (stored b) ≡ row_to_create row
unfolding backend_diff
patched-backend_diff b row =
    let n = row_to_create row in
    rw
      (
        text-changed n.host b.host,
        number-changed n.port b.port,
        number-changed n.weight (or_default b.weight 1),
        number-changed n.max_fails (or_default b.max_fails 1),
        number-changed n.fail_timeout (or_default b.fail_timeout 10),
        flag-changed n.backup (or_default b.backup false),
        flag-changed n.down (or_default b.down false),
        flag-changed n.enabled (or_default b.enabled true),
      )
      refl

absent : {A : Type 0} (o : Option A) → is_absent o ≡ true → o ≡ none
absent none h = refl
absent (some a) h = absurd (ground arith)

both : (a b : Bool) → (a && b) ≡ true → (a ≡ true) × (b ≡ true)
both true b h = (refl, h)
both false b h = absurd (ground arith)

pub patched-unchanged :
    (c : BackendUpdate) (f : BackendCreate) → is_unchanged c ≡ true → patched c f ≡ f
patched-unchanged c f h =
    let (h1, r1) = both _ _ h in
    let (h2, r2) = both _ _ r1 in
    let (h3, r3) = both _ _ r2 in
    let (h4, r4) = both _ _ r3 in
    let (h5, r5) = both _ _ r4 in
    let (h6, r6) = both _ _ r5 in
    let (h7, h8) = both _ _ r6 in
    rw
      (
        absent c.host h1,
        absent c.port h2,
        absent c.weight h3,
        absent c.max_fails h4,
        absent c.fail_timeout h5,
        absent c.backup h6,
        absent c.down h7,
        absent c.enabled h8,
      )
      refl
