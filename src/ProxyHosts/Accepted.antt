-- ===== src/ProxyHosts/Accepted.antt =====
-- The forms that validation accepts, said without reference to its order of tests.
use megoo_pm.Prelude.{
  ◌≤◌, ◌≡◌, ◌≢◌, refl, ◌↔◌, true, false, none, List, [], ◌∷◌, ◌++◌, map, arith, length, ltb, All,
  Fresh, Distinct, any, any-eq-false, any_of_All, All-of, Unseen, Unseen-snoc, snoc-Unseen,
}
use megoo_pm.Text.{Text, text, same, has, is_empty, trim, starts_with}
use megoo_pm.Text.Equality.{same_iff, has-Fresh, Fresh-has}
use megoo_pm.ProxyHosts.{
  TargetMode, host, pool, LocationTarget, to_host, to_pool, default_site, custom_page, error_page,
  LocationRow, Form,
}
use megoo_pm.ProxyHosts.Addresses.{is_ip_or_cidr}
use megoo_pm.ProxyHosts.Checks.{
  is_forbidden, row_message, validate_from, validate_locations, validate_allow, validate_root,
  validate_form, no_port,
}

-- The fields that each kind of target needs.
abbrev pub TargetOk : LocationTarget → LocationRow → Type 0
TargetOk to_pool row = is_empty row.upstream_id ≡ false
TargetOk to_host row =
    (is_empty (trim row.forward_host) ≡ false) × (no_port row.forward_port ≡ false)
TargetOk custom_page row = is_empty row.custom_page_id ≡ false
TargetOk error_page row = is_empty row.error_code ≡ false
TargetOk default_site row = Unit

-- A sub-path of at most 255 units with no forbidden one, and a complete target.
pub record RowOk (row : LocationRow) : Type 0 where
  pub rooted : starts_with (trim row.path) (text "/") ≡ true
  pub below_root : trim row.path ≢ text "/"
  pub clean : All (λ c. is_forbidden c ≡ false) (trim row.path)
  pub short : length (trim row.path) ≤ 255
  pub target : TargetOk row.target_mode row

abbrev pub paths : List LocationRow → List Text
paths rows = map (λ row. trim row.path) rows

abbrev pub RootOk : TargetMode → Form → Type 0
RootOk pool form = is_empty form.root_upstream_id ≡ false
RootOk host form =
    (is_empty (trim form.root_forward_host) ≡ false) × (no_port form.root_forward_port ≡ false)

pub record FormOk (form : Form) : Type 0 where
  pub named : form.domains ≢ []
  pub root : RootOk form.root_target_mode form
  pub allowed : All (λ entry. is_ip_or_cidr entry ≡ true) form.maintenance_allow
  pub rows : All RowOk form.locations
  pub distinct : Distinct (paths form.locations)

row_tests :
    (seen : List Text) (row : LocationRow)
    → row_message seen row ≡ none
    → (starts_with (trim row.path) (text "/") ≡ true)
      × (same (trim row.path) (text "/") ≡ false)
      × (any is_forbidden (trim row.path) ≡ false)
      × (ltb 255 (length (trim row.path)) ≡ false)
      × (has (trim row.path) seen ≡ false)
      × TargetOk row.target_mode row
unfolding row_message
row_tests seen row h = ground arith

row_passes :
    (seen : List Text) (row : LocationRow)
    → starts_with (trim row.path) (text "/") ≡ true
    → same (trim row.path) (text "/") ≡ false
    → any is_forbidden (trim row.path) ≡ false
    → ltb 255 (length (trim row.path)) ≡ false
    → has (trim row.path) seen ≡ false
    → TargetOk row.target_mode row
    → row_message seen row ≡ none
unfolding row_message
row_passes seen row a b c d e f = rw (a, b, c, d, e) (ground arith)

row_sound :
    (seen : List Text) (row : LocationRow)
    → row_message seen row ≡ none
    → RowOk row × Fresh (trim row.path) seen
row_sound seen row h =
    let (a, b, c, d, e, f) = row_tests seen row h in
    (
      record {
        rooted = a;
        below_root = λ q. ground (arith, same_iff (trim row.path) (text "/"));
        clean = any-eq-false is_forbidden (trim row.path) c;
        short = ground arith;
        target = f;
      },
      has-Fresh (trim row.path) seen e,
    )

row_complete :
    (seen : List Text) (row : LocationRow)
    → RowOk row
    → Fresh (trim row.path) seen
    → row_message seen row ≡ none
row_complete seen row ok fresh =
    row_passes seen row ok.rooted
      (ground (arith, same_iff (trim row.path) (text "/"), ok.below_root))
      (any_of_All is_forbidden (trim row.path) ok.clean) (ground (arith, ok.short))
      (Fresh-has (trim row.path) seen fresh) ok.target

validate_from_sound :
    (seen : List Text) (rows : List LocationRow)
    → validate_from seen rows ≡ none
    → All RowOk rows × Distinct (paths rows) × Unseen seen (paths rows)
unfolding validate_from
validate_from_sound seen [] h = (tt, tt, tt)
validate_from_sound seen (row ∷ rows) h =
    let quiet : row_message seen row ≡ none = ground arith in
    let (ok, fresh) = row_sound seen row quiet in
    let (oks, distinct, unseen) =
      validate_from_sound (seen ++ trim row.path ∷ []) rows (ground arith) in
    let (apart, others) = Unseen-snoc seen (trim row.path) (paths rows) unseen in
    ((ok, oks), (apart, distinct), (fresh, others))

validate_from_complete :
    (seen : List Text) (rows : List LocationRow)
    → All RowOk rows
    → Distinct (paths rows)
    → Unseen seen (paths rows)
    → validate_from seen rows ≡ none
unfolding validate_from
validate_from_complete seen [] h d u = refl
validate_from_complete seen (row ∷ rows) (ok, oks) (apart, distinct) (fresh, others) = ground (
  arith,
  row_complete seen row ok fresh,
  validate_from_complete (seen ++ trim row.path ∷ []) rows oks distinct
      (snoc-Unseen seen (trim row.path) (paths rows) apart others),
)

-- Validation of the locations finds nothing exactly when each row is complete, with a well-formed
-- sub-path, and no two trimmed paths are equal.
pub validate_locations_iff :
    (rows : List LocationRow)
    → (validate_locations rows ≡ none) ↔ (All RowOk rows × Distinct (paths rows))
unfolding validate_locations
validate_locations_iff rows = (
  λ h. let (a, b, c) = validate_from_sound [] rows h in (a, b),
  λ (a, b). validate_from_complete [] rows a b (All-of (λ p. Fresh p []) (λ p. tt) (paths rows)),
)

validate_allow_iff :
    (entries : List Text)
    → (validate_allow entries ≡ none) ↔ All (λ entry. is_ip_or_cidr entry ≡ true) entries
unfolding validate_allow
validate_allow_iff [] = (λ h. tt, λ h. refl)
validate_allow_iff (entry ∷ entries) = ground (arith, validate_allow_iff entries)

validate_root_iff : (form : Form) → (validate_root form ≡ none) ↔ RootOk form.root_target_mode form
unfolding validate_root
validate_root_iff form = ground arith

-- The form is accepted exactly when it names a domain, its root target is complete, every
-- maintenance entry is an address or a range, and its locations are accepted.
pub validate_form_iff : (form : Form) → (validate_form form ≡ none) ↔ FormOk form
unfolding validate_form
validate_form_iff form =
    let (rows_sound, rows_complete) = validate_locations_iff form.locations in
    let (allow_sound, allow_complete) = validate_allow_iff form.maintenance_allow in
    let (root_sound, root_complete) = validate_root_iff form in
    (
      λ h.
          let r : validate_root form ≡ none = ground arith in
          let a : validate_allow form.maintenance_allow ≡ none = ground arith in
          let l : validate_locations form.locations ≡ none = ground arith in
          record {
            named = λ e. ground arith;
            root = root_sound r;
            allowed = allow_sound a;
            rows = (rows_sound l).0;
            distinct = (rows_sound l).1;
          },
      λ ok. ground (
        arith,
        root_complete ok.root,
        allow_complete ok.allowed,
        rows_complete (ok.rows, ok.distinct),
        ok.named,
      ),
    )
