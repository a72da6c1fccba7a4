-- ===== src/ProxyHosts/Sound.antt =====
-- What an accepted form sends.
use megoo_pm.Prelude.{
  ℕ, ◌≤◌, ◌≡◌, ◌≢◌, refl, ap, true, false, Option-cases, inl, inr, Option, none, some, List, [],
  ◌∷◌, map, arith, length, All, Distinct,
}
use megoo_pm.Text.{Text, text, is_empty, trim, starts_with}
use megoo_pm.Text.Trim.{IsTrimmed, trim_idem}
use megoo_pm.Number.{ℤ, parse_int}
use megoo_pm.ProxyHosts.{
  TargetMode, host, pool, LocationTarget, to_host, to_pool, default_site, custom_page, error_page,
  LocationRow, Form, Host, LocationPayload, HostPayload, parse_port, port_of,
}
use megoo_pm.ProxyHosts.Addresses.{is_ip_or_cidr}
use megoo_pm.ProxyHosts.Checks.{is_forbidden, no_port, validate_form}
use megoo_pm.ProxyHosts.Payload.{js_number, location_payload, build_payload}
use megoo_pm.ProxyHosts.Accepted.{TargetOk, RowOk, RootOk, paths, validate_form_iff}

-- A named backend: a trimmed host that is not empty, and a port.
abbrev pub IsBackend : Option Text → Option ℕ → Type 0
IsBackend address port =
    (a : Text) × (n : ℕ) × (address ≡ some a)
    × (is_empty a ≡ false)
    × IsTrimmed a
    × (port ≡ some n)
    × (1 ≤ n)
    × (n ≤ 65535)

-- Only the fields of the target are sent.
abbrev pub TargetSent : LocationTarget → LocationRow → LocationPayload → Type 0
TargetSent to_pool row l =
    (l.upstream_id ≡ some (js_number (parse_int row.upstream_id)))
    × (l.forward_host ≡ none)
    × (l.forward_port ≡ none)
    × (l.custom_page_id ≡ none)
    × (l.error_code ≡ none)
TargetSent to_host row l =
    (l.upstream_id ≡ none)
    × IsBackend l.forward_host l.forward_port
    × (l.custom_page_id ≡ none)
    × (l.error_code ≡ none)
TargetSent custom_page row l =
    (l.upstream_id ≡ none)
    × (l.forward_host ≡ none)
    × (l.forward_port ≡ none)
    × (l.custom_page_id ≡ some (js_number (parse_int row.custom_page_id)))
    × (l.error_code ≡ none)
TargetSent error_page row l =
    (l.upstream_id ≡ none)
    × (l.forward_host ≡ none)
    × (l.forward_port ≡ none)
    × (l.custom_page_id ≡ none)
    × (l.error_code ≡ some (js_number (parse_int row.error_code)))
TargetSent default_site row l =
    (l.upstream_id ≡ none)
    × (l.forward_host ≡ none)
    × (l.forward_port ≡ none)
    × (l.custom_page_id ≡ none)
    × (l.error_code ≡ none)

pub record LocationSent (row : LocationRow) (l : LocationPayload) : Type 0 where
  pub trimmed : IsTrimmed l.path
  pub rooted : starts_with l.path (text "/") ≡ true
  pub below_root : l.path ≢ text "/"
  pub clean : All (λ c. is_forbidden c ≡ false) l.path
  pub short : length l.path ≤ 255
  pub same_target : l.target ≡ row.target_mode
  pub target_sent : TargetSent row.target_mode row l

abbrev pub RootSent : TargetMode → Form → HostPayload → Type 0
RootSent pool form p =
    (p.upstream_id ≡ some (js_number (parse_int form.root_upstream_id)))
    × (p.forward_host ≡ none)
    × (p.forward_port ≡ none)
RootSent host form p = (p.upstream_id ≡ none) × IsBackend p.forward_host p.forward_port

abbrev pub RowsSent : List LocationRow → List LocationPayload → Type 0
RowsSent [] [] = Unit
RowsSent [] (l ∷ ls) = ⊥
RowsSent (row ∷ rows) [] = ⊥
RowsSent (row ∷ rows) (l ∷ ls) = LocationSent row l × RowsSent rows ls

pub record Sent (form : Form) (p : HostPayload) : Type 0 where
  pub named : p.domain_names ≢ []
  pub root_sent : RootSent form.root_target_mode form p
  pub allowed : All (λ entry. is_ip_or_cidr entry ≡ true) p.maintenance_allow
  pub rows_sent : RowsSent form.locations p.locations
  pub distinct : Distinct (map (λ (l : LocationPayload). l.path) p.locations)

port_of_range : (z : Option ℤ) (n : ℕ) → port_of z ≡ some n → (1 ≤ n) × (n ≤ 65535)
port_of_range z n h = ground arith

port_in_range :
    (s : Text) → no_port s ≡ false → (n : ℕ) × (parse_port s ≡ some n) × (1 ≤ n) × (n ≤ 65535)
unfolding parse_port
port_in_range s h = elim (Option-cases (parse_port s)) [
  | inl missing ↦ ground arith
  | inr (n, found) ↦
      let (low, high) = port_of_range (parse_int (trim s)) n found in (n, found, low, high)
]

backend :
    (address port : Text)
    → is_empty (trim address) ≡ false
    → no_port port ≡ false
    → IsBackend (some (trim address)) (parse_port port)
backend address port h k =
    let (n, e, low, high) = port_in_range port k in
    (trim address, n, refl, h, trim_idem address, e, low, high)

TargetSent-of :
    (row : LocationRow) (t : LocationTarget)
    → row.target_mode ≡ t
    → TargetOk t row
    → TargetSent t row (location_payload row)
unfolding location_payload
TargetSent-of row to_pool e ok = rw e (refl, refl, refl, refl, refl)
TargetSent-of row to_host e (address, port) =
    rw e (refl, backend row.forward_host row.forward_port address port, refl, refl)
TargetSent-of row custom_page e ok = rw e (refl, refl, refl, refl, refl)
TargetSent-of row error_page e ok = rw e (refl, refl, refl, refl, refl)
TargetSent-of row default_site e ok = rw e (refl, refl, refl, refl, refl)

location_sent : (row : LocationRow) → RowOk row → LocationSent row (location_payload row)
location_sent row ok =
    let same_path : (location_payload row).path ≡ trim row.path = unfold location_payload in refl in
    record {
      trimmed = rw same_path (trim_idem row.path);
      rooted = rw same_path ok.rooted;
      below_root = rw same_path ok.below_root;
      clean = rw same_path ok.clean;
      short = rw same_path ok.short;
      same_target = unfold location_payload in refl;
      target_sent = TargetSent-of row row.target_mode refl ok.target;
    }

RowsSent-of : (rows : List LocationRow) → All RowOk rows → RowsSent rows (map location_payload rows)
RowsSent-of [] h = tt
RowsSent-of (row ∷ rows) (ok, oks) = (location_sent row ok, RowsSent-of rows oks)

paths_sent :
    (rows : List LocationRow)
    → map (λ (l : LocationPayload). l.path) (map location_payload rows) ≡ paths rows
unfolding location_payload
paths_sent [] = refl
paths_sent (row ∷ rows) = ap (λ ps. trim row.path ∷ ps) (paths_sent rows)

RootSent-of :
    (form : Form) (stored : Option Host) (m : TargetMode)
    → form.root_target_mode ≡ m
    → RootOk m form
    → RootSent m form (build_payload form stored)
unfolding build_payload
RootSent-of form stored pool e ok = rw e (refl, refl, refl)
RootSent-of form stored host e (address, port) =
    rw e (refl, backend form.root_forward_host form.root_forward_port address port)

-- An accepted form sends exactly one root target: the pool alone, or a trimmed host that is not
-- empty with a port from 1 to 65535; each location sends the fields of its kind of target and no
-- others, under a trimmed sub-path of at most 255 units with no forbidden one; no two locations
-- have one path; and every maintenance entry is an address or a range.
pub build_payload-Sent :
    (form : Form) (stored : Option Host)
    → validate_form form ≡ none
    → Sent form (build_payload form stored)
unfolding build_payload
build_payload-Sent form stored h =
    let ok = (validate_form_iff form).0 h in
    record {
      named = ok.named;
      root_sent = RootSent-of form stored form.root_target_mode refl ok.root;
      allowed = ok.allowed;
      rows_sent = RowsSent-of form.locations ok.rows;
      distinct = rw (paths_sent form.locations) ok.distinct;
    }
