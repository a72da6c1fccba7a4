-- ===== src/Security/Pages.antt =====
-- The pages cover the rows: each row is on exactly one page, and a clamped page exists.
use native.Mathlib.Nat.{div-lt_iff_lt-mul}
use megoo_pm.Prelude.{
  ℕ, zero, suc, ◌+◌, ◌-◌, ◌*◌, ◌/◌, ◌≤◌, ◌<◌, ◌≡◌, ◌↔◌, ap, false, Bool-cases, inl, inr, ltb, leb,
  arith,
}
use megoo_pm.Number.{ℤ, pos, negsuc}
use megoo_pm.Security.{page_count, clamp_page, range_start, range_end}

-- The page count is the least number of pages, and at least 1, that holds the rows.
pub page_count_iff :
    (total page_size n : ℕ)
    → 0 < page_size
    → 0 < n
    → (page_count total page_size ≤ n) ↔ (total ≤ n * page_size)
unfolding page_count
page_count_iff total page_size n h k =
    let high : ((total + page_size - 1) / page_size < n + 1)
        ↔ (total + page_size - 1 < (n + 1) * page_size) =
      div-lt_iff_lt-mul h in
    let some_size : leb page_size 0 ≡ false = grind arith in
    rw some_size (
      λ le. let a = high.0 (omega arith) in omega arith,
      λ le. let a = high.1 (omega arith) in omega arith,
    )

page_count_pos : (total page_size : ℕ) → 1 ≤ page_count total page_size
unfolding page_count
page_count_pos total page_size = elim (Bool-cases (leb page_size 0)) [
  | inl e ↦ rw e (omega arith)
  | inr e ↦ rw e (omega arith)
]

-- A clamped page is a page, and a page that exists is left alone.
pub clamp_page-range :
    (page : ℤ) (total page_size : ℕ)
    → (1 ≤ clamp_page page total page_size)
      × (clamp_page page total page_size ≤ page_count total page_size)
      × ((n : ℕ)
          → page ≡ pos n
          → 1 ≤ n
          → n ≤ page_count total page_size
          → clamp_page page total page_size ≡ n)
unfolding clamp_page
clamp_page-range (negsuc m) total page_size =
    let some_page = page_count_pos total page_size in
    (omega arith, omega arith, λ n e g le. ground arith)
clamp_page-range (pos page) total page_size =
    let some_page = page_count_pos total page_size in
    elim (Bool-cases (ltb page 1)) [
      | inl early ↦ rw early (omega arith, omega arith, λ n e g le. ground arith)
      | inr real ↦ rw real (ground arith, omega arith, λ n e g le. ground arith)
    ]

-- Before the last page there are more rows.
rows_after :
    (total page_size p : ℕ)
    → 0 < page_size
    → 0 < total
    → p < page_count total page_size
    → p * page_size < total
rows_after total page_size zero h k lt = omega arith
rows_after total page_size (suc p) h k lt =
    let fits = page_count_iff total page_size (suc p) h (omega arith) in
    elim (Bool-cases (leb total (suc p * page_size))) [
      | inl few ↦ let le = fits.1 (ground arith) in absurd (omega arith)
      | inr many ↦ ground arith
    ]

rows_within : (total page_size : ℕ) → 0 < page_size → total ≤ page_count total page_size * page_size
rows_within total page_size h =
    (page_count_iff total page_size (page_count total page_size) h
        (page_count_pos total page_size)).0
      (omega arith)

-- Of some rows: the label of a page that exists shows a first row that is not after its last row,
-- the last row is one, the first page starts at row 1, each page starts where the one before it
-- ends, and the last page ends at the last row.
pub pages-cover :
    (page total page_size : ℕ)
    → 0 < page_size
    → 0 < total
    → 1 ≤ page
    → page ≤ page_count total page_size
    → (range_start page page_size ≤ range_end page page_size total)
      × (range_end page page_size total ≤ total)
      × (range_start 1 page_size ≡ 1)
      × (page < page_count total page_size
          → range_start (page + 1) page_size ≡ range_end page page_size total + 1)
      × (range_end (page_count total page_size) page_size total ≡ total)
pages-cover zero total page_size h k g le = absurd (omega arith)
pages-cover (suc p) total page_size h k g le =
    let before = rows_after total page_size p h k (omega arith) in
    let all_rows = rows_within total page_size h in
    let here : (suc p - 1) * page_size ≡ p * page_size = ap (λ n. n * page_size) (omega arith) in
    let there : (suc p + 1 - 1) * page_size ≡ suc p * page_size =
      ap (λ n. n * page_size) (omega arith) in
    (
      omega arith,
      omega arith,
      omega arith,
      λ lt. let more = rows_after total page_size (suc p) h k lt in omega arith,
      omega arith,
    )
