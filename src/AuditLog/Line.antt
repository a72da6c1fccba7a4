-- ===== src/AuditLog/Line.antt =====
-- The summary is one short line, and says all of a short record.
use megoo_pm.Prelude.{
  ◌≤◌, ◌≡◌, refl, false, Bool-cases, inl, inr, length, length-append, length-take, take, ltb, arith,
}
use megoo_pm.Text.{Text, text}
use megoo_pm.Json.{Json, Fields, end, entry}
use megoo_pm.AuditLog.{cut_line, comma_joined, parts_of, summarise}

-- The whole line, before it is cut
abbrev pub whole_line : Fields → Text
whole_line meta = comma_joined (parts_of meta)

ellipsis_length : length (text "…") ≡ 1
unfolding text
ellipsis_length = refl

cut_line-length : (line : Text) → length (cut_line line) ≤ 120
cut_line-length line = elim (Bool-cases (ltb 120 (length line))) [
  | inl long ↦
      let both = length-append (take 119 line) (text "…") in
      let first = length-take 119 line in rw long (omega (arith, both, first, ellipsis_length))
  | inr short ↦ rw short (ground arith)
]

dash_length : length (text "—") ≤ 120
unfolding text
dash_length = omega arith

cut_line_short : (line : Text) → length line ≤ 120 → cut_line line ≡ line
cut_line_short line h = let short : ltb 120 (length line) ≡ false = ground arith in rw short refl

-- A summary has at most 120 units; and that of a record with an entry is its whole line, where that
-- is no longer.
pub summarise-length :
    (meta : Fields)
    → (length (summarise meta) ≤ 120)
      × ((k : Text) (v : Json) (fs : Fields)
          → meta ≡ entry k v fs
          → length (whole_line meta) ≤ 120
          → summarise meta ≡ whole_line meta)
unfolding summarise
summarise-length end = (dash_length, λ k v fs e h. absurd (ground arith))
summarise-length (entry k v fs) = (
  cut_line-length (whole_line (entry k v fs)),
  λ k2 v2 fs2 e h. cut_line_short (whole_line (entry k v fs)) h,
)
