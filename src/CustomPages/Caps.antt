-- ===== src/CustomPages/Caps.antt =====
-- The length of the report, before and after the cut at its cap.
use native.Mathlib.Nat.{div-le_self}
use megoo_pm.Prelude.{
  ℕ, suc, ◌+◌, ◌-◌, ◌≤◌, ◌≡◌, refl, inl, inr, true, false, Bool-cases, List, [], ◌∷◌, ◌++◌, length,
  length-append, length-take, take, ltb, leb, if◌then◌else◌, arith,
}
use megoo_pm.Text.{Text, text}
use megoo_pm.CustomPages.Scripts.{
  ScriptProblem, max_instruction_chars, Excerpt, excerpt_limit, excerpt, problem_head,
  problem_block, problem_share, problem_blocks, joined_lines, report_header, whole_report,
  describe_script_problems,
}

total : List Text → ℕ
total [] = 0
total (t ∷ ts) = length t + total ts

joined_lines-length : (ts : List Text) → length (joined_lines ts) ≤ total ts + length ts
unfolding total text
joined_lines-length [] = omega arith
joined_lines-length (t ∷ []) = omega arith
joined_lines-length (t ∷ u ∷ ts) =
    let rest = joined_lines-length (u ∷ ts) in
    let sized = length-append t (text "\n" ++ joined_lines (u ∷ ts)) in omega arith

excerpt_limit-le : (budget room : ℕ) → budget ≤ room → 80 ≤ room → excerpt_limit budget ≤ room
excerpt_limit-le budget room h k = omega arith

-- A quote is within its limit, and the note adds 48 units.
noted-le :
    (source : Text) (budget room : ℕ)
    → excerpt_limit budget ≤ room
    → length (excerpt source budget).quote ≤ room
unfolding excerpt
noted-le source budget room h = elim (Bool-cases (leb (length source) (excerpt_limit budget))) [
  | inl short ↦ rw short (ground arith)
  | inr long ↦ rw long (let cut = length-take (excerpt_limit budget) source in omega arith)
]

abbrev note : Text
note = text "\n... (shortened; the full script is in the page)"

note-length : length note ≡ 48
unfolding text
note-length = refl

body-le :
    (e : Excerpt) → length (if e.shortened then e.quote ++ note else e.quote) ≤ length e.quote + 48
body-le e = elim (Bool-cases e.shortened) [
  | inl cut ↦ rw cut (let sized = length-append e.quote note in let l = note-length in omega arith)
  | inr whole ↦ rw whole (omega arith)
]

lines-length :
    (head body : Text) → length (head ++ (text "\n" ++ body)) ≡ length head + length body + 1
unfolding text
lines-length head body = let sized = length-append head (b'\n' ∷ body) in omega arith

block-le :
    (p : ScriptProblem) (e : Excerpt)
    → length (problem_block p e) ≤ length (problem_head p) + length e.quote + 49
block-le p e =
    let body = body-le e in
    let sized = lines-length (problem_head p) (if e.shortened then e.quote ++ note else e.quote) in
    go _ _ _ _ sized body
  where
    go : (l h b q : ℕ) → l ≡ h + b + 1 → b ≤ q + 48 → l ≤ h + q + 49
    go l h b q e k = omega arith

-- A block that is written passes the budget by 49 units at most.
written-le :
    (budget remaining : ℕ) (p : ScriptProblem)
    → length (problem_head p) + 80 ≤ budget
    → length (problem_block p (excerpt p.source (problem_share budget p remaining))) ≤ budget + 49
written-le budget remaining p room =
    let share = div-le_self (budget - length (problem_head p)) remaining in
    let quote =
      noted-le p.source (problem_share budget p remaining) (budget - length (problem_head p))
        (excerpt_limit-le _ _ share (spare (length (problem_head p)) room)) in
    go _ _ _ (block-le p (excerpt p.source (problem_share budget p remaining))) quote room
  where
    spare : (h : ℕ) → h + 80 ≤ budget → 80 ≤ budget - h
    spare h k = omega arith

    go : (l h q : ℕ) → l ≤ h + q + 49 → q ≤ budget - h → h + 80 ≤ budget → l ≤ budget + 49
    go l h q a b c = omega arith

blocks-none : (ps : List ScriptProblem) → total (problem_blocks 0 ps) ≡ 0
unfolding total problem_blocks
blocks-none [] = refl
blocks-none (p ∷ ps) =
    let full : ltb 0 (length (problem_head p) + 80) ≡ true = ground arith in
    rw full (blocks-none ps)

passed : (budget l : ℕ) → leb l budget ≡ false → budget - l ≡ 0
passed budget l h = ground arith

within : (budget l : ℕ) → leb l budget ≡ true → l ≤ budget
within budget l h = ground arith

rest-le :
    (budget l : ℕ) (ps : List ScriptProblem)
    → l ≤ budget + 49
    → total (problem_blocks (budget - l) ps) ≤ budget - l + 49
    → l + total (problem_blocks (budget - l) ps) ≤ budget + 49
rest-le budget l ps h k = elim (Bool-cases (leb l budget)) [
  | inl fits ↦ let small = within budget l fits in omega arith
  | inr over ↦ rw (passed budget l over, blocks-none ps) (omega arith)
]

room_of : (budget h : ℕ) → ltb budget (h + 80) ≡ false → h + 80 ≤ budget
room_of budget h k = ground arith

blocks-total :
    (budget : ℕ) (ps : List ScriptProblem) → total (problem_blocks budget ps) ≤ budget + 49
unfolding total problem_blocks
blocks-total budget [] = omega arith
blocks-total budget (p ∷ ps) =
    let block = problem_block p (excerpt p.source (problem_share budget p (suc (length ps)))) in
    let after = blocks-total (budget - length block) ps in
    let skipped = blocks-total budget ps in
    elim (Bool-cases (ltb budget (length (problem_head p) + 80))) [
      | inl full ↦ rw full skipped
      | inr room ↦
          let fits =
            written-le budget (suc (length ps)) p (room_of budget (length (problem_head p)) room) in
          rw room (rest-le budget (length block) ps fits after)
    ]

blocks-length :
    (budget : ℕ) (ps : List ScriptProblem) → length (problem_blocks budget ps) ≤ length ps
unfolding problem_blocks
blocks-length budget [] = omega arith
blocks-length budget (p ∷ ps) =
    let block = problem_block p (excerpt p.source (problem_share budget p (suc (length ps)))) in
    let after = blocks-length (budget - length block) ps in
    let skipped = blocks-length budget ps in
    elim (Bool-cases (ltb budget (length (problem_head p) + 80))) [
      | inl full ↦ rw full (omega arith)
      | inr room ↦ rw room (omega arith)
    ]

-- The report keeps to the cap of an instruction, and the cut takes little from it: where the header
-- is within the cap, the whole report is past it by at most 50 units and one for each problem.
pub describe_script_problems-length :
    (p : ScriptProblem) (ps : List ScriptProblem)
    → length (report_header (p ∷ ps)) ≤ max_instruction_chars
    → (length (describe_script_problems (p ∷ ps)) ≤ max_instruction_chars)
      × (describe_script_problems (p ∷ ps) ≡ take max_instruction_chars (whole_report (p ∷ ps)))
      × (length (whole_report (p ∷ ps)) ≤ max_instruction_chars + 50 + length (p ∷ ps))
unfolding describe_script_problems total
describe_script_problems-length p ps h = (
  cut (whole_report (p ∷ ps)),
  refl,
  go (length (report_header (p ∷ ps))) h
      (joined_lines-length (
        report_header (p ∷ ps)
        ∷ problem_blocks (max_instruction_chars - length (report_header (p ∷ ps))) (p ∷ ps)))
      (blocks-total (max_instruction_chars - length (report_header (p ∷ ps))) (p ∷ ps))
      (blocks-length (max_instruction_chars - length (report_header (p ∷ ps))) (p ∷ ps)),
)
  where
    cut : (t : Text) → length (take max_instruction_chars t) ≤ max_instruction_chars
    cut t = let sized = length-take max_instruction_chars t in omega arith

    go :
        (header : ℕ) {whole blocks lines n : ℕ}
        → header ≤ max_instruction_chars
        → whole ≤ header + blocks + suc lines
        → blocks ≤ max_instruction_chars - header + 49
        → lines ≤ n
        → whole ≤ max_instruction_chars + 50 + n
    go header a b c d = omega arith
