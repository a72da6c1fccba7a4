-- ===== src/CustomPages/Scripts.antt =====
-- frontend/src/components/custom-pages/script-check.ts: the inline scripts of a page, and what the
-- browser's compiler says of them. The compiler is a parameter: its message, or `none` where the
-- body parses.
use megoo_pm.Prelude.{
  ℕ, zero, suc, ◌+◌, ◌-◌, ◌/◌, Bool, true, false, ◌||◌, ◌&&◌, Option, none, some, List, [], ◌∷◌,
  ◌++◌, length, take, min, max, ltb, leb, ◌==◌, if◌then◌else◌,
}
use megoo_pm.Text.{Text, text, is_empty, trim, trim_start}
use megoo_pm.Number.{is_digit, number_text}
use megoo_pm.CustomPages.Uris.{strip, ◌>>=◌}

pub record ScriptProblem : Type 0 where
  pub index : ℕ
  pub message : Text
  pub source : Text

abbrev pub max_instruction_chars : ℕ
max_instruction_chars = 2000

abbrev pub excerpt_chars : ℕ
excerpt_chars = 400

-- `\w`, for the `\b` of the pattern
abbrev is_word_unit : ℕ → Bool
is_word_unit c = is_digit c || (leb b'a' c && leb c b'z') || (leb b'A' c && leb c b'Z') || c == b'_'

-- A literal, with the case of ASCII letters ignored: no other unit folds to one without the `u` flag.
unfoldable strip_folded : Text → Text → Option Text
strip_folded [] s = some s
strip_folded (d ∷ w) [] = none
strip_folded (d ∷ w) (c ∷ s) = if same_letter c d then strip_folded w s else none
  where
    same_letter : ℕ → ℕ → Bool
    same_letter a b = (if leb b'A' a && leb a b'Z' then a + 32 else a) == b

unfoldable after_bracket : Text → Option Text
after_bracket [] = none
after_bracket (c ∷ s) = let rest = after_bracket s in if c == b'>' then some s else rest

abbrev at_boundary : Text → Option Text
at_boundary [] = some []
at_boundary (c ∷ s) = if is_word_unit c then none else some (c ∷ s)

-- `<script\b([^>]*)>`
unfoldable pub script_open : Text → Option Text
unfolding strip_folded after_bracket
script_open s = do
  name ← strip_folded (text "<script") s
  attributes ← at_boundary name
  after_bracket attributes

-- `<\/script\s*>`
unfoldable pub script_close : Text → Option Text
unfolding strip_folded
script_close s = do name ← strip_folded (text "</script") s; strip (text ">") (trim_start name)

abbrev longer_body : ℕ → Option (Text × Text) → Option (Text × Text)
longer_body c none = none
longer_body c (some (body, rest)) = some (c ∷ body, rest)

abbrev closed_here : Option Text → Option (Text × Text) → Option (Text × Text)
closed_here none later = later
closed_here (some rest) later = some ([], rest)

-- `([\s\S]*?)<\/script\s*>`: the body ends at the first closing tag.
unfoldable pub script_body : Text → Option (Text × Text)
unfolding script_close
script_body [] = none
script_body (c ∷ s) = closed_here (script_close (c ∷ s)) (longer_body c (script_body s))

unfoldable pub match_script : Text → Option (Text × Text)
unfolding script_open script_body
match_script s = do inside ← script_open s; script_body inside

abbrev pub kept_body : Text → List Text → List Text
kept_body body bodies = if is_empty (trim body) then bodies else body ∷ bodies

abbrev next_scripts : (Text → List Text) → Text → Option (Text × Text) → List Text
next_scripts more s none = more s
next_scripts more s (some (body, rest)) = kept_body body (more rest)

-- `matchAll`: the fuel is the length.
unfoldable pub scripts_from : ℕ → Text → List Text
unfolding match_script
scripts_from zero s = []
scripts_from (suc fuel) [] = []
scripts_from (suc fuel) (c ∷ s) = next_scripts (scripts_from fuel) s (match_script (c ∷ s))

unfoldable pub extract_scripts : Text → List Text
unfolding scripts_from
extract_scripts html = scripts_from (length html) html

abbrev problem_unless : Option Text → ℕ → Text → List ScriptProblem → List ScriptProblem
problem_unless none i source problems = problems
problem_unless (some message) i source problems =
    record { index = i + 1; message = message; source = trim source } ∷ problems

unfoldable pub problems_from : (Text → Option Text) → ℕ → List Text → List ScriptProblem
problems_from compile i [] = []
problems_from compile i (source ∷ sources) =
    problem_unless (compile source) i source (problems_from compile (i + 1) sources)

unfoldable pub check_scripts : (Text → Option Text) → Text → List ScriptProblem
unfolding extract_scripts problems_from
check_scripts compile html = problems_from compile 0 (extract_scripts html)

pub record Excerpt : Type 0 where
  pub quote : Text
  pub shortened : Bool

abbrev pub excerpt_limit : ℕ → ℕ
excerpt_limit budget = max 80 (min excerpt_chars budget)

unfoldable pub excerpt : Text → ℕ → Excerpt
excerpt source budget =
    if leb (length source) (excerpt_limit budget)
    then record { quote = source; shortened = false }
    else record { quote = take (excerpt_limit budget) source; shortened = true }

abbrev pub problem_head : ScriptProblem → Text
problem_head p = text "\nScript " ++ number_text p.index ++ text " - " ++ p.message

abbrev pub problem_block : ScriptProblem → Excerpt → Text
problem_block p e =
    problem_head p
    ++ (text "\n"
        ++ (if e.shortened
            then e.quote ++ text "\n... (shortened; the full script is in the page)"
            else e.quote))

-- The share of a problem, of those from it on. `remaining` is not 0.
abbrev pub problem_share : ℕ → ScriptProblem → ℕ → ℕ
problem_share budget p remaining = (budget - length (problem_head p)) / remaining

-- The blocks within a budget. A negative budget of the source is 0 here: at both, every head is
-- too long.
unfoldable pub problem_blocks : ℕ → List ScriptProblem → List Text
unfolding excerpt
problem_blocks budget [] = []
problem_blocks budget (p ∷ ps) =
    let block = problem_block p (excerpt p.source (problem_share budget p (suc (length ps)))) in
    let skipped = problem_blocks budget ps in
    let written = block ∷ problem_blocks (budget - length block) ps in
    if ltb budget (length (problem_head p) + 80) then skipped else written

abbrev pub joined_lines : List Text → Text
joined_lines [] = []
joined_lines (t ∷ []) = t
joined_lines (t ∷ u ∷ ts) = t ++ (text "\n" ++ joined_lines (u ∷ ts))

abbrev pub report_header : List ScriptProblem → Text
report_header problems =
    text "The page has "
    ++ number_text (length problems)
    ++ text " script(s) that will not parse. "
    ++ text "Fix the JavaScript and change nothing else."

abbrev pub whole_report : List ScriptProblem → Text
whole_report problems =
    let header = report_header problems in
    joined_lines (header ∷ problem_blocks (max_instruction_chars - length header) problems)

unfoldable pub describe_script_problems : List ScriptProblem → Text
unfolding problem_blocks
describe_script_problems [] = []
describe_script_problems (p ∷ ps) = take max_instruction_chars (whole_report (p ∷ ps))
