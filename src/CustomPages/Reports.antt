-- ===== src/CustomPages/Reports.antt =====
-- The problems are the scripts that do not compile, and the report keeps to its cap.
use megoo_pm.Prelude.{
  ℕ, suc, ◌+◌, ◌≡◌, ◌↔◌, refl, inl, inr, Option, Option-cases, none, some, List, [], ◌∷◌, get_elem?,
  All, arith,
}
use megoo_pm.Text.{Text, trim}
use megoo_pm.CustomPages.Scripts.{ScriptProblem, extract_scripts, problems_from, check_scripts}

-- A problem of a list of scripts: where it stands, and what the compiler says of it.
pub record Reported (compile : Text → Option Text) (scripts : List Text) (i : ℕ) (p : ScriptProblem)
    : Type 0 where
  pub place : ℕ
  pub body : Text
  pub at : p.index ≡ i + (place + 1)
  pub stands : get_elem? scripts place ≡ some body
  pub rejected : compile body ≡ some p.message
  pub trimmed : p.source ≡ trim body

later :
    (compile : Text → Option Text) (s : Text) (scripts : List Text) (i : ℕ) (p : ScriptProblem)
    → Reported compile scripts (i + 1) p
    → Reported compile (s ∷ scripts) i p
later compile s scripts i p r =
    let at = r.at in
    record {
      place = suc r.place;
      body = r.body;
      at = omega arith;
      stands = r.stands;
      rejected = r.rejected;
      trimmed = r.trimmed;
    }

All-later :
    (compile : Text → Option Text) (s : Text) (scripts : List Text) (i : ℕ)
    (ps : List ScriptProblem)
    → All (Reported compile scripts (i + 1)) ps
    → All (Reported compile (s ∷ scripts) i) ps
All-later compile s scripts i [] h = tt
All-later compile s scripts i (p ∷ ps) (h, hs) =
    (later compile s scripts i p h, All-later compile s scripts i ps hs)

problems_from-Reported :
    (compile : Text → Option Text) (i : ℕ) (scripts : List Text)
    → All (Reported compile scripts i) (problems_from compile i scripts)
unfolding problems_from
problems_from-Reported compile i [] = tt
problems_from-Reported compile i (s ∷ scripts) =
    let rest = All-later compile s scripts i _ (problems_from-Reported compile (i + 1) scripts) in
    elim (Option-cases (compile s)) [
      | inl parses ↦ rw parses rest
      | inr (message, e) ↦ rw e (
        record {
          place = 0;
          body = s;
          at = omega arith;
          stands = refl;
          rejected = e;
          trimmed = refl;
        },
        rest,
      )
    ]

problems_from-nil :
    (compile : Text → Option Text) (i : ℕ) (scripts : List Text)
    → (problems_from compile i scripts ≡ []) ↔ All (λ s. compile s ≡ none) scripts
unfolding problems_from
problems_from-nil compile i [] = (λ _. tt, λ _. refl)
problems_from-nil compile i (s ∷ scripts) =
    let rest = problems_from-nil compile (i + 1) scripts in
    elim (Option-cases (compile s)) [
      | inl parses ↦ rw parses (λ h. (refl, rest.0 h), λ k. rest.1 k.1)
      | inr (message, e) ↦ rw e (λ h. absurd (ground arith), λ k. absurd (ground arith))
    ]

-- Every problem is a script of the page that the compiler rejects, under its message and its place
-- from 1, and there is none exactly where all of them compile.
pub check_scripts-Reported :
    (compile : Text → Option Text) (html : Text)
    → All (Reported compile (extract_scripts html) 0) (check_scripts compile html)
      × ((check_scripts compile html ≡ []) ↔ All (λ s. compile s ≡ none) (extract_scripts html))
unfolding check_scripts
check_scripts-Reported compile html = (
  problems_from-Reported compile 0 (extract_scripts html),
  problems_from-nil compile 0 (extract_scripts html),
)
