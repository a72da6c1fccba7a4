-- ===== src/Domains/Tags.antt =====
-- frontend/src/components/domains/domain-tags-input.tsx: the tags of a domain field, the pending
-- text and its mark. The form's list is what the last `onChange` gave.
use megoo_pm.Prelude.{
  inl, inr, Bool, true, false, Bool-cases, not, List, [], ◌∷◌, ◌++◌, length, filter, All,
  All-filter, Distinct, Distinct-filter, ◌==◌, if◌then◌else◌,
}
use megoo_pm.Text.{Text, text, same, is_empty, trim}
use megoo_pm.Domains.{add_domains}
use megoo_pm.Domains.Grammar.{IsDomain}
use megoo_pm.Domains.Adding.{add_domains-IsDomain}

pub record Tags : Type 0 where
  pub value : List Text
  pub pending : Text
  pub invalid : Bool

abbrev comma_space_joined : List Text → Text
comma_space_joined [] = []
comma_space_joined (t ∷ []) = t
comma_space_joined (t ∷ u ∷ ts) = t ++ (text ", " ++ comma_space_joined (u ∷ ts))

-- `value.slice(0, -1)`
abbrev without_last : List Text → List Text
without_last [] = []
without_last (t ∷ []) = []
without_last (t ∷ u ∷ ts) = t ∷ without_last (u ∷ ts)

abbrev is_none : List Text → Bool
is_none [] = true
is_none (t ∷ ts) = false

pub data TagEvent : Type 0 where
  changed : Text → TagEvent
  committed tabbed backspaced blurred : TagEvent
  pasted : Text → TagEvent
  removed : Text → TagEvent

-- Distinct valid domains
abbrev pub IsClean : List Text → Type 0
IsClean ts = Distinct ts × All IsDomain ts

module _ (lower : Text → Text) where
  abbrev taken : List Text × List Text → Text → Tags → Tags
  taken (next, rejected) input s =
      let grown = not (length next == length s.value) in
      let value = if grown then next else s.value in
      if is_none rejected then record { value = value; pending = []; invalid = false } else record {
        value = value;
        pending = if grown then comma_space_joined rejected else input;
        invalid = true;
      }

  unfoldable pub commit : Text → Tags → Tags
  commit input s =
      if is_empty (trim input) then s else taken (add_domains lower s.value input) input s

  abbrev cleared : Text → Tags → Tags
  cleared input s =
      if is_empty input
      then record s { pending = input; invalid = false }
      else record s { pending = input }

  unfoldable pub tag_step : Tags → TagEvent → Tags
  unfolding commit
  tag_step s (changed input) = cleared input s
  tag_step s committed = commit s.pending s
  tag_step s tabbed = if is_empty (trim s.pending) then s else commit s.pending s
  tag_step s backspaced =
      if is_empty s.pending then record s { value = without_last s.value } else s
  tag_step s (pasted input) =
      if is_empty input then s else commit (s.pending ++ text " " ++ input) s
  tag_step s blurred = commit s.pending s
  tag_step s (removed domain) = record s { value = filter (λ d. not (same d domain)) s.value }

  unfoldable pub tag_run : Tags → List TagEvent → Tags
  unfolding tag_step
  tag_run s [] = s
  tag_run s (e ∷ es) = tag_run (tag_step s e) es

  taken-IsClean :
      (p : List Text × List Text) (input : Text) (s : Tags)
      → IsClean p.0
      → IsClean s.value
      → IsClean (taken p input s).value
  taken-IsClean (next, rejected) input s h k = elim (Bool-cases (is_none rejected)) [
    | inl e ↦ rw e (either_clean (length next == length s.value) next s.value h k)
    | inr e ↦ rw e (either_clean (length next == length s.value) next s.value h k)
  ]
    where
      either_clean :
          (b : Bool) (xs ys : List Text)
          → IsClean xs
          → IsClean ys
          → IsClean (if not b then xs else ys)
      either_clean true xs ys a c = c
      either_clean false xs ys a c = a

  commit-IsClean : (input : Text) (s : Tags) → IsClean s.value → IsClean (commit input s).value
  unfolding commit
  commit-IsClean input s (d, v) = elim (Bool-cases (is_empty (trim input))) [
    | inl e ↦ rw e (d, v)
    | inr e ↦ rw e (
        taken-IsClean (add_domains lower s.value input) input s
          (add_domains-IsDomain lower s.value input d v) (d, v))
  ]

  without_last-All : (P : Text → Type 0) (ts : List Text) → All P ts → All P (without_last ts)
  without_last-All P [] h = tt
  without_last-All P (t ∷ []) h = tt
  without_last-All P (t ∷ u ∷ ts) (h, hs) = (h, without_last-All P (u ∷ ts) hs)

  without_last-Distinct : (ts : List Text) → Distinct ts → Distinct (without_last ts)
  without_last-Distinct [] d = tt
  without_last-Distinct (t ∷ []) d = tt
  without_last-Distinct (t ∷ u ∷ ts) (f, d) =
      (without_last-All _ (u ∷ ts) f, without_last-Distinct (u ∷ ts) d)

  IsClean-if :
      (b : Bool) (s t : Tags)
      → IsClean s.value
      → IsClean t.value
      → IsClean (if b then s else t).value
  IsClean-if true s t h k = h
  IsClean-if false s t h k = k

  tag_step-IsClean : (s : Tags) (e : TagEvent) → IsClean s.value → IsClean (tag_step s e).value
  unfolding tag_step
  tag_step-IsClean s (changed input) h = elim (Bool-cases (is_empty input)) [
    | inl e ↦ rw e h
    | inr e ↦ rw e h
  ]
  tag_step-IsClean s committed h = commit-IsClean s.pending s h
  tag_step-IsClean s tabbed h =
      IsClean-if (is_empty (trim s.pending)) s (commit s.pending s) h (commit-IsClean s.pending s h)
  tag_step-IsClean s backspaced (d, v) = elim (Bool-cases (is_empty s.pending)) [
    | inl e ↦ rw e (without_last-Distinct s.value d, without_last-All IsDomain s.value v)
    | inr e ↦ rw e (d, v)
  ]
  tag_step-IsClean s (pasted input) h = elim (Bool-cases (is_empty input)) [
    | inl e ↦ rw e h
    | inr e ↦ rw e (commit-IsClean (s.pending ++ text " " ++ input) s h)
  ]
  tag_step-IsClean s blurred h = commit-IsClean s.pending s h
  tag_step-IsClean s (removed domain) (d, v) = (
    Distinct-filter (λ t. not (same t domain)) s.value d,
    All-filter IsDomain (λ t. not (same t domain)) s.value v,
  )

  -- Whatever is typed, pasted, committed and removed, a field that starts with distinct valid
  -- domains holds distinct valid domains.
  pub tag_run-IsClean :
      (s : Tags) (es : List TagEvent) → IsClean s.value → IsClean (tag_run s es).value
  unfolding tag_run
  tag_run-IsClean s [] h = h
  tag_run-IsClean s (e ∷ es) h = tag_run-IsClean (tag_step s e) es (tag_step-IsClean s e h)
