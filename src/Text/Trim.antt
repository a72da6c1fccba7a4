-- ===== src/Text/Trim.antt =====
-- What trimming leaves.
use megoo_pm.Prelude.{All, ap, ◌∙◌, ◌≡◌, refl, false, [], ◌∷◌, arith}
use megoo_pm.Text.{Text, is_space, trim_start, trim_end, trim, cons_unless_blank}

-- No white space at either end.
abbrev pub IsTrimmed : Text → Type 0
IsTrimmed s = trim s ≡ s

-- No white space at the left end.
abbrev StartsSolid : Text → Type 0
StartsSolid [] = Unit
StartsSolid (c ∷ s) = is_space c ≡ false

trim_end_idem : (s : Text) → trim_end (trim_end s) ≡ trim_end s
unfolding trim_end
trim_end_idem [] = refl
trim_end_idem (c ∷ s) = step (trim_end s) (trim_end_idem s)
  where
    step : (t : Text) → trim_end t ≡ t → trim_end (cons_unless_blank c t) ≡ cons_unless_blank c t
    step [] h = ground arith
    step (d ∷ t) h = rw h refl

trim_start-StartsSolid : (s : Text) → StartsSolid (trim_start s)
unfolding trim_start
trim_start-StartsSolid [] = tt
trim_start-StartsSolid (c ∷ s) = ground (arith, trim_start-StartsSolid s)

trim_start_of_StartsSolid : (s : Text) → StartsSolid s → trim_start s ≡ s
unfolding trim_start
trim_start_of_StartsSolid [] h = refl
trim_start_of_StartsSolid (c ∷ s) h = rw h

trim_end-StartsSolid : (s : Text) → StartsSolid s → StartsSolid (trim_end s)
unfolding trim_end
trim_end-StartsSolid [] h = tt
trim_end-StartsSolid (c ∷ s) h = step (trim_end s)
  where
    step : (t : Text) → StartsSolid (cons_unless_blank c t)
    step [] = ground arith
    step (d ∷ t) = h

-- Trimming a second time changes nothing.
pub trim_idem : (s : Text) → IsTrimmed (trim s)
unfolding trim
trim_idem s =
    rw (trim_start_of_StartsSolid _ (trim_end-StartsSolid _ (trim_start-StartsSolid s)))
      (trim_end_idem (trim_start s))

trim_end_of_solid : (s : Text) → All (λ c. is_space c ≡ false) s → trim_end s ≡ s
unfolding trim_end
trim_end_of_solid [] h = refl
trim_end_of_solid (c ∷ s) (e, h) = ap (cons_unless_blank c) (trim_end_of_solid s h) ∙ step s
  where
    step : (t : Text) → cons_unless_blank c t ≡ c ∷ t
    step [] = rw e
    step (d ∷ t) = refl

-- A text with no white space at all is trimmed.
pub trim_of_solid : (s : Text) → All (λ c. is_space c ≡ false) s → IsTrimmed s
unfolding trim
trim_of_solid [] h = unfold trim_start trim_end in refl
trim_of_solid (c ∷ s) (e, h) =
    ap trim_end (trim_start_of_StartsSolid (c ∷ s) e) ∙ trim_end_of_solid (c ∷ s) (e, h)
