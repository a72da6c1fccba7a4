-- ===== src/Certificates/Levels.antt =====
-- The level as a comparison of times, without the days.
use megoo_pm.Prelude.{
  ℕ, ◌+◌, ◌-◌, ◌*◌, ◌/◌, ◌≡◌, refl, ◌∙◌, ap, true, false, Bool-cases, inl, inr, Option, none, some,
  ltb, leb, ◌==◌, arith, if◌then◌else◌,
}
use megoo_pm.Text.{Text, is_empty}
use megoo_pm.Number.{pos}
use megoo_pm.Certificates.{
  ExpiryLevel, unknown_expiry, fine, near_expiry, expired, ms_per_day, days_between, info_of_days,
  expiry_info,
}

-- A level of a known expiry, by its time alone: 31 days are those up to the end of the 30th.
abbrev pub level_at : (now expiry : ℕ) → ExpiryLevel
level_at now expiry =
    if ltb expiry now
    then expired
    else if ltb expiry (now + 31 * ms_per_day)
    then near_expiry
    else fine

info_of_days-pos : (n : ℕ) → (info_of_days (pos n)).level ≡ (if ltb n 31 then near_expiry else fine)
unfolding info_of_days
info_of_days-pos n = elim (Bool-cases (n == 0)) [
  | inl none_left ↦ let few : ltb n 31 ≡ true = ground arith in rw (none_left, few) refl
  | inr some_left ↦ elim (Bool-cases (leb n 30)) [
    | inl soon ↦ let few : ltb n 31 ≡ true = ground arith in rw (some_left, soon, few) refl
    | inr later ↦ let many : ltb n 31 ≡ false = ground arith in rw (some_left, later, many) refl
  ]
]

-- A certificate is flagged as expired exactly when its time has passed, and as near its expiry
-- exactly when less than 31 days are left; one without a time that parses has no level.
pub expiry_info-level :
    (date_parse : Text → Option ℕ) (s : Text) (now expiry : ℕ)
    → is_empty s ≡ false
    → ((date_parse s ≡ some expiry)
        → (expiry_info date_parse (some s) now).level ≡ level_at now expiry)
      × ((date_parse s ≡ none) → (expiry_info date_parse (some s) now).level ≡ unknown_expiry)
unfolding expiry_info days_between
expiry_info-level date_parse s now expiry given = (
  λ e. elim (Bool-cases (leb now expiry)) [
    | inl ahead ↦
        let not_yet : ltb expiry now ≡ false = ground arith in
        let days : ltb ((expiry - now) / ms_per_day) 31 ≡ ltb expiry (now + 31 * ms_per_day) =
          ground arith in
        rw (given, e, ahead, not_yet)
          (info_of_days-pos ((expiry - now) / ms_per_day)
            ∙ ap (λ b. if b then near_expiry else fine) days)
    | inr past ↦
        let over : ltb expiry now ≡ true = ground arith in
        rw (given, e, past, over) (unfold info_of_days in refl)
  ],
  λ e. rw (given, e) refl,
)
