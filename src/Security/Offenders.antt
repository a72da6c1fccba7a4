-- ===== src/Security/Offenders.antt =====
-- frontend/src/components/security/lib.ts (`topOffenders`): the noisiest sources. The order of
-- `localeCompare` is a parameter: whether the first text comes after the second.
pub mod Counting
pub mod Ranking
mod Tests
use megoo_pm.Prelude.{
  ℕ, zero, suc, ◌+◌, Bool, true, false, ◌||◌, ◌&&◌, not, Option, none, some, List, [], ◌∷◌, ◌++◌,
  take, map, any, ltb, ◌==◌, if◌then◌else◌,
}
use megoo_pm.Text.{Text, same, is_empty}
use megoo_pm.Number.{ℤ, pos, negsuc}

pub record Source : Type 0 where
  pub value : Option Text
  pub ip : Option Text
  pub cn : Option Text

pub record SourceAlert : Type 0 where
  pub source : Option Source
  pub events_count : Option ℤ

pub record Offender : Type 0 where
  pub key : Text
  pub count : ℕ
  pub country : Option Text

abbrev or_else : Option Text → Option Text → Option Text
or_else none o = o
or_else (some t) o = some t

-- `none` is `null`.
abbrev pub source_key : Option Source → Option Text
source_key none = none
source_key (some s) = or_else s.value s.ip

unfoldable pub alert_source_key : SourceAlert → Option Text
alert_source_key alert = source_key alert.source

-- `events > 0 ? events : 1`, of `events_count ?? 1`
abbrev pub counted_events : Option ℤ → ℕ
counted_events none = 1
counted_events (some (pos n)) = if ltb 0 n then n else 1
counted_events (some (negsuc n)) = 1

abbrev pub is_key : Text → Text × ℕ → Bool
is_key key entry = same key entry.0

abbrev pub raised : Text → ℕ → Text × ℕ → Text × ℕ
raised key events (k, n) = if same key k then (k, n + events) else (k, n)

-- `totals.set(key, (totals.get(key) ?? 0) + events)`, of a map, where a key is once at most
unfoldable pub add_total : Text → ℕ → List (Text × ℕ) → List (Text × ℕ)
add_total key events totals =
    if any (is_key key) totals then map (raised key events) totals else totals ++ (key, events) ∷ []

abbrev country_of_source : Option Source → Option Text
country_of_source none = none
country_of_source (some s) = s.cn

unfoldable pub country_for : Text → List (Text × Text) → Option Text
country_for key [] = none
country_for key ((k, cn) ∷ countries) = if same key k then some cn else country_for key countries

abbrev set_if_new : Text → Text → Option Text → List (Text × Text) → List (Text × Text)
set_if_new key cn none countries = countries ++ (key, cn) ∷ []
set_if_new key cn (some old) countries = countries

unfoldable pub add_country : Text → Option Text → List (Text × Text) → List (Text × Text)
unfolding country_for
add_country key none countries = countries
add_country key (some cn) countries =
    if is_empty cn then countries else set_if_new key cn (country_for key countries) countries

pub record Tally : Type 0 where
  pub totals : List (Text × ℕ)
  pub countries : List (Text × Text)

abbrev pub tallied : Option Text → SourceAlert → Tally → Tally
tallied none alert t = t
tallied (some key) alert t = if is_empty key then t else record {
  totals = add_total key (counted_events alert.events_count) t.totals;
  countries = add_country key (country_of_source alert.source) t.countries;
}

unfoldable pub tally : List SourceAlert → Tally → Tally
unfolding alert_source_key
tally [] t = t
tally (alert ∷ alerts) t = tally alerts (tallied (alert_source_key alert) alert t)

abbrev pub offender_of : List (Text × Text) → Text × ℕ → Offender
offender_of countries (key, count) = record {
  key = key;
  count = count;
  country = country_for key countries;
}

module _ (comes_after : Text → Text → Bool) where
  -- `b.count - a.count || a.key.localeCompare(b.key)` is positive.
  abbrev pub ranks_after : Offender → Offender → Bool
  ranks_after a b = ltb a.count b.count || (a.count == b.count && comes_after a.key b.key)

  -- `sort` keeps the order of what compares as equal.
  unfoldable pub insert : Offender → List Offender → List Offender
  insert x [] = x ∷ []
  insert x (y ∷ ys) = let rest = insert x ys in if ranks_after x y then y ∷ rest else x ∷ y ∷ ys

  unfoldable pub sorted : List Offender → List Offender
  unfolding insert
  sorted [] = []
  sorted (x ∷ xs) = insert x (sorted xs)

  unfoldable pub top_offenders : List SourceAlert → ℕ → List Offender
  unfolding tally sorted
  top_offenders alerts limit =
      let t = tally alerts (record { totals = []; countries = [] }) in
      take limit (sorted (map (offender_of t.countries) t.totals))
