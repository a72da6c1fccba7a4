-- ===== src/DnsProviders.antt =====
-- frontend/src/components/dns-providers/lib.ts: the credentials of a DNS provider.
pub mod Options
mod Tests
use megoo_pm.Prelude.{
  ℕ, Bool, true, false, ◌&&◌, not, Option, none, some, List, [], ◌∷◌, ◌++◌, map, any, ◌==◌,
  if◌then◌else◌,
}
use megoo_pm.Text.{Text, text, is_empty, trim}
use megoo_pm.Entries.{lookup, put}

pub record Field : Type 0 where
  pub name : Text
  pub secret : Bool

unfoldable pub credential_label : Text → Text → Text
credential_label name provider_label = name ++ text " · " ++ provider_label

abbrev spaced : Text → Text
spaced name = map (λ c. if c == b'_' then 32 else c) name

abbrev capital : (Text → Text) → Text → Text
capital upper [] = upper []
capital upper (c ∷ s) = upper (c ∷ []) ++ s

unfoldable pub field_label : (Text → Text) → Text → Text
field_label upper name = capital upper (spaced name)

abbrev set_blank : List Field → List (Text × Text) → List (Text × Text)
set_blank [] values = values
set_blank (f ∷ fs) values = set_blank fs (put f.name [] values)

unfoldable pub empty_values : List Field → List (Text × Text)
unfolding put
empty_values fields = set_blank fields []

abbrev pub value_or_blank : Option Text → Text
value_or_blank none = []
value_or_blank (some v) = v

-- `(values[name] ?? "").trim()`
abbrev pub typed_value : List (Text × Text) → Text → Text
typed_value values name = trim (value_or_blank (lookup name values))

unfoldable pub add_options :
    List (Text × Text) → List Field → List (Text × Text) → List (Text × Text)
add_options values [] payload = payload
add_options values (f ∷ fs) payload =
    let value = typed_value values f.name in
    add_options values fs (if is_empty value then payload else put f.name value payload)

unfoldable pub build_options_payload : List Field → List (Text × Text) → List (Text × Text)
unfolding add_options
build_options_payload fields values = add_options values fields []

unfoldable pub missing_secret : List Field → List (Text × Text) → Bool
missing_secret fields values =
    not (any (λ f. f.secret && not (is_empty (typed_value values f.name))) fields)
