-- ===== src/DnsProviders/Tests.antt =====
-- A provider with a secret and a plain field.
use megoo_pm.Prelude.{◌≡◌, refl, true, false, none, List, [], ◌∷◌, any, All, if◌then◌else◌}
use megoo_pm.Text.{is_space, same, trim, Text, text}
use megoo_pm.Text.Ascii.{ascii_lower}
use megoo_pm.Entries.{lookup}
use megoo_pm.DnsProviders.{
  Field, credential_label, field_label, empty_values, build_options_payload, missing_secret,
}
use megoo_pm.DnsProviders.Options.{sent_value, is_named, build_options_payload-lookup}

abbrev fields : List Field
fields =
    record { name = text "auth_token"; secret = true }
    ∷ record { name = text "zone"; secret = false }
    ∷ []

abbrev values : List (Text × Text)
values = (text "zone", text " a.b ") ∷ (text "auth_token", text " ") ∷ []

sent :
    (build_options_payload fields values ≡ (text "zone", text "a.b") ∷ [])
    × (missing_secret fields values ≡ true)
    × (empty_values fields ≡ (text "auth_token", []) ∷ (text "zone", []) ∷ [])
    × (field_label ascii_lower (text "auth_token") ≡ text "auth token")
    × (credential_label (text "x") (text "Y") ≡ text "x · Y")
unfolding build_options_payload missing_secret empty_values field_label credential_label text trim
    lookup same is_space
sent = (refl, refl, refl, refl, refl)

build_options_payload-lookup_example :
    ((k : Text)
      → lookup k (build_options_payload fields values)
        ≡ (if any (is_named k) fields then sent_value values k else none))
    × (missing_secret fields values ≡ true
        → All
            (λ f. f.secret ≡ true → lookup f.name (build_options_payload fields values) ≡ none)
            fields)
build_options_payload-lookup_example = build_options_payload-lookup fields values
