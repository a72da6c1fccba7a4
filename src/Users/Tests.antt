-- ===== src/Users/Tests.antt =====
-- Names, passwords and a search.
use megoo_pm.Number.{number_text}
use megoo_pm.Prelude.{◌≡◌, refl, true, false, none, some, [], ◌∷◌}
use megoo_pm.Text.{includes, same, is_space, trim, Text, text}
use megoo_pm.Text.Ascii.{ascii_lower}
use megoo_pm.Users.{
  Person, display_name, is_self, initials, filter_by_search, validate_new_password, can_write,
}

abbrev someone : Person
someone = record {
  id = 3;
  full_name = text " ann b. cole ";
  email = text "ann@x.io";
  role = text "member";
}

-- Of lower-case letters only.
abbrev unchanged : Text → Text
unchanged s = s

shown :
    (initials unchanged unchanged (some someone) ≡ text "ac")
    × (initials unchanged unchanged (some (record someone { full_name = [] })) ≡ text "a")
    × (display_name someone ≡ text "ann b. cole")
unfolding initials display_name text trim is_space
shown = (refl, refl, refl)

checked :
    (validate_new_password (text "1234567") (text "1234567")
      ≡ some (text "Password must be at least 8 characters."))
    × (validate_new_password (text "12345678") (text "12345679")
        ≡ some (text "Passwords do not match."))
    × (validate_new_password (text "12345678") (text "12345678") ≡ none)
unfolding validate_new_password text number_text same
checked = (refl, refl, refl)

rights :
    (can_write (some someone) ≡ false)
    × (can_write none ≡ false)
    × (is_self someone (some someone) ≡ true)
unfolding can_write is_self text same
rights = (refl, refl, refl)

found :
    filter_by_search unchanged ascii_lower
      (text "Api.example" ∷ text "web.example" ∷ [])
      (text " API ")
      (λ s. none ∷ some s ∷ [])
    ≡ text "Api.example" ∷ []
unfolding filter_by_search text trim is_space includes
found = refl
