-- ===== src/Users.antt =====
-- frontend/src/components/users/lib.ts, frontend/src/lib/search.ts and
-- frontend/src/lib/auth/can-write.ts: names, passwords, the search box and who may write. The
-- case of a text needs the Unicode tables, so it is a parameter.
mod Tests
use megoo_pm.Prelude.{
  ℕ, Bool, true, false, ◌&&◌, not, Option, none, some, List, [], ◌∷◌, ◌++◌, length, filter, any,
  ltb, ◌==◌, if◌then◌else◌,
}
use megoo_pm.Text.{Text, text, same, is_empty, is_space, trim, includes}
use megoo_pm.Number.{number_text}

pub record Person : Type 0 where
  pub id : ℕ
  pub full_name : Text
  pub email : Text
  pub role : Text

abbrev pub min_password_length : ℕ
min_password_length = 8

unfoldable pub display_name : Person → Text
display_name user =
    let name = trim user.full_name in if not (is_empty name) then name else user.email

unfoldable pub is_self : Person → Option Person → Bool
is_self user none = false
is_self user (some current) = current.id == user.id

abbrev add_unit : ℕ → List Text → List Text
add_unit c [] = (c ∷ []) ∷ []
add_unit c (w ∷ ws) = (c ∷ w) ∷ ws

-- `s.split(/\s+/).filter(Boolean)`: the longest pieces without white space. The flag says that the
-- unit before was one of a word.
unfoldable pub words_from : Bool → Text → List Text
words_from inside [] = if inside then [] ∷ [] else []
words_from inside (c ∷ s) =
    let after = words_from false s in
    let further = add_unit c (words_from true s) in
    if not (is_space c) then further else if inside then [] ∷ after else after

unfoldable pub words : Text → List Text
unfolding words_from
words s = words_from false s

abbrev first_unit : Text → Text
first_unit [] = []
first_unit (c ∷ s) = c ∷ []

abbrev last_word : Text → List Text → Text
last_word w [] = w
last_word w (v ∷ vs) = last_word v vs

module _ (upper lower : Text → Text) where
  abbrev initials_of : List Text → Text → Text
  initials_of [] email =
      if not (is_empty (trim email)) then upper (first_unit (trim email)) else text "?"
  initials_of (w ∷ []) email = upper (first_unit w)
  initials_of (w ∷ v ∷ ws) email = upper (first_unit w ++ first_unit (last_word v ws))

  unfoldable pub initials : Option Person → Text
  unfolding words
  initials none = text "?"
  initials (some user) = initials_of (words (trim user.full_name)) user.email

  abbrev matches : Text → Option Text → Bool
  matches needle none = false
  matches needle (some field) = includes (lower field) needle

  unfoldable pub filter_by_search : {A : Type 0} → List A → Text → (A → List (Option Text)) → List A
  filter_by_search items query fields =
      let needle = lower (trim query) in
      let found = filter (λ item. any (matches needle) (fields item)) items in
      if is_empty needle then items else found

unfoldable pub validate_new_password : Text → Text → Option Text
validate_new_password password confirm =
    if ltb (length password) min_password_length
    then some (
        text "Password must be at least " ++ number_text min_password_length ++ text " characters.")
    else if not (same password confirm)
    then some (text "Passwords do not match.")
    else none

abbrev role_is_admin : Option Person → Bool
role_is_admin none = false
role_is_admin (some user) = same user.role (text "admin")

-- `useCanWrite`, of the user of the context
unfoldable pub can_write : Option Person → Bool
can_write user = role_is_admin user
