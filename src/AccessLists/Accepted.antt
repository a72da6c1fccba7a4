-- ===== src/AccessLists/Accepted.antt =====
-- The forms that validation accepts, said without reference to its order of tests.
use megoo_pm.Prelude.{
  ◌≡◌, refl, ◌↔◌, false, ◌&&◌, none, List, [], ◌∷◌, ◌++◌, map, arith, All, All-of, Distinct, Fresh,
  Unseen, Unseen-snoc, snoc-Unseen,
}
use megoo_pm.Text.{Text, is_empty, trim, has}
use megoo_pm.Text.Equality.{has-Fresh, Fresh-has}
use megoo_pm.AccessLists.{
  AuthUserRow, ClientRow, ListForm, is_new, submittable_users, submittable_clients, user_message,
  check_users, normalize_address, check_clients, validate_access_list_form,
}

-- A row with a name, and with a password if it is new.
pub record UserOk (u : AuthUserRow) : Type 0 where
  pub named : is_empty (trim u.username) ≡ false
  pub keyed : (is_new u.id && is_empty u.password) ≡ false

abbrev pub usernames : List AuthUserRow → List Text
usernames users = map (λ (u : AuthUserRow). trim u.username) users

user_message_iff :
    (seen : List Text) (u : AuthUserRow)
    → (user_message seen u ≡ none) ↔ (UserOk u × (has (trim u.username) seen ≡ false))
unfolding user_message
user_message_iff seen u = (
  λ h. (record { named = ground arith; keyed = ground arith }, ground arith),
  λ (ok, fresh). ground (arith, ok.named, ok.keyed),
)

check_users_sound :
    (seen : List Text) (users : List AuthUserRow)
    → check_users seen users ≡ none
    → All UserOk users × Distinct (usernames users) × Unseen seen (usernames users)
unfolding check_users
check_users_sound seen [] h = (tt, tt, tt)
check_users_sound seen (u ∷ users) h =
    let quiet : user_message seen u ≡ none = ground arith in
    let (ok, fresh) = (user_message_iff seen u).0 quiet in
    let (oks, distinct, unseen) =
      check_users_sound (seen ++ trim u.username ∷ []) users (ground arith) in
    let (apart, others) = Unseen-snoc seen (trim u.username) (usernames users) unseen in
    ((ok, oks), (apart, distinct), (has-Fresh (trim u.username) seen fresh, others))

check_users_complete :
    (seen : List Text) (users : List AuthUserRow)
    → All UserOk users
    → Distinct (usernames users)
    → Unseen seen (usernames users)
    → check_users seen users ≡ none
unfolding check_users
check_users_complete seen [] h d x = refl
check_users_complete seen (u ∷ users) (ok, oks) (apart, distinct) (fresh, others) = ground (
  arith,
  (user_message_iff seen u).1 (ok, Fresh-has (trim u.username) seen fresh),
  check_users_complete (seen ++ trim u.username ∷ []) users oks distinct
      (snoc-Unseen seen (trim u.username) (usernames users) apart others),
)

module _ (lower : Text → Text) where
  abbrev pub RuleOk : ClientRow → Type 0
  RuleOk c = is_empty (normalize_address lower c.address) ≡ false

  check_clients_iff :
      (rules : List ClientRow) → (check_clients lower rules ≡ none) ↔ All RuleOk rules
  unfolding check_clients
  check_clients_iff [] = (λ h. tt, λ h. refl)
  check_clients_iff (c ∷ rules) =
      let (ahead, back) = check_clients_iff rules in
      (
        λ h. (ground arith, ahead (ground arith)),
        λ (ok, oks). let none_later = back oks in ground arith,
      )

  -- The form is accepted exactly when it has a name, its rows that are sent name their users, each
  -- once and with a password where they are new, and its rules that are sent have an address.
  pub validate_access_list_form_iff :
      (state : ListForm)
      → (validate_access_list_form lower state ≡ none) ↔ (
          (is_empty (trim state.name) ≡ false)
          × All UserOk (submittable_users state)
          × Distinct (usernames (submittable_users state))
          × All RuleOk (submittable_clients state))
  unfolding validate_access_list_form
  validate_access_list_form_iff state =
      let users = submittable_users state in
      let clients = check_clients_iff (submittable_clients state) in
      (
        λ h.
            let no_problem : check_users [] users ≡ none = ground arith in
            let (a, b, c) = check_users_sound [] users no_problem in
            (ground arith, a, b, clients.0 (ground arith)),
        λ (named, a, b, r).
            let first =
              check_users_complete [] users a b
                (All-of (λ p. Fresh p []) (λ p. tt) (usernames users)) in
            let second = clients.1 r in ground arith,
      )
