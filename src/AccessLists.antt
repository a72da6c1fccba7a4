-- ===== src/AccessLists.antt =====
-- frontend/src/components/access-lists/lib.ts: the dialog of an access list. An absent `id` marks a
-- row that the server does not have.
pub mod Accepted
pub mod Replaced
mod Tests
use megoo_pm.Prelude.{
  ℕ, Bool, true, false, not, ◌&&◌, Option, none, some, List, [], ◌∷◌, ◌++◌, map, filter,
  if◌then◌else◌,
}
use megoo_pm.Text.{Text, text, same, has, is_empty, trim}

pub data Directive : Type 0 where
  allow deny : Directive

pub data AccessTab : Type 0 where
  details authorization access : AccessTab

pub record AuthUserRow : Type 0 where
  pub id : Option ℕ
  pub username : Text
  pub password : Text

pub record ClientRow : Type 0 where
  pub id : Option ℕ
  pub address : Text
  pub directive : Directive

pub record ListForm : Type 0 where
  pub name : Text
  pub satisfy_any : Bool
  pub pass_auth : Bool
  pub users : List AuthUserRow
  pub clients : List ClientRow

pub record FormProblem : Type 0 where
  pub tab : AccessTab
  pub message : Text

-- What the API returns: an absent or null field is `none`.
pub record StoredUser : Type 0 where
  pub id : ℕ
  pub username : Text

pub record StoredRule : Type 0 where
  pub id : ℕ
  pub address : Text
  pub directive : Directive

pub record AccessList : Type 0 where
  pub name : Text
  pub satisfy_any : Option Bool
  pub pass_auth : Option Bool
  pub auth_users : Option (List StoredUser)
  pub client_rules : Option (List StoredRule)

-- What is sent: a user without a password keeps the stored one.
pub record UserPayload : Type 0 where
  pub username : Text
  pub password : Option Text

pub record RulePayload : Type 0 where
  pub address : Text
  pub directive : Directive

pub record ListPayload : Type 0 where
  pub name : Text
  pub satisfy_any : Bool
  pub pass_auth : Bool
  pub auth_users : List UserPayload
  pub clients : List RulePayload

abbrev pub satisfy_label : Bool → Text
satisfy_label satisfy_any = if satisfy_any then text "Any" else text "All"

abbrev pub blank_user_row : AuthUserRow
blank_user_row = record { id = none; username = []; password = [] }

abbrev pub blank_client_row : ClientRow
blank_client_row = record { id = none; address = []; directive = allow }

abbrev pub empty_form_state : ListForm
empty_form_state = record {
  name = [];
  satisfy_any = false;
  pass_auth = false;
  users = blank_user_row ∷ [];
  clients = blank_client_row ∷ [];
}

-- `value ?? fallback`
abbrev pub given_or {ℓ} : {A : Type ℓ} → Option A → A → A
given_or none fallback = fallback
given_or (some a) fallback = a

abbrev pub user_row_of : StoredUser → AuthUserRow
user_row_of u = record { id = some u.id; username = u.username; password = [] }

abbrev pub client_row_of : StoredRule → ClientRow
client_row_of c = record { id = some c.id; address = c.address; directive = c.directive }

unfoldable pub state_from_list : Option AccessList → ListForm
state_from_list none = empty_form_state
state_from_list (some l) = record {
  name = l.name;
  satisfy_any = given_or l.satisfy_any false;
  pass_auth = given_or l.pass_auth false;
  users = map user_row_of (given_or l.auth_users []);
  clients = map client_row_of (given_or l.client_rules []);
}

-- `id === undefined`
abbrev pub is_new : Option ℕ → Bool
is_new none = true
is_new (some n) = false

abbrev pub is_allow : Directive → Bool
is_allow allow = true
is_allow deny = false

unfoldable pub is_blank_user : AuthUserRow → Bool
is_blank_user row = is_new row.id && is_empty (trim row.username) && is_empty row.password

unfoldable pub is_blank_client : ClientRow → Bool
is_blank_client row = is_new row.id && is_empty (trim row.address) && is_allow row.directive

abbrev pub submittable_users : ListForm → List AuthUserRow
submittable_users state = filter (λ u. not (is_blank_user u)) state.users

abbrev pub submittable_clients : ListForm → List ClientRow
submittable_clients state = filter (λ c. not (is_blank_client c)) state.clients

-- The body of the loop over the users
unfoldable pub user_message : List Text → AuthUserRow → Option Text
user_message seen user =
    let username = trim user.username in
    if is_empty username
    then some (text "Enter a username for every user.")
    else if is_new user.id && is_empty user.password
    then some (text "Enter a password for “" ++ username ++ text "”.")
    else if has username seen
    then some (text "“" ++ username ++ text "” is listed twice — usernames must be unique.")
    else none

unfoldable pub check_users : List Text → List AuthUserRow → Option FormProblem
check_users seen [] = none
check_users seen (user ∷ users) =
    let later = check_users (seen ++ trim user.username ∷ []) users in
    elim (user_message seen user) [
      | some message ↦ some (record { tab = authorization; message = message })
      | none ↦ later
    ]

abbrev pub unless_problem : Option FormProblem → Option FormProblem → Option FormProblem
unless_problem none later = later
unless_problem (some p) later = some p

abbrev pub created_user : AuthUserRow → UserPayload
created_user u = record { username = trim u.username; password = some u.password }

unfoldable pub updated_user : AuthUserRow → UserPayload
updated_user u = record {
  username = trim u.username;
  password = if is_empty u.password then none else some u.password;
}

module _ (lower : Text → Text) where
  unfoldable pub normalize_address : Text → Text
  normalize_address input =
      let trimmed = trim input in if same (lower trimmed) (text "all") then text "all" else trimmed

  unfoldable pub check_clients : List ClientRow → Option FormProblem
  check_clients [] = none
  check_clients (rule ∷ rules) =
      let later = check_clients rules in
      if is_empty (normalize_address rule.address)
      then some
          (record { tab = access; message = text "Enter an IP, CIDR, or “all” for every rule." })
      else later

  unfoldable pub validate_access_list_form : ListForm → Option FormProblem
  validate_access_list_form state =
      if is_empty (trim state.name)
      then some (record { tab = details; message = text "Enter a name for the access list." })
      else unless_problem (check_users [] (submittable_users state))
          (check_clients (submittable_clients state))

  abbrev pub rule_payload : ClientRow → RulePayload
  rule_payload c = record { address = normalize_address c.address; directive = c.directive }

  abbrev pub client_payload : ListForm → List RulePayload
  client_payload state = map rule_payload (submittable_clients state)

  unfoldable pub build_create_payload : ListForm → ListPayload
  build_create_payload state = record {
    name = trim state.name;
    satisfy_any = state.satisfy_any;
    pass_auth = state.pass_auth;
    auth_users = map created_user (submittable_users state);
    clients = client_payload state;
  }

  unfoldable pub build_update_payload : ListForm → ListPayload
  build_update_payload state = record {
    name = trim state.name;
    satisfy_any = state.satisfy_any;
    pass_auth = state.pass_auth;
    auth_users = map updated_user (submittable_users state);
    clients = client_payload state;
  }
