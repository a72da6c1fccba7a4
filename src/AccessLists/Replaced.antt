-- ===== src/AccessLists/Replaced.antt =====
-- An update replaces the users and the rules whole, so what is not touched must be sent as stored.
use megoo_pm.Prelude.{◌≡◌, refl, false, not, none, some, List, [], ◌∷◌, map, filter, All}
use megoo_pm.Text.{Text}
use megoo_pm.Text.Trim.{IsTrimmed}
use megoo_pm.AccessLists.{
  StoredUser, StoredRule, AccessList, UserPayload, RulePayload, given_or, user_row_of,
  client_row_of, state_from_list, is_blank_user, is_blank_client, normalize_address, rule_payload,
  updated_user, build_update_payload,
}

-- A stored user, sent to be kept with its password.
abbrev pub kept_user : StoredUser → UserPayload
kept_user u = record { username = u.username; password = none }

abbrev pub kept_rule : StoredRule → RulePayload
kept_rule c = record { address = c.address; directive = c.directive }

module _ (lower : Text → Text) where
  -- As the server stores a list: trimmed names, and addresses in the form that is sent.
  pub record ListStored (l : AccessList) : Type 0 where
    pub named : IsTrimmed l.name
    pub users : All (λ (u : StoredUser). IsTrimmed u.username) (given_or l.auth_users [])
    pub rules :
        All
          (λ (c : StoredRule). normalize_address lower c.address ≡ c.address)
          (given_or l.client_rules [])

  users_kept :
      (us : List StoredUser)
      → All (λ (u : StoredUser). IsTrimmed u.username) us
      → map updated_user (filter (λ u. not (is_blank_user u)) (map user_row_of us))
        ≡ map kept_user us
  unfolding is_blank_user updated_user
  users_kept [] h = refl
  users_kept (u ∷ us) (t, ts) = rw (t, users_kept us ts) refl

  rules_kept :
      (cs : List StoredRule)
      → All (λ (c : StoredRule). normalize_address lower c.address ≡ c.address) cs
      → map (rule_payload lower) (filter (λ c. not (is_blank_client c)) (map client_row_of cs))
        ≡ map kept_rule cs
  unfolding is_blank_client
  rules_kept [] h = refl
  rules_kept (c ∷ cs) (t, ts) = rw (t, rules_kept cs ts) refl

  -- Opening the dialog on a stored list and saving it unchanged sends the list as it is stored:
  -- every user, to be kept with its password, and every rule, in order.
  pub build_update_payload-state_from_list :
      (l : AccessList)
      → ListStored l
      → build_update_payload lower (state_from_list (some l)) ≡ record {
        name = l.name;
        satisfy_any = given_or l.satisfy_any false;
        pass_auth = given_or l.pass_auth false;
        auth_users = map kept_user (given_or l.auth_users []);
        clients = map kept_rule (given_or l.client_rules []);
      }
  unfolding build_update_payload state_from_list
  build_update_payload-state_from_list l h =
      rw
        (
          h.named,
          users_kept (given_or l.auth_users []) h.users,
          rules_kept (given_or l.client_rules []) h.rules,
        )
        refl
