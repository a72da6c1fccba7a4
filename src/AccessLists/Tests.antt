-- ===== src/AccessLists/Tests.antt =====
-- Tests and examples for the dialog of an access list.
use megoo_pm.Prelude.{◌≡◌, refl, ◌↔◌, true, false, none, some, [], ◌∷◌, All, Distinct, map}
use megoo_pm.Text.{text, trim, trim_start, trim_end, is_space, is_empty, same, has}
use megoo_pm.AccessLists.{
  deny, authorization, ListForm, AccessList, given_or, state_from_list, is_blank_user,
  submittable_users, submittable_clients, user_message, check_users, normalize_address,
  validate_access_list_form, build_update_payload,
}
use megoo_pm.AccessLists.Accepted.{UserOk, usernames, RuleOk, validate_access_list_form_iff}
use megoo_pm.AccessLists.Replaced.{
  kept_user, kept_rule, ListStored, build_update_payload-state_from_list,
}

abbrev office : AccessList
office = record {
  name = text "office";
  satisfy_any = some true;
  pass_auth = none;
  auth_users = some (record { id = 1; username = text "ann" } ∷ []);
  client_rules = some (record { id = 4; address = text "all"; directive = deny } ∷ []);
}

office_stored : ListStored (λ s. s) office
unfolding trim trim_start trim_end is_space text normalize_address same
office_stored = record { named = refl; users = (refl, tt); rules = (refl, tt) }

build_update_payload-state_from_list_example :
    build_update_payload (λ s. s) (state_from_list (some office)) ≡ record {
      name = office.name;
      satisfy_any = given_or office.satisfy_any false;
      pass_auth = given_or office.pass_auth false;
      auth_users = map kept_user (given_or office.auth_users []);
      clients = map kept_rule (given_or office.client_rules []);
    }
build_update_payload-state_from_list_example =
    build_update_payload-state_from_list (λ s. s) office office_stored

abbrev typed : ListForm
typed = record {
  name = text " home";
  satisfy_any = false;
  pass_auth = false;
  users =
      record { id = none; username = text "bo "; password = text "pw" }
      ∷ record { id = none; username = []; password = [] }
      ∷ record { id = none; username = text "bo"; password = text "pw" }
      ∷ [];
  clients = [];
}

listed_twice :
    validate_access_list_form (λ s. s) typed
    ≡ some (record {
      tab = authorization;
      message = text "“bo” is listed twice — usernames must be unique.";
    })
unfolding validate_access_list_form is_blank_user check_users user_message trim trim_start trim_end
    is_space text has same
listed_twice = refl

validate_access_list_form_iff_example : (validate_access_list_form (λ s. s) typed ≡ none) ↔ (
    (is_empty (trim typed.name) ≡ false)
    × All UserOk (submittable_users typed)
    × Distinct (usernames (submittable_users typed))
    × All (RuleOk (λ s. s)) (submittable_clients typed))
validate_access_list_form_iff_example = validate_access_list_form_iff (λ s. s) typed
