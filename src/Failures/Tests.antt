-- ===== src/Failures/Tests.antt =====
-- A refused form: two messages for one field, one for another.
use megoo_pm.Prelude.{◌≡◌, refl, some, List, [], ◌∷◌}
use megoo_pm.Text.{has, same, text}
use megoo_pm.Entries.{lookup}
use megoo_pm.Failures.{
  field_in, add_item, DetailItem, item, named, at, detail_text, detail_list, ApiError, api_failure,
  describe_error,
}

abbrev refused_items : List DetailItem
refused_items =
    item (some (named (text "body") ∷ named (text "domain_names") ∷ at 0 ∷ []))
      (some (text "Bad domain"))
    ∷ item (some (named (text "body") ∷ named (text "port") ∷ [])) (some (text "Too large"))
    ∷ item (some (named (text "body") ∷ named (text "domain_names") ∷ at 1 ∷ []))
        (some (text "Also bad"))
    ∷ []

abbrev refused : ApiError
refused = record {
  status = 422;
  message = text "Unprocessable";
  body = some (detail_list refused_items);
}

described : describe_error (api_failure refused) ≡ record {
  message = text "Bad domain";
  field_errors = (text "domain_names", text "Bad domain") ∷ (text "port", text "Too large") ∷ [];
}
unfolding describe_error text add_item field_in same has lookup
described = refl

conflict :
    describe_error (
      api_failure
        (record { status = 409; message = text "409"; body = some (detail_text (text "In use")) }))
    ≡ record { message = text "In use"; field_errors = [] }
unfolding describe_error
conflict = refl
