-- ===== src/Client.antt =====
-- frontend/src/lib/api/client.ts: `apiFetch`, over a server that the platform's `fetch` reaches.
-- The address that `buildUrl` makes of a path, and the headers but the bearer token, are left out.
pub mod Once
use megoo_pm.Prelude.{
  ℕ, Bool, true, false, not, ◌&&◌, Option, none, some, List, [], ◌∷◌, leb, ◌==◌, if◌then◌else◌,
}
use megoo_pm.Text.{Text, text, is_empty, includes}
use megoo_pm.Json.{Json}

pub data Method : Type 0 where
  get post put patch delete : Method

-- The body is the value that `JSON.stringify` prints.
pub record Request : Type 0 where
  pub method : Method
  pub path : Text
  pub body : Option Json
  pub bearer : Option Text

pub record Reply : Type 0 where
  pub status : ℕ
  pub content_type : Option Text
  pub body : Text

pub data Payload : Type 0 where
  no_body : Payload
  json : Json → Payload
  plain : Text → Payload

-- What the promise comes to: a value, an `ApiError`, or what `fetch` or `response.json` throws.
pub data Outcome : Type 0 where
  returned : Payload → Outcome
  api_error : ℕ → Payload → Outcome
  thrown : Outcome

-- The option `token`: absent, or the token to send instead of the session's.
pub data TokenOption : Type 0 where
  from_provider : TokenOption
  given : Option Text → TokenOption

-- `response.ok`
abbrev pub is_ok : ℕ → Bool
is_ok status = leb 200 status && leb status 299

-- `if (bearer)`
abbrev pub bearer_of : Option Text → Option Text
bearer_of none = none
bearer_of (some t) = if is_empty t then none else some t

abbrev or_blank : Option Text → Text
or_blank none = []
or_blank (some s) = s

-- `none` is what `response.json` throws.
module _ (json_parse : Text → Option Json) where
  abbrev pub as_json : Option Json → Option Payload
  as_json none = none
  as_json (some j) = some (json j)

  unfoldable pub parse_body : Reply → Option Payload
  parse_body r =
      if r.status == 204
      then some no_body
      else if includes (or_blank r.content_type) (text "application/json")
      then as_json (json_parse r.body)
      else if not (is_empty r.body)
      then some (plain r.body)
      else some no_body

  abbrev pub settled : ℕ → Option Payload → Outcome
  settled status none = thrown
  settled status (some p) = if not (is_ok status) then api_error status p else returned p

  -- `apiFetch`, once it has its response
  abbrev pub settle : Option Reply → Outcome
  settle none = thrown
  settle (some r) = settled r.status (parse_body r)

-- `A` is what a request can change in the client and the server, `get_auth_token` the registered
-- provider, and `token_refresher` the refresher, if one is registered.
module _ {A : Type 0} (json_parse : Text → Option Json) (fetch : Request → A → A × Option Reply)
    (get_auth_token : A → Option Text) where
  abbrev pub send : Request → Option Text → A → A × Option Reply
  send request bearer a = fetch (record request { bearer = bearer_of bearer }) a

  abbrev pub first_bearer : TokenOption → A → Option Text
  first_bearer from_provider a = get_auth_token a
  first_bearer (given t) a = t

  -- The second attempt, with what the refresher gave, or else the first response
  abbrev pub again : Request → Reply → A × Option Text → A × Outcome
  again request r (a, none) = (a, settle json_parse (some r))
  again request r (a, some t) =
      if is_empty t
      then (a, settle json_parse (some r))
      else let second = send request (some t) a in (second.0, settle json_parse second.1)

  abbrev pub may_refresh : TokenOption → Option (A → A × Option Text) → Option (A → A × Option Text)
  may_refresh from_provider refresher = refresher
  may_refresh (given t) refresher = none

  unfoldable pub respond : Option (A → A × Option Text) → Request → A × Option Reply → A × Outcome
  respond refresher request (a, none) = (a, thrown)
  respond none request (a, some r) = (a, settle json_parse (some r))
  respond (some refresh) request (a, some r) =
      if r.status == 401 then again request r (refresh a) else (a, settle json_parse (some r))

  unfoldable pub api_fetch : Option (A → A × Option Text) → TokenOption → Request → A → A × Outcome
  unfolding respond
  api_fetch token_refresher token request a =
      respond (may_refresh token token_refresher) request (send request (first_bearer token a) a)
