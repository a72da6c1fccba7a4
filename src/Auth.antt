-- ===== src/Auth.antt =====
-- frontend/src/lib/auth/context.tsx: the session's state in the page, and what signs in and out of
-- it, over a token store. The requests are those of frontend/src/lib/auth/api.ts. A passkey's
-- ceremony is left out; what it ends with is `finish_login`.
pub mod Refreshing
pub mod Ending
pub mod Unchanged
pub mod SigningIn
mod Tests
use megoo_pm.Prelude.{ℕ, Bool, true, false, ◌||◌, Option, none, some, List, [], ◌∷◌, if◌then◌else◌}
use megoo_pm.Text.{Text, text, same, is_empty}
use megoo_pm.Json.{Json, null, bool, num, str, arr, obj, end, entry, as_text, js_string}
use megoo_pm.Json
use megoo_pm.Session.{TokenPair, is_some}
use megoo_pm.Session.Tokens.{TokenStore}
use megoo_pm.Accounts.{Storage, remember_account}
use megoo_pm.Client.{
  Request, get, post, Reply, Payload, no_body, json, plain, Outcome, returned, api_error, thrown,
  TokenOption, from_provider, given, api_fetch,
}

pub data AuthStatus : Type 0 where
  loading authenticated unauthenticated : AuthStatus

-- The provider's state, the tokens and the remembered accounts; `server` is the other side of
-- `fetch`, and `sent` the requests that it got, the last first.
pub record App (S T : Type 0) : Type 0 where
  pub user : Option Payload
  pub status : AuthStatus
  pub store : T
  pub accounts : Storage
  pub server : S
  pub sent : List Request

-- What the promise comes to: `failed thrown` is also what the code itself throws.
pub data LoginResult : Type 0 where
  signed_in : LoginResult
  challenge : Option Text → LoginResult
  failed : Outcome → LoginResult

abbrev pub member : Text → Payload → Option Json
member key (json j) = Json.get key j
member key _ = none

abbrev text_of : Option Text → Text
text_of none = []
text_of (some s) = s

-- `value.key`, where a value that is no text is read back as the empty text
abbrev pub text_member : Text → Payload → Text
text_member key p = text_of (as_text (member key p))

-- The cookies hold `String` of what the reply holds, "undefined" for a missing member.
abbrev pub pair_of : Payload → TokenPair
pair_of p = record {
  access_token = js_string (member (text "access_token") p);
  refresh_token = js_string (member (text "refresh_token") p);
}

-- `none`: the member of undefined or null throws.
abbrev pub tokens_of : Payload → Option TokenPair
tokens_of no_body = none
tokens_of (json null) = none
tokens_of p = some (pair_of p)

-- A value that is falsy gives none. An array that prints as the empty text is taken for one.
unfoldable pub truthy : Option Json → Option Text
truthy none = none
truthy (some null) = none
truthy (some (bool false)) = none
truthy (some (num t)) = if same t (text "0") then none else some t
truthy (some v) = some (js_string (some v))

-- `setUser(me)`, where undefined is no user either
abbrev pub user_of : Payload → Option Payload
user_of no_body = none
user_of (json null) = none
user_of me = some me

-- `isMfaRequired`; `none`: the operator `in` throws on a value that is no object.
abbrev pub is_true : Option Json → Bool
is_true (some (bool true)) = true
is_true _ = false

unfoldable pub is_mfa_required : Payload → Option Bool
is_mfa_required (json (obj fs)) = some (is_true (Json.get_field (text "mfa_required") fs))
is_mfa_required (json (arr vs)) = some false
is_mfa_required _ = none

abbrev pub refresh_request : Text → Request
refresh_request token = record {
  method = post;
  path = text "/api/v1/auth/refresh";
  body = some (obj (entry (text "refresh_token") (str token) end));
  bearer = none;
}

abbrev pub login_request : Text → Text → Request
login_request email password = record {
  method = post;
  path = text "/api/v1/auth/login";
  body = some (obj (entry (text "email") (str email) (entry (text "password") (str password) end)));
  bearer = none;
}

abbrev pub verify_mfa_request : Text → Text → Request
verify_mfa_request mfa_token code = record {
  method = post;
  path = text "/api/v1/auth/mfa/verify";
  body = some (obj (entry (text "mfa_token") (str mfa_token) (entry (text "code") (str code) end)));
  bearer = none;
}

abbrev pub me_request : Request
me_request = record { method = get; path = text "/api/v1/users/me"; body = none; bearer = none }

module _ (K : TokenStore) {S : Type 0} (serve : Request → S → S × Option Reply)
    (json_parse : Text → Option Json) where
  abbrev pub Page : Type 0
  Page = App S K.Store

  abbrev pub fetch : Request → Page → Page × Option Reply
  fetch request a =
      let answer = serve request a.server in
      (record a { server = answer.0; sent = request ∷ a.sent }, answer.1)

  abbrev pub get_auth_token : Page → Option Text
  get_auth_token a = K.access a.store

  unfoldable pub end_session : Page → Page
  end_session a = record a { store = K.clear a.store; user = none; status = unauthenticated }

  abbrev pub persisted : Option TokenPair → Option Text → Page → Page × Option Text
  persisted none token a = (end_session a, none)
  persisted (some tokens) token a = (record a { store = K.persist tokens a.store }, token)

  -- The refresher, once the backend answered
  abbrev pub refreshed : Page × Outcome → Page × Option Text
  refreshed (a, returned p) = persisted (tokens_of p) (truthy (member (text "access_token") p)) a
  refreshed (a, _) = (end_session a, none)

  abbrev pub refresh_with : Option Text → Page → Page × Option Text
  refresh_with none a = (end_session a, none)
  refresh_with (some token) a =
      if is_empty token
      then (end_session a, none)
      else refreshed
          (api_fetch json_parse fetch get_auth_token none (given none) (refresh_request token) a)

  -- What the provider registers by `setTokenRefresher`
  unfoldable pub token_refresher : Page → Page × Option Text
  token_refresher a = refresh_with (K.refresh a.store) a

  -- A request of the page, while the provider is mounted
  unfoldable pub request : TokenOption → Request → Page → Page × Outcome
  unfolding api_fetch
  request token r a = api_fetch json_parse fetch get_auth_token (some token_refresher) token r a

  abbrev pub fetch_current_user : Page → Page × Outcome
  fetch_current_user a = request from_provider me_request a

  abbrev pub hydrated : Page × Outcome → Page
  hydrated (a, returned me) = record a { user = user_of me; status = authenticated }
  hydrated (a, _) = end_session a

  -- The effect on the first mount, of a provider that stays mounted
  unfoldable pub hydrate : Page → Page
  hydrate a =
      if is_some (K.access a.store) || is_some (K.refresh a.store)
      then hydrated (fetch_current_user a)
      else record a { status = unauthenticated }

  unfoldable pub logout : Page → Page
  logout a = end_session a

  -- `now` and `lower` are those of `rememberAccount`.
  module _ (lower : Text → Text) (now : Text) where
    -- `rememberAccount(me)`, where `me.email.trim` of no text throws
    abbrev pub remembering : Option Text → Payload → Page → Page × LoginResult
    remembering none me a = (a, failed thrown)
    remembering (some email) me a = (
      record a {
        accounts = remember_account lower now email (text_member (text "full_name") me) a.accounts;
      },
      signed_in,
    )

    abbrev pub welcomed : Page × Outcome → Page × LoginResult
    welcomed (a, returned me) =
        remembering (as_text (member (text "email") me)) me
          (record a { user = user_of me; status = authenticated })
    welcomed (a, o) = (a, failed o)

    unfoldable pub finish_login : Option TokenPair → Page → Page × LoginResult
    finish_login none a = (a, failed thrown)
    finish_login (some tokens) a =
        welcomed (fetch_current_user (record a { store = K.persist tokens a.store }))

    abbrev pub challenged : Option Bool → Payload → Page → Page × LoginResult
    challenged none p a = (a, failed thrown)
    challenged (some true) p a = (a, challenge (as_text (member (text "mfa_token") p)))
    challenged (some false) p a = finish_login (tokens_of p) a

    abbrev pub logged : Page × Outcome → Page × LoginResult
    logged (a, returned p) = challenged (is_mfa_required p) p a
    logged (a, o) = (a, failed o)

    unfoldable pub login : Text → Text → Page → Page × LoginResult
    login email password a = logged (request (given none) (login_request email password) a)

    abbrev pub verified : Page × Outcome → Page × LoginResult
    verified (a, returned p) = finish_login (tokens_of p) a
    verified (a, o) = (a, failed o)

    unfoldable pub verify_mfa : Text → Text → Page → Page × LoginResult
    verify_mfa mfa_token code a =
        verified (request (given none) (verify_mfa_request mfa_token code) a)
