-- ===== src/Auth/Tests.antt =====
-- Tests and examples for the session's state, over the cookies.
use megoo_pm.Prelude.{
  ◌+◌, ℕ, ◌≡◌, refl, true, Option, none, some, [], ◌∷◌, length, arith, if◌then◌else◌,
}
use megoo_pm.Text.{Text, text, same, starts_with, includes}
use megoo_pm.Json
use megoo_pm.Json.{Json, obj, str, bool, entry, end}
use megoo_pm.Session.{
  get_access_token, get_refresh_token, read_cookie, session_cookie, refresh_cookie,
}
use megoo_pm.Session.Cookies.{NoEquals}
use megoo_pm.Session.Tokens.{TokenStore, cookie_store}
use megoo_pm.Accounts.{missing}
use megoo_pm.Client.{Request, Reply, from_provider, parse_body}
use megoo_pm.Auth.{
  Page, loading, truthy, me_request, token_refresher, request, hydrate, logout, login,
}
use megoo_pm.Auth.Refreshing.{Sends, request-Sends}
use megoo_pm.Auth.Ending.{
  RefreshEnds, GivenIsStored, token_refresher-ends, Settled, hydrate-Settled, SignedOut,
  logout-SignedOut,
}
use megoo_pm.Auth.SigningIn.{LoginOk, login_answer, knocked, login-LoginOk}

abbrev shift : Text → Text
shift v = 37 ∷ v

abbrev unshift : Text → Text
unshift [] = []
unshift (c ∷ v) = v

abbrev cookies : TokenStore
cookies = cookie_store shift unshift (λ v. refl) true

-- A backend that knows the access token "new" and the refresh token of anyone
abbrev answered : ℕ → Text → Option Reply
answered status body =
    some (record { status = status; content_type = some (text "application/json"); body = body })

abbrev is_new : Option Text → Text → Option Reply
is_new none body = answered 401 (text "no")
is_new (some t) body = if same t (text "new") then answered 200 body else answered 401 (text "no")

abbrev backend : Request → ℕ → ℕ × Option Reply
backend r n = (
  n + 1,
  if same r.path (text "/api/v1/users/me")
      then is_new r.bearer (text "me")
      else answered 200 (text "pair"),
)

abbrev parse : Text → Option Json
parse s =
    if same s (text "me")
    then some (obj (entry (text "email") (str (text "ann@a.test")) end))
    else some (
        obj (
          entry (text "access_token") (str (text "new"))
            (entry (text "refresh_token") (str (text "next")) end)))

session_named : NoEquals session_cookie
unfolding text
session_named = omega arith

refresh_named : NoEquals refresh_cookie
unfolding text
refresh_named = omega arith

abbrev expired : Page cookies backend parse
expired = record {
  user = none;
  status = loading;
  store = (
    (session_cookie, text "%old") ∷ (refresh_cookie, text "%one") ∷ [],
    (session_named, (refresh_named, tt)),
  );
  accounts = record { stored = missing; writable = true };
  server = 0;
  sent = [];
}

renewed_once : length (hydrate cookies backend parse expired).sent ≡ 3
unfolding hydrate get_access_token read_cookie starts_with text request same token_refresher
    get_refresh_token parse_body includes Json.get truthy Json.string_of
renewed_once = refl

request-Sends_example :
    Sends cookies backend parse from_provider me_request expired
      (request cookies backend parse from_provider me_request expired).0
request-Sends_example = request-Sends cookies backend parse from_provider me_request expired

token_refresher-ends_example :
    let r : Page cookies backend parse × Option Text =
      token_refresher cookies backend parse expired in
    RefreshEnds cookies backend parse expired r × GivenIsStored cookies backend parse r.0 r.1
token_refresher-ends_example = token_refresher-ends cookies backend parse expired

hydrate-Settled_example : Settled cookies backend parse (hydrate cookies backend parse expired)
hydrate-Settled_example = hydrate-Settled cookies backend parse expired refl

logout-SignedOut_example : SignedOut cookies backend parse (logout cookies backend parse expired)
logout-SignedOut_example = logout-SignedOut cookies backend parse expired

login-LoginOk_example :
    LoginOk cookies backend parse
      (λ s. s)
      (text "today")
      (login_answer cookies backend parse
        (λ s. s)
        (text "today")
        (text "ann@a.test")
        (text "secret")
        expired)
      expired
      (knocked cookies backend parse
        (λ s. s)
        (text "today")
        (text "ann@a.test")
        (text "secret")
        expired)
      (login cookies backend parse
        (λ s. s)
        (text "today")
        (text "ann@a.test")
        (text "secret")
        expired)
login-LoginOk_example =
    login-LoginOk cookies backend parse (λ s. s) (text "today") (text "ann@a.test") (text "secret")
      expired
