-- ===== src/Session.antt =====
-- frontend/src/lib/auth/session.ts and frontend/src/proxy.ts: the token cookies and the route
-- guard. The browser's cookie jar is a list of names and encoded values; an assignment to
-- `document.cookie` is a `SetCookie`, which the jar applies. `encode` and `decode` stand for
-- `encodeURIComponent` and `decodeURIComponent`.
pub mod Cookies
pub mod Tokens
pub mod Guard
mod Tests
use megoo_pm.Prelude.{
  ℕ, ◌*◌, Bool, true, false, not, ◌&&◌, ◌||◌, Option, none, some, List, [], ◌∷◌, ◌++◌, map, length,
  drop, any, ◌==◌, if◌then◌else◌,
}
use megoo_pm.Text.{Text, text, same, starts_with, is_empty}

pub record TokenPair : Type 0 where
  pub access_token : Text
  pub refresh_token : Text

abbrev pub session_cookie : Text
session_cookie = text "megoopm_session"

abbrev pub refresh_cookie : Text
refresh_cookie = text "megoopm_refresh"

abbrev pub login_route : Text
login_route = text "/login"

abbrev pub cookie_max_age : ℕ
cookie_max_age = 60 * 60 * 24 * 7

abbrev pub public_routes : List Text
public_routes =
    login_route ∷ text "/forgot-password" ∷ text "/reset-password" ∷ text "/accept-invite" ∷ []

unfoldable pub is_public_route : Text → Bool
is_public_route pathname =
    any (λ route. same pathname route || starts_with pathname (route ++ b'/' ∷ [])) public_routes

-- `Path=/; Max-Age=…; SameSite=Lax`, and `; Secure` or not
pub record SetCookie : Type 0 where
  pub name : Text
  pub value : Text
  pub max_age : ℕ
  pub secure : Bool

abbrev pub Jar : Type 0
Jar = List (Text × Text)

-- The browser: a lifetime of 0 deletes the cookie, any other replaces or adds it.
unfoldable pub put : Text → Text → Jar → Jar
put name value [] = (name, value) ∷ []
put name value ((n, v) ∷ jar) =
    if same n name then (name, value) ∷ jar else (n, v) ∷ put name value jar

unfoldable pub remove : Text → Jar → Jar
remove name [] = []
remove name ((n, v) ∷ jar) = if same n name then remove name jar else (n, v) ∷ remove name jar

unfoldable pub assign : SetCookie → Jar → Jar
assign c jar = if c.max_age == 0 then remove c.name jar else put c.name c.value jar

-- `document.cookie.split("; ")`
unfoldable pub cookie_parts : Jar → List Text
cookie_parts jar = map (λ cookie. cookie.0 ++ b'=' ∷ cookie.1) jar

abbrev pub is_some : Option Text → Bool
is_some none = false
is_some (some s) = true

-- `Boolean(value)` of a text or `undefined`
abbrev pub truthy : Option Text → Bool
truthy none = false
truthy (some s) = not (is_empty s)

module _ (decode : Text → Text) where
  -- the loop of `readCookie`
  find_part : Text → List Text → Option Text
  find_part prefix [] = none
  find_part prefix (part ∷ parts) =
      if starts_with part prefix
      then some (decode (drop (length prefix) part))
      else find_part prefix parts

  unfoldable pub read_cookie : Text → Jar → Option Text
  unfolding find_part cookie_parts
  read_cookie name jar = find_part (name ++ b'=' ∷ []) (cookie_parts jar)

  unfoldable pub get_access_token : Jar → Option Text
  get_access_token jar = read_cookie session_cookie jar

  unfoldable pub get_refresh_token : Jar → Option Text
  get_refresh_token jar = read_cookie refresh_cookie jar

  -- `getAccessToken() !== null || getRefreshToken() !== null`
  unfoldable pub has_session : Jar → Bool
  has_session jar = is_some (get_access_token jar) || is_some (get_refresh_token jar)

module _ (encode : Text → Text) where
  -- `https` says that the page's protocol is "https:"
  unfoldable pub write_cookie : Bool → Text → Text → Jar → Jar
  unfolding assign
  write_cookie https name value jar =
      assign
        (record { name = name; value = encode value; max_age = cookie_max_age; secure = https }) jar

  unfoldable pub persist_session : Bool → TokenPair → Jar → Jar
  persist_session https tokens jar =
      write_cookie https refresh_cookie tokens.refresh_token
        (write_cookie https session_cookie tokens.access_token jar)

unfoldable pub delete_cookie : Text → Jar → Jar
unfolding assign
delete_cookie name jar =
    assign (record { name = name; value = []; max_age = 0; secure = false }) jar

unfoldable pub clear_session : Jar → Jar
clear_session jar = delete_cookie refresh_cookie (delete_cookie session_cookie jar)

-- proxy.ts. `enabled` is `isAuthEnabled()`, `cookie` the session cookie of the request.
pub data Verdict : Type 0 where
  next : Verdict
  redirect : Text → Option Text → Verdict

pub record PageRequest : Type 0 where
  pub pathname : Text
  pub search : Text
  pub cookie : Option Text

unfoldable pub proxy : Bool → PageRequest → Verdict
proxy enabled request =
    if not enabled
    then next
    else if is_public_route request.pathname
    then next
    else if truthy request.cookie
    then next
    else redirect login_route (some (request.pathname ++ request.search))
