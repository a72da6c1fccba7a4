-- ===== src/Session/Tests.antt =====
-- Tests and examples for the token cookies and the route guard.
use megoo_pm.Prelude.{◌≡◌, refl, ◌↔◌, ◌≢◌, true, false, none, some, [], ◌∷◌, ◌++◌, arith}
use megoo_pm.Text.{Text, text, same, starts_with}
use megoo_pm.Session.{
  Jar, TokenPair, PageRequest, next, redirect, session_cookie, refresh_cookie, login_route,
  public_routes, read_cookie, get_access_token, get_refresh_token, persist_session, write_cookie,
  clear_session, has_session, is_public_route, proxy, truthy, assign, put,
}
use megoo_pm.Session.Cookies.{NoEquals}
use megoo_pm.Session.Tokens.{persist_session-read, clear_session-read}
use megoo_pm.Session.Guard.{Under, proxy-redirect_iff, proxy-settles}

abbrev shift : Text → Text
shift v = 37 ∷ v

abbrev unshift : Text → Text
unshift [] = []
unshift (c ∷ v) = v

abbrev jar : Jar
jar = (text "sidebar_state", text "true") ∷ []

abbrev tokens : TokenPair
tokens = record { access_token = text "a.b"; refresh_token = text "r.s" }

writes :
    persist_session shift true tokens jar
    ≡ (text "sidebar_state", text "true")
      ∷ (session_cookie, text "%a.b")
      ∷ (refresh_cookie, text "%r.s")
      ∷ []
unfolding persist_session write_cookie assign put same text
writes = refl

named : NoEquals (text "sidebar_state")
unfolding text
named = omega arith

persist_session-read_example :
    (get_access_token unshift (persist_session shift true tokens jar) ≡ some tokens.access_token)
    × (get_refresh_token unshift (persist_session shift true tokens jar)
        ≡ some tokens.refresh_token)
    × ((other : Text)
        → NoEquals other
        → other ≢ session_cookie
        → other ≢ refresh_cookie
        → read_cookie unshift other (persist_session shift true tokens jar)
          ≡ read_cookie unshift other jar)
persist_session-read_example =
    persist_session-read shift unshift (λ v. refl) true tokens jar (named, tt)

clear_session-read_example :
    (get_access_token unshift (clear_session jar) ≡ none)
    × (get_refresh_token unshift (clear_session jar) ≡ none)
    × (has_session unshift (clear_session jar) ≡ false)
    × ((other : Text)
        → NoEquals other
        → other ≢ session_cookie
        → other ≢ refresh_cookie
        → read_cookie unshift other (clear_session jar) ≡ read_cookie unshift other jar)
clear_session-read_example = clear_session-read unshift jar (named, tt)

abbrev visit : PageRequest
visit = record { pathname = text "/loginx"; search = text "?a=1"; cookie = none }

blocked : proxy true visit ≡ redirect login_route (some (text "/loginx?a=1"))
unfolding proxy is_public_route same starts_with text
blocked = refl

proxy-redirect_iff_example :
    (proxy true visit ≡ redirect login_route (some (text "/loginx?a=1"))) ↔ (
      (true ≡ true)
      × (¬ Under visit.pathname public_routes)
      × (truthy visit.cookie ≡ false)
      × (login_route ≡ login_route)
      × (some (text "/loginx?a=1") ≡ some (visit.pathname ++ visit.search)))
proxy-redirect_iff_example = proxy-redirect_iff true visit login_route (some (text "/loginx?a=1"))

proxy-settles_example :
    proxy true (record { pathname = login_route; search = []; cookie = none }) ≡ next
proxy-settles_example =
    proxy-settles true visit login_route (some (text "/loginx?a=1")) blocked [] none
