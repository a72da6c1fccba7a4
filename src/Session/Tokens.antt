-- ===== src/Session/Tokens.antt =====
-- A token store behind its laws, and the cookies as one.
use megoo_pm.Prelude.{◌≡◌, refl, ◌≢◌, Bool, false, Option, none, some, arith}
use megoo_pm.Text.{Text, text, same}
use megoo_pm.Text.Equality.{same_iff, same_refl}
use megoo_pm.Session.{
  Jar, TokenPair, session_cookie, refresh_cookie, read_cookie, write_cookie, delete_cookie,
  get_access_token, get_refresh_token, persist_session, clear_session, has_session,
}
use megoo_pm.Session.Cookies.{
  NoEquals, IsNamed, read_cookie-write, write_cookie-IsNamed, read_cookie-delete,
  delete_cookie-IsNamed,
}

-- What the auth layer needs of `lib/auth/session`.
pub record TokenStore : Type 1 where
  pub Store : Type 0
  pub access : Store → Option Text
  pub refresh : Store → Option Text
  pub persist : TokenPair → Store → Store
  pub clear : Store → Store
  pub access-persist : (t : TokenPair) (s : Store) → access (persist t s) ≡ some t.access_token
  pub refresh-persist : (t : TokenPair) (s : Store) → refresh (persist t s) ≡ some t.refresh_token
  pub access-clear : (s : Store) → access (clear s) ≡ none
  pub refresh-clear : (s : Store) → refresh (clear s) ≡ none

session_named : NoEquals session_cookie
unfolding text
session_named = omega arith

refresh_named : NoEquals refresh_cookie
unfolding text
refresh_named = omega arith

names_differ :
    (same session_cookie refresh_cookie ≡ false) × (same refresh_cookie session_cookie ≡ false)
unfolding text same
names_differ = (refl, refl)

module _ (encode decode : Text → Text) (decode-encode : (v : Text) → decode (encode v) ≡ v) where
  -- After a token pair is stored both tokens read back, and every other cookie is as it was.
  pub persist_session-read :
      (https : Bool) (tokens : TokenPair) (jar : Jar)
      → IsNamed jar
      → (get_access_token decode (persist_session encode https tokens jar)
          ≡ some tokens.access_token)
        × (get_refresh_token decode (persist_session encode https tokens jar)
            ≡ some tokens.refresh_token)
        × ((other : Text)
            → NoEquals other
            → other ≢ session_cookie
            → other ≢ refresh_cookie
            → read_cookie decode other (persist_session encode https tokens jar)
              ≡ read_cookie decode other jar)
  unfolding persist_session get_access_token get_refresh_token
  persist_session-read https tokens jar v =
      let inner = write_cookie encode https session_cookie tokens.access_token jar in
      let named =
        write_cookie-IsNamed encode https session_cookie tokens.access_token jar session_named v in
      let outer = λ (other : Text) (k : NoEquals other).
        read_cookie-write encode decode https refresh_cookie other tokens.refresh_token inner
          refresh_named k named in
      let within = λ (other : Text) (k : NoEquals other).
        read_cookie-write encode decode https session_cookie other tokens.access_token jar
          session_named k v in
      (
        rw
            (
              outer session_cookie session_named,
              names_differ.1,
              within session_cookie session_named,
              same_refl session_cookie,
              decode-encode _,
            )
            refl,
        rw (outer refresh_cookie refresh_named, same_refl refresh_cookie, decode-encode _) refl,
        λ other k p q. ground (
          arith,
          outer other k,
          within other k,
          same_iff refresh_cookie other,
          same_iff session_cookie other,
        ),
      )

-- After the session is cleared no token is left, and every other cookie is as it was.
pub clear_session-read :
    (decode : Text → Text) (jar : Jar)
    → IsNamed jar
    → (get_access_token decode (clear_session jar) ≡ none)
      × (get_refresh_token decode (clear_session jar) ≡ none)
      × (has_session decode (clear_session jar) ≡ false)
      × ((other : Text)
          → NoEquals other
          → other ≢ session_cookie
          → other ≢ refresh_cookie
          → read_cookie decode other (clear_session jar) ≡ read_cookie decode other jar)
unfolding clear_session get_access_token get_refresh_token has_session
clear_session-read decode jar v =
    let inner = delete_cookie session_cookie jar in
    let named = delete_cookie-IsNamed session_cookie jar v in
    let outer = λ (other : Text) (k : NoEquals other).
      read_cookie-delete decode refresh_cookie other inner k named in
    let within = λ (other : Text) (k : NoEquals other).
      read_cookie-delete decode session_cookie other jar k v in
    let no_access : get_access_token decode (clear_session jar) ≡ none =
      rw
        (
          outer session_cookie session_named,
          names_differ.1,
          within session_cookie session_named,
          same_refl session_cookie,
        )
        refl in
    let no_refresh : get_refresh_token decode (clear_session jar) ≡ none =
      rw (outer refresh_cookie refresh_named, same_refl refresh_cookie) refl in
    (
      no_access,
      no_refresh,
      rw (no_access, no_refresh) refl,
      λ other k p q. ground (
        arith,
        outer other k,
        within other k,
        same_iff refresh_cookie other,
        same_iff session_cookie other,
      ),
    )

pub persist_session-IsNamed :
    (encode : Text → Text) (https : Bool) (tokens : TokenPair) (jar : Jar)
    → IsNamed jar
    → IsNamed (persist_session encode https tokens jar)
unfolding persist_session
persist_session-IsNamed encode https tokens jar v =
    write_cookie-IsNamed encode https refresh_cookie tokens.refresh_token _ refresh_named
      (write_cookie-IsNamed encode https session_cookie tokens.access_token jar session_named v)

pub clear_session-IsNamed : (jar : Jar) → IsNamed jar → IsNamed (clear_session jar)
unfolding clear_session
clear_session-IsNamed jar v =
    delete_cookie-IsNamed refresh_cookie _ (delete_cookie-IsNamed session_cookie jar v)

-- The cookies are such a store.
abbrev pub cookie_store :
    (encode decode : Text → Text) → ((v : Text) → decode (encode v) ≡ v) → Bool → TokenStore
cookie_store encode decode decode-encode https = record {
  Store = (jar : Jar) × IsNamed jar;
  access = λ s. get_access_token decode s.0;
  refresh = λ s. get_refresh_token decode s.0;
  persist =
      λ t s. (persist_session encode https t s.0, persist_session-IsNamed encode https t s.0 s.1);
  clear = λ s. (clear_session s.0, clear_session-IsNamed s.0 s.1);
  access-persist = λ t s. (persist_session-read encode decode decode-encode https t s.0 s.1).0;
  refresh-persist = λ t s. (persist_session-read encode decode decode-encode https t s.0 s.1).1;
  access-clear = λ s. (clear_session-read decode s.0 s.1).0;
  refresh-clear = λ s. (clear_session-read decode s.0 s.1).1;
}
