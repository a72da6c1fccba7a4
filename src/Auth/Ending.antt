-- ===== src/Auth/Ending.antt =====
-- When a session ends, and what is left of it.
use megoo_pm.Prelude.{
  ◌≡◌, refl, sym, ap, ◌∙◌, ◌==◌, true, List, ◌∷◌, inl, inr, false, Bool-cases, ◌||◌, Option, none,
  some, arith,
}
use megoo_pm.Text.{Text, text, is_empty}
use megoo_pm.Json.{Json, js_string}
use megoo_pm.Session.{is_some}
use megoo_pm.Session.Tokens.{TokenStore}
use megoo_pm.Client.{
  Request, get, Reply, Payload, Outcome, returned, api_error, thrown, bearer_of, is_ok, settled,
  settle, parse_body, again, respond, api_fetch,
}
use megoo_pm.Auth.{
  Page, member, truthy, pair_of, user_of, me_request, fetch, get_auth_token, request, authenticated,
  unauthenticated, end_session, token_refresher, fetch_current_user, hydrated, hydrate, logout,
}
use megoo_pm.Auth.Refreshing.{
  truthy-js_string, IsBlank, Refuses, answer, Refreshed, no_token, refused, renewed,
  token_refresher-Refreshed,
}

module _ (K : TokenStore) {S : Type 0} (serve : Request → S → S × Option Reply)
    (json_parse : Text → Option Json) where
  -- No session: no tokens, no user, and a status that says so.
  pub record SignedOut (a : Page K serve json_parse) : Type 0 where
    pub no_access : K.access a.store ≡ none
    pub no_refresh : K.refresh a.store ≡ none
    pub no_user : a.user ≡ none
    pub says_so : a.status ≡ unauthenticated

  end_session-SignedOut :
      (a : Page K serve json_parse) → SignedOut (end_session K serve json_parse a)
  unfolding end_session
  end_session-SignedOut a = record {
    no_access = K.access-clear a.store;
    no_refresh = K.refresh-clear a.store;
    no_user = refl;
    says_so = refl;
  }

  -- What the refresher leaves next to the page before: signed out, with none given, where there is
  -- no refresh token or the request for new tokens brings none; or the tokens of the reply, as they
  -- print, in a session that is otherwise as it was, with the access token given if it is truthy.
  pub data RefreshEnds (a : Page K serve json_parse) (r : Page K serve json_parse × Option Text)
      : Type 0 where
    without_token :
        IsBlank K serve json_parse (K.refresh a.store)
        → SignedOut r.0
        → r.1 ≡ none
        → RefreshEnds a r
    without_reply :
        (t : Text)
        → K.refresh a.store ≡ some t
        → Refuses K serve json_parse (answer K serve json_parse t a)
        → SignedOut r.0
        → r.1 ≡ none
        → RefreshEnds a r
    with_reply :
        (t : Text) (q : Payload)
        → K.refresh a.store ≡ some t
        → answer K serve json_parse t a ≡ returned q
        → K.access r.0.store ≡ some (js_string (member (text "access_token") q))
        → K.refresh r.0.store ≡ some (js_string (member (text "refresh_token") q))
        → r.0.user ≡ a.user
        → r.0.status ≡ a.status
        → r.1 ≡ truthy (member (text "access_token") q)
        → RefreshEnds a r

  Refreshed-ends :
      (a : Page K serve json_parse) (p : Page K serve json_parse × Option Text)
      → Refreshed K serve json_parse a p
      → RefreshEnds a p
  Refreshed-ends a p (no_token k e) = rw e (without_token k (end_session-SignedOut a) refl)
  Refreshed-ends a p (refused t k w e) = rw e (without_reply t k w (end_session-SignedOut _) refl)
  Refreshed-ends a p (renewed t q k w e) = rw e (
      with_reply t q k w (K.access-persist (pair_of q) a.store)
        (K.refresh-persist (pair_of q) a.store) refl refl refl)

  given-access :
      (a : Page K serve json_parse) (p : Page K serve json_parse × Option Text) (s : Text)
      → p.1 ≡ some s
      → RefreshEnds a p
      → K.access p.0.store ≡ some s
  given-access a p s e (without_token k out n) = absurd (ground arith)
  given-access a p s e (without_reply t k w out n) = absurd (ground arith)
  given-access a p s e (with_reply t q k w stored next user status g) =
      stored
      ∙ ap some (truthy-js_string K serve json_parse (member (text "access_token") q) s (sym g ∙ e))

  abbrev pub GivenIsStored : Page K serve json_parse → Option Text → Type 0
  GivenIsStored a none = Unit
  GivenIsStored a (some s) = K.access a.store ≡ some s

  given_stored :
      (a : Page K serve json_parse) (p : Page K serve json_parse × Option Text) (o : Option Text)
      → p.1 ≡ o
      → RefreshEnds a p
      → GivenIsStored p.0 o
  given_stored a p none e h = tt
  given_stored a p (some s) e h = given-access a p s e h

  -- After the refresher ran, the page is signed out (tokens, user and status) and none is given,
  -- where there was no refresh token or the backend gave nothing to take new tokens from; or else
  -- the tokens of its reply are stored as they print, the user and the status are as they were, and
  -- the access token is given unless it is falsy. A token that is given is the one stored.
  pub token_refresher-ends :
      (a : Page K serve json_parse)
      → let r : Page K serve json_parse × Option Text = token_refresher K serve json_parse a in
        RefreshEnds a r × GivenIsStored r.0 r.1
  token_refresher-ends a =
      let r : Page K serve json_parse × Option Text = token_refresher K serve json_parse a in
      let ends = Refreshed-ends a r (token_refresher-Refreshed K serve json_parse a) in
      (ends, given_stored a r r.1 refl ends)

  -- The request for the current user, with the session's access token
  abbrev pub me_sent : Page K serve json_parse → Request
  me_sent a = record {
    method = get;
    path = text "/api/v1/users/me";
    body = none;
    bearer = bearer_of (K.access a.store);
  }

  -- `me` is what the server, in some state of it, replies to that request, sent last.
  abbrev pub IsTold : Payload → Page K serve json_parse → Type 0
  IsTold me t =
      (server : S) × (before : List Request) × (t.sent ≡ me_sent t ∷ before)
      × (settle json_parse (serve (me_sent t) server).1 ≡ returned me)

  not_returned :
      (reply : Reply) (o : Option Payload) (me : Payload)
      → (reply.status == 401) ≡ true
      → settled json_parse reply.status o ≡ returned me
      → ⊥
  not_returned reply none me u e = ground arith
  not_returned reply (some p) me u e =
      let refused_code : is_ok reply.status ≡ false = ground arith in
      let refusal : settled json_parse reply.status (some p) ≡ api_error reply.status p =
        rw refused_code refl in
      let bad : api_error reply.status p ≡ returned me = sym refusal ∙ e in ground arith

  abbrev tried : Page K serve json_parse → Page K serve json_parse
  tried a = (fetch K serve json_parse (me_sent a) a).0

  abbrev retried : Reply → Page K serve json_parse × Option Text → Page K serve json_parse × Outcome
  retried reply p =
      again json_parse (fetch K serve json_parse) (get_auth_token K serve json_parse) me_request
        reply p

  again-IsTold :
      (reply : Reply) (p : Page K serve json_parse × Option Text) (me : Payload) (o : Option Text)
      → (reply.status == 401) ≡ true
      → GivenIsStored p.0 o
      → (retried reply (p.0, o)).1 ≡ returned me
      → IsTold me (retried reply (p.0, o)).0
  again-IsTold reply p me none u g =
      λ e. absurd (not_returned reply (parse_body json_parse reply) me u e)
  again-IsTold reply p me (some s) u g = elim (Bool-cases (is_empty s)) [
    | inl blank ↦ rw blank (λ e. absurd (not_returned reply (parse_body json_parse reply) me u e))
    | inr real ↦ rw (real, g) (λ e. (p.0.server, p.0.sent, rw real refl, rw real e))
  ]

  respond-IsTold :
      (a : Page K serve json_parse) (o : Option Reply) (me : Payload)
      → (serve (me_sent a) a.server).1 ≡ o
      → let end : Page K serve json_parse × Outcome =
          respond json_parse
            (fetch K serve json_parse)
            (get_auth_token K serve json_parse)
            (some (token_refresher K serve json_parse))
            me_request
            (tried a, o) in
        end.1 ≡ returned me → IsTold me end.0
  unfolding respond
  respond-IsTold a none me w = λ e. absurd (ground arith)
  respond-IsTold a (some reply) me w = elim (Bool-cases (reply.status == 401)) [
    | inl expired ↦ rw expired (λ e.
        let r = token_refresher K serve json_parse (tried a) in
        again-IsTold reply r me r.1 expired (token_refresher-ends (tried a)).1 e)
    | inr fine ↦ rw fine (λ e. (a.server, a.sent, refl, ap (settle json_parse) w ∙ e))
  ]

  pub current-IsTold :
      (a : Page K serve json_parse) (me : Payload)
      → (fetch_current_user K serve json_parse a).1 ≡ returned me
      → IsTold me (fetch_current_user K serve json_parse a).0
  unfolding request api_fetch
  current-IsTold a me e = respond-IsTold a (serve (me_sent a) a.server).1 me refl e

  -- A session, with the user that the backend names for its access token; or none at all.
  pub data Settled (a : Page K serve json_parse) : Type 0 where
    signed_in :
        (me : Payload) → a.user ≡ user_of me → a.status ≡ authenticated → IsTold me a → Settled a
    signed_out : SignedOut a → Settled a

  hydrated-Settled :
      (a : Page K serve json_parse) (o : Outcome)
      → ((me : Payload) → o ≡ returned me → IsTold me a)
      → Settled (hydrated K serve json_parse (a, o))
  hydrated-Settled a (returned me) told = signed_in me refl refl (told me refl)
  hydrated-Settled a (api_error status p) told = signed_out (end_session-SignedOut a)
  hydrated-Settled a thrown told = signed_out (end_session-SignedOut a)

  no_session : (o p : Option Text) → (is_some o || is_some p) ≡ false → (o ≡ none) × (p ≡ none)
  no_session none none e = (refl, refl)
  no_session none (some t) e = absurd (ground arith)
  no_session (some t) p e = absurd (ground arith)

  -- On a page without a user, the first mount ends with the status authenticated and the user that
  -- the backend gave in reply to a GET of /api/v1/users/me that bears the session's access token, the
  -- last request sent; or signed out, with no tokens left.
  pub hydrate-Settled :
      (a : Page K serve json_parse) → a.user ≡ none → Settled (hydrate K serve json_parse a)
  unfolding hydrate
  hydrate-Settled a fresh =
      elim (Bool-cases (is_some (K.access a.store) || is_some (K.refresh a.store))) [
        | inl has ↦ rw has (
            hydrated-Settled (fetch_current_user K serve json_parse a).0
              (fetch_current_user K serve json_parse a).1 (current-IsTold a))
        | inr nothing ↦
            let empty = no_session (K.access a.store) (K.refresh a.store) nothing in
            rw nothing (
              signed_out (record {
                no_access = empty.0;
                no_refresh = empty.1;
                no_user = fresh;
                says_so = refl;
              }))
      ]

  -- Signing out leaves no token, whatever was there.
  pub logout-SignedOut : (a : Page K serve json_parse) → SignedOut (logout K serve json_parse a)
  unfolding logout
  logout-SignedOut a = end_session-SignedOut a
