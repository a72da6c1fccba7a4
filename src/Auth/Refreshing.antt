-- ===== src/Auth/Refreshing.antt =====
-- What a request sends, and what the refresh of an expired token does to the session.
use megoo_pm.Prelude.{
  ◌≡◌, refl, ap, ◌∙◌, arith, true, false, inl, inr, Bool-cases, Option, none, some, ◌∷◌, ◌==◌,
}
use megoo_pm.Text.{Text, text, is_empty}
use megoo_pm.Json
use megoo_pm.Json.{Json, null, bool, num, str, arr, obj, js_string}
use megoo_pm.Session.Tokens.{TokenStore}
use megoo_pm.Client.{
  Request, Reply, Payload, no_body, json, plain, Outcome, returned, api_error, thrown, TokenOption,
  given, from_provider, bearer_of, first_bearer, settle, again, respond, api_fetch,
}
use megoo_pm.Client.Once.{api_fetch-given}
use megoo_pm.Auth.{
  Page, refresh_request, pair_of, member, truthy, fetch, get_auth_token, end_session, refreshed,
  refresh_with, token_refresher, request,
}

module _ (K : TokenStore) {S : Type 0} (serve : Request → S → S × Option Reply)
    (json_parse : Text → Option Json) where
  -- The page after the refresh request
  abbrev pub asked : Text → Page K serve json_parse → Page K serve json_parse
  asked t a = (fetch K serve json_parse (refresh_request t) a).0

  -- What the refresh request comes to
  abbrev pub answer : Text → Page K serve json_parse → Outcome
  answer t a = settle json_parse (fetch K serve json_parse (refresh_request t) a).1

  abbrev pub IsBlank : Option Text → Type 0
  IsBlank none = Unit
  IsBlank (some t) = is_empty t ≡ true

  -- No tokens to be had: a failure, or a success with no value to take them from.
  abbrev pub Refuses : Outcome → Type 0
  Refuses (returned no_body) = Unit
  Refuses (returned (json null)) = Unit
  Refuses (returned p) = ⊥
  Refuses o = Unit

  -- The three ends of the refresher: no refresh token, a refused one, and new tokens.
  pub data Refreshed (a : Page K serve json_parse) (p : Page K serve json_parse × Option Text)
      : Type 0 where
    no_token :
        IsBlank (K.refresh a.store) → p ≡ (end_session K serve json_parse a, none) → Refreshed a p
    refused :
        (t : Text)
        → K.refresh a.store ≡ some t
        → Refuses (answer t a)
        → p ≡ (end_session K serve json_parse (asked t a), none)
        → Refreshed a p
    renewed :
        (t : Text) (q : Payload)
        → K.refresh a.store ≡ some t
        → answer t a ≡ returned q
        → p ≡ (
          record (asked t a) { store = K.persist (pair_of q) a.store },
          truthy (member (text "access_token") q),
        )
        → Refreshed a p

  renewed-Refreshed :
      (a : Page K serve json_parse) (t : Text) (q : Payload)
      → K.refresh a.store ≡ some t
      → answer t a ≡ returned q
      → Refreshed a (refreshed K serve json_parse (asked t a, returned q))
  renewed-Refreshed a t no_body e w = refused t e (rw w tt) refl
  renewed-Refreshed a t (plain s) e w = renewed t (plain s) e w refl
  renewed-Refreshed a t (json null) e w = refused t e (rw w tt) refl
  renewed-Refreshed a t (json (bool b)) e w = renewed t (json (bool b)) e w refl
  renewed-Refreshed a t (json (num n)) e w = renewed t (json (num n)) e w refl
  renewed-Refreshed a t (json (str s)) e w = renewed t (json (str s)) e w refl
  renewed-Refreshed a t (json (arr vs)) e w = renewed t (json (arr vs)) e w refl
  renewed-Refreshed a t (json (obj fs)) e w = renewed t (json (obj fs)) e w refl

  refreshed-Refreshed :
      (a : Page K serve json_parse) (t : Text) (o : Outcome)
      → K.refresh a.store ≡ some t
      → answer t a ≡ o
      → Refreshed a (refreshed K serve json_parse (asked t a, o))
  refreshed-Refreshed a t (returned p) e w = renewed-Refreshed a t p e w
  refreshed-Refreshed a t (api_error status p) e w = refused t e (rw w tt) refl
  refreshed-Refreshed a t thrown e w = refused t e (rw w tt) refl

  refresh_with-Refreshed :
      (a : Page K serve json_parse) (o : Option Text)
      → K.refresh a.store ≡ o
      → Refreshed a (refresh_with K serve json_parse o a)
  refresh_with-Refreshed a none e = no_token (rw e tt) refl
  refresh_with-Refreshed a (some t) e = elim (Bool-cases (is_empty t)) [
    | inl blank ↦ rw blank (no_token (rw e blank) refl)
    | inr real ↦
        rw
          (
            real,
            api_fetch-given json_parse (fetch K serve json_parse)
                (get_auth_token K serve json_parse) none none (refresh_request t) a,
          )
          (refreshed-Refreshed a t _ e refl)
  ]

  pub token_refresher-Refreshed :
      (a : Page K serve json_parse) → Refreshed a (token_refresher K serve json_parse a)
  unfolding token_refresher
  token_refresher-Refreshed a = refresh_with-Refreshed a (K.refresh a.store) refl

  -- What the refresher gives prints as it is stored.
  pub truthy-js_string : (o : Option Json) (s : Text) → truthy o ≡ some s → js_string o ≡ s
  unfolding truthy Json.string_of
  truthy-js_string none s e = absurd (ground arith)
  truthy-js_string (some null) s e = absurd (ground arith)
  truthy-js_string (some (bool true)) s e = ground arith
  truthy-js_string (some (bool false)) s e = absurd (ground arith)
  truthy-js_string (some (num t)) s e = ground arith
  truthy-js_string (some (str t)) s e = ground arith
  truthy-js_string (some (arr vs)) s e = cc
  truthy-js_string (some (obj fs)) s e = cc

  abbrev pub bearing : Option Text → Request → Request
  bearing t r = record r { bearer = bearer_of t }

  -- The request as it is first sent
  abbrev pub first_sent : TokenOption → Request → Page K serve json_parse → Request
  first_sent token r a =
      bearing
        (first_bearer json_parse (fetch K serve json_parse) (get_auth_token K serve json_parse)
          token a)
        r

  -- What a request adds to what the server got: itself; itself and a refresh with the session's
  -- refresh token; or these and itself again, with the access token that is then the session's.
  pub data Sends (token : TokenOption) (r : Request) (a t : Page K serve json_parse) : Type 0 where
    once : t.sent ≡ first_sent token r a ∷ a.sent → Sends token r a t
    once_and_refresh :
        (rt : Text)
        → token ≡ from_provider
        → K.refresh a.store ≡ some rt
        → t.sent ≡ refresh_request rt ∷ first_sent token r a ∷ a.sent
        → Sends token r a t
    twice :
        (rt at : Text)
        → token ≡ from_provider
        → K.refresh a.store ≡ some rt
        → K.access t.store ≡ some at
        → t.sent ≡ bearing (some at) r ∷ refresh_request rt ∷ first_sent token r a ∷ a.sent
        → Sends token r a t

  abbrev tried : Request → Page K serve json_parse → Page K serve json_parse
  tried r a = (fetch K serve json_parse (first_sent from_provider r a) a).0

  abbrev retried :
      Request → Reply → Page K serve json_parse × Option Text → Page K serve json_parse × Outcome
  retried r reply p =
      again json_parse (fetch K serve json_parse) (get_auth_token K serve json_parse) r reply p

  again-Sends :
      (r : Request) (reply : Reply) (a : Page K serve json_parse)
      (p : Page K serve json_parse × Option Text)
      → Refreshed (tried r a) p
      → Sends from_provider r a (retried r reply p).0
  again-Sends r reply a p (no_token k e) = rw e (once (unfold end_session in refl))
  again-Sends r reply a p (refused rt k w e) =
      rw e (once_and_refresh rt refl k (unfold end_session in refl))
  again-Sends r reply a p (renewed rt q k w e) =
      rw e (go (truthy (member (text "access_token") q)) refl)
    where
      go :
          (o : Option Text)
          → truthy (member (text "access_token") q) ≡ o
          → Sends from_provider r a
              (retried r reply
                (record (asked rt (tried r a)) { store = K.persist (pair_of q) a.store }, o)).0
      go none g = once_and_refresh rt refl k refl
      go (some s) g = elim (Bool-cases (is_empty s)) [
        | inl blank ↦ rw blank (once_and_refresh rt refl k refl)
        | inr real ↦ rw real (
            twice rt s refl k
              (K.access-persist (pair_of q) a.store
                ∙ ap some (truthy-js_string (member (text "access_token") q) s g))
              (rw real refl))
      ]

  respond-Sends :
      (r : Request) (a : Page K serve json_parse) (o : Option Reply)
      → Sends from_provider r a
          (respond json_parse
            (fetch K serve json_parse)
            (get_auth_token K serve json_parse)
            (some (token_refresher K serve json_parse))
            r
            (tried r a, o)).0
  unfolding respond
  respond-Sends r a none = once refl
  respond-Sends r a (some reply) = elim (Bool-cases (reply.status == 401)) [
    | inl expired ↦ rw expired (again-Sends r reply a _ (token_refresher-Refreshed (tried r a)))
    | inr fine ↦ rw fine (once refl)
  ]

  -- A request is sent at most twice, with at most one refresh between, and only one that carries
  -- the session's token is sent again or refreshes; the token of the second attempt is then the
  -- session's.
  pub request-Sends :
      (token : TokenOption) (r : Request) (a : Page K serve json_parse)
      → Sends token r a (request K serve json_parse token r a).0
  unfolding request api_fetch
  request-Sends from_provider r a =
      respond-Sends r a (fetch K serve json_parse (first_sent from_provider r a) a).1
  request-Sends (given t) r a =
      rw
        (api_fetch-given json_parse (fetch K serve json_parse) (get_auth_token K serve json_parse)
          (some (token_refresher K serve json_parse)) t r a)
        (once refl)
