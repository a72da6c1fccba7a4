-- ===== src/Auth/Unchanged.antt =====
-- frontend/src/lib/auth/context.tsx: the requests of a session and the remembered accounts.
use megoo_pm.Prelude.{◌≡◌, refl, inl, inr, Bool-cases, Option, none, some, ◌==◌}
use megoo_pm.Text.{Text, text, is_empty}
use megoo_pm.Json.{Json}
use megoo_pm.Session.Tokens.{TokenStore}
use megoo_pm.Client.{Request, Reply, from_provider, again, respond, api_fetch}
use megoo_pm.Auth.{
  Page, me_request, member, truthy, pair_of, fetch, get_auth_token, end_session, token_refresher,
  request, fetch_current_user,
}
use megoo_pm.Auth.Refreshing.{
  Refreshed, no_token, refused, renewed, token_refresher-Refreshed, first_sent, asked,
}

module _ (K : TokenStore) {S : Type 0} (serve : Request → S → S × Option Reply)
    (json_parse : Text → Option Json) where
  again-accounts :
      (r : Request) (reply : Reply) (a : Page K serve json_parse)
      (p : Page K serve json_parse × Option Text)
      → Refreshed K serve json_parse a p
      → (again json_parse
          (fetch K serve json_parse)
          (get_auth_token K serve json_parse)
          r
          reply
          p).0.accounts
        ≡ a.accounts
  again-accounts r reply a p (no_token k e) = rw e (unfold end_session in refl)
  again-accounts r reply a p (refused rt k w e) = rw e (unfold end_session in refl)
  again-accounts r reply a p (renewed rt q k w e) =
      rw e (go (truthy (member (text "access_token") q)))
    where
      go :
          (o : Option Text)
          → (again json_parse
              (fetch K serve json_parse)
              (get_auth_token K serve json_parse)
              r
              reply
              (
                record (asked K serve json_parse rt a) { store = K.persist (pair_of q) a.store },
                o,
              )).0.accounts
            ≡ a.accounts
      go none = refl
      go (some s) = elim (Bool-cases (is_empty s)) [
        | inl blank ↦ rw blank refl
        | inr real ↦ rw real refl
      ]

  respond-accounts :
      (r : Request) (a : Page K serve json_parse) (o : Option Reply)
      → (respond json_parse
          (fetch K serve json_parse)
          (get_auth_token K serve json_parse)
          (some (token_refresher K serve json_parse))
          r
          (a, o)).0.accounts
        ≡ a.accounts
  unfolding respond
  respond-accounts r a none = refl
  respond-accounts r a (some reply) = elim (Bool-cases (reply.status == 401)) [
    | inl expired ↦
        rw expired (again-accounts r reply a _ (token_refresher-Refreshed K serve json_parse a))
    | inr fine ↦ rw fine refl
  ]

  pub me-accounts :
      (a : Page K serve json_parse)
      → (fetch_current_user K serve json_parse a).0.accounts ≡ a.accounts
  unfolding request api_fetch
  me-accounts a =
      let sent =
        fetch K serve json_parse (first_sent K serve json_parse from_provider me_request a) a in
      respond-accounts me_request sent.0 sent.1
