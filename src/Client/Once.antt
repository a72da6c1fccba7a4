-- ===== src/Client/Once.antt =====
-- A request with a token of its own is sent once, and never refreshes.
use megoo_pm.Prelude.{◌≡◌, refl, Option, none, some}
use megoo_pm.Text.{Text}
use megoo_pm.Json.{Json}
use megoo_pm.Client.{Request, Reply, given, settle, send, respond, api_fetch}

module _ {A : Type 0} (json_parse : Text → Option Json) (fetch : Request → A → A × Option Reply)
    (get_auth_token : A → Option Text) where
  respond-none :
      (request : Request) (p : A × Option Reply)
      → respond json_parse fetch get_auth_token none request p ≡ (p.0, settle json_parse p.1)
  unfolding respond
  respond-none request (a, none) = refl
  respond-none request (a, some r) = refl

  -- Whatever refresher is registered, such a request is the one call of `fetch`.
  pub api_fetch-given :
      (refresher : Option (A → A × Option Text)) (t : Option Text) (request : Request) (a : A)
      → api_fetch json_parse fetch get_auth_token refresher (given t) request a ≡ (
          let answer = send json_parse fetch get_auth_token request t a in
          (answer.0, settle json_parse answer.1))
  unfolding api_fetch
  api_fetch-given refresher t request a =
      respond-none request (send json_parse fetch get_auth_token request t a)
