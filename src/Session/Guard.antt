-- ===== src/Session/Guard.antt =====
-- Which requests the route guard lets through.
use megoo_pm.Prelude.{
  ◌≡◌, refl, ◌↔◌, inl, inr, Bool, true, false, Option, some, List, [], ◌∷◌, ◌++◌, arith, any, ◌||◌,
  Bool-cases, ◌∙◌, sym, append_assoc,
}
use megoo_pm.Text.{Text, same, starts_with}
use megoo_pm.Text.Equality.{same_iff}
use megoo_pm.Text.Prefix.{starts_with_iff}
use megoo_pm.Session.{
  PageRequest, next, redirect, public_routes, login_route, is_public_route, proxy, truthy,
}

-- `pathname` is one of the routes, or lies below one.
pub data Under (pathname : Text) : List Text → Type 0 where
  at : {routes : List Text} {route : Text} → pathname ≡ route → Under pathname (route ∷ routes)
  below :
      {routes : List Text} (route rest : Text)
      → pathname ≡ route ++ (b'/' ∷ rest)
      → Under pathname (route ∷ routes)
  later :
      {routes : List Text} {route : Text} → Under pathname routes → Under pathname (route ∷ routes)

test_route : Text → Text → Bool
test_route pathname route = same pathname route || starts_with pathname (route ++ b'/' ∷ [])

any_sound :
    (pathname : Text) (routes : List Text)
    → any (test_route pathname) routes ≡ true
    → Under pathname routes
unfolding test_route
any_sound pathname [] h = cc
any_sound pathname (route ∷ routes) h = elim (Bool-cases (same pathname route)) [
  | inl e ↦ at ((same_iff pathname route).0 e)
  | inr e ↦ elim (Bool-cases (starts_with pathname (route ++ b'/' ∷ []))) [
    | inl f ↦
        let (rest, spelled) = (starts_with_iff pathname (route ++ b'/' ∷ [])).0 f in
        below route rest (spelled ∙ append_assoc route (b'/' ∷ []) rest)
    | inr f ↦ later (any_sound pathname routes (ground arith))
  ]
]

any_complete :
    {pathname : Text} {routes : List Text}
    → Under pathname routes
    → any (test_route pathname) routes ≡ true
unfolding test_route
any_complete {pathname} (at {route} e) = ground (arith, same_iff pathname route)
any_complete {pathname} (below route rest e) =
    let spelled : pathname ≡ (route ++ b'/' ∷ []) ++ rest =
      e ∙ sym (append_assoc route (b'/' ∷ []) rest) in
    ground (arith, (starts_with_iff pathname (route ++ b'/' ∷ [])).1 (rest, spelled))
any_complete (later m) = ground (arith, any_complete m)

-- A route is public exactly when it is a listed route or a path below one.
pub is_public_route_iff :
    (pathname : Text) → (is_public_route pathname ≡ true) ↔ Under pathname public_routes
unfolding is_public_route test_route
is_public_route_iff pathname = (any_sound pathname public_routes, any_complete)

redirect_inv :
    (enabled : Bool) (request : PageRequest) (to : Text) (destination : Option Text)
    → proxy enabled request ≡ redirect to destination
    → (enabled ≡ true)
      × (is_public_route request.pathname ≡ false)
      × (truthy request.cookie ≡ false)
      × (to ≡ login_route)
      × (destination ≡ some (request.pathname ++ request.search))
unfolding proxy
redirect_inv enabled request to destination h = ground arith

login_is_public : is_public_route login_route ≡ true
login_is_public = (is_public_route_iff login_route).1 (at refl)

-- The guard redirects exactly the requests that have no session and are for no public route while
-- it is enabled; it sends them to the login page with the address that they asked for.
pub proxy-redirect_iff :
    (enabled : Bool) (request : PageRequest) (to : Text) (destination : Option Text)
    → (proxy enabled request ≡ redirect to destination) ↔ (
        (enabled ≡ true)
        × (¬ Under request.pathname public_routes)
        × (truthy request.cookie ≡ false)
        × (to ≡ login_route)
        × (destination ≡ some (request.pathname ++ request.search)))
unfolding proxy
proxy-redirect_iff enabled request to destination =
    let (sound, complete) = is_public_route_iff request.pathname in
    (
      λ h.
          let (on, closed, absent, there, kept) = redirect_inv enabled request to destination h in
          (on, λ m. cc (complete m), absent, there, kept),
      λ (on, closed, absent, there, kept). elim (Bool-cases (is_public_route request.pathname)) [
        | inl open_route ↦ absurd (closed (sound open_route))
        | inr closed_route ↦ rw (on, closed_route, absent, there, kept) refl
      ],
    )

-- A redirected visitor gets through: the guard passes every request for the page that it names.
pub proxy-settles :
    (enabled : Bool) (request : PageRequest) (to : Text) (destination : Option Text)
    → proxy enabled request ≡ redirect to destination
    → (search : Text) (cookie : Option Text)
    → proxy enabled (record { pathname = to; search = search; cookie = cookie }) ≡ next
unfolding proxy
proxy-settles enabled request to destination h search cookie =
    let (on, closed, absent, there, kept) = redirect_inv enabled request to destination h in
    rw (on, there, login_is_public) refl
