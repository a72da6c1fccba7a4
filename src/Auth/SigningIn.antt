-- ===== src/Auth/SigningIn.antt =====
-- What signing in leaves behind.
use megoo_pm.Prelude.{◌≡◌, refl, sym, ap, ◌∙◌, arith, true, false, Option, none, some}
use megoo_pm.Text.{Text, text}
use megoo_pm.Json
use megoo_pm.Json.{Json, null, bool, num, str, arr, obj, Fields, get_field, as_text}
use megoo_pm.Session.Tokens.{TokenStore}
use megoo_pm.Accounts.{remember_account}
use megoo_pm.Client.{
  Request, Reply, Payload, no_body, json, plain, settle, Outcome, returned, api_error, thrown,
}
use megoo_pm.Client.Once.{api_fetch-given}
use megoo_pm.Auth.{
  Page, authenticated, LoginResult, signed_in, challenge, failed, login_request, text_member,
  member, pair_of, user_of, is_true, is_mfa_required, remembering, challenged, fetch,
  get_auth_token, token_refresher, request, fetch_current_user, welcomed, finish_login, logged,
  login,
}
use megoo_pm.Auth.Unchanged.{me-accounts}
use megoo_pm.Auth.Ending.{IsTold, current-IsTold}

module _ (K : TokenStore) {S : Type 0} (serve : Request → S → S × Option Reply)
    (json_parse : Text → Option Json) (lower : Text → Text) (now : Text) where
  -- The page after the login request, and what that comes to
  abbrev pub knocked : Text → Text → Page K serve json_parse → Page K serve json_parse
  knocked email password a = (fetch K serve json_parse (login_request email password) a).0

  abbrev pub login_answer : Text → Text → Page K serve json_parse → Outcome
  login_answer email password a =
      settle json_parse (fetch K serve json_parse (login_request email password) a).1

  -- The reply asks for a second factor: an object whose `mfa_required` is true.
  abbrev pub IsChallenge : Outcome → Type 0
  IsChallenge (returned (json (obj fs))) = get_field (text "mfa_required") fs ≡ some (bool true)
  IsChallenge o = ⊥

  abbrev pub IsFailure : Outcome → Type 0
  IsFailure (returned p) = ⊥
  IsFailure o = Unit

  -- A value that the operator `in` refuses
  abbrev pub IsNoObject : Payload → Type 0
  IsNoObject (json (obj fs)) = ⊥
  IsNoObject (json (arr vs)) = ⊥
  IsNoObject p = Unit

  -- What the request for the user comes to, once the tokens of the reply are stored
  abbrev pub user_answer : Payload → Page K serve json_parse → Outcome
  user_answer p b =
      (fetch_current_user K serve json_parse (record b { store = K.persist (pair_of p) b.store })).1

  -- The page `t` after a login that the backend answers with `o`, next to the page before it and the
  -- page `b` after the request.
  pub data LoginOk (o : Outcome) (a b : Page K serve json_parse)
      (t : Page K serve json_parse × LoginResult) : Type 0 where
    asks :
        (p : Payload)
        → o ≡ returned p
        → IsChallenge o
        → t ≡ (b, challenge (as_text (member (text "mfa_token") p)))
        → LoginOk o a b t
    accepts :
        (p me : Payload) (email : Text)
        → o ≡ returned p
        → ¬ IsChallenge o
        → user_answer p b ≡ returned me
        → IsTold K serve json_parse me t.0
        → as_text (member (text "email") me) ≡ some email
        → t.1 ≡ signed_in
        → t.0.user ≡ some me
        → t.0.status ≡ authenticated
        → t.0.accounts
          ≡ remember_account lower now email (text_member (text "full_name") me) a.accounts
        → LoginOk o a b t
    unanswered : IsFailure o → t ≡ (b, failed o) → LoginOk o a b t
    unreadable :
        (p : Payload) → o ≡ returned p → IsNoObject p → t ≡ (b, failed thrown) → LoginOk o a b t
    without_user :
        (p : Payload) (f : Outcome)
        → o ≡ returned p
        → ¬ IsChallenge o
        → user_answer p b ≡ f
        → IsFailure f
        → t.1 ≡ failed f
        → t.0.accounts ≡ a.accounts
        → LoginOk o a b t
    without_address :
        (p me : Payload)
        → o ≡ returned p
        → ¬ IsChallenge o
        → user_answer p b ≡ returned me
        → as_text (member (text "email") me) ≡ none
        → t.1 ≡ failed thrown
        → t.0.accounts ≡ a.accounts
        → LoginOk o a b t

  -- A value that is an object, as one with an address is, is a user.
  user_of-email :
      (me : Payload) (email : Text)
      → as_text (member (text "email") me) ≡ some email
      → user_of me ≡ some me
  user_of-email no_body email e = absurd (ground arith)
  user_of-email (plain s) email e = refl
  user_of-email (json null) email e = absurd (unfold Json.get in ground arith)
  user_of-email (json (bool b)) email e = refl
  user_of-email (json (num n)) email e = refl
  user_of-email (json (str s)) email e = refl
  user_of-email (json (arr vs)) email e = refl
  user_of-email (json (obj fs)) email e = refl

  remembering-LoginOk :
      (o : Outcome) (p me : Payload) (a b c : Page K serve json_parse) (email : Option Text)
      → o ≡ returned p
      → ¬ IsChallenge o
      → user_answer p b ≡ returned me
      → as_text (member (text "email") me) ≡ email
      → c.accounts ≡ a.accounts
      → IsTold K serve json_parse me c
      → LoginOk o a b (
          remembering K serve json_parse lower now email me
            (record c { user = user_of me; status = authenticated }))
  remembering-LoginOk o p me a b c none e n u m k told = without_address p me e n u m refl k
  remembering-LoginOk o p me a b c (some email) e n u m k told =
      accepts p me email e n u told m refl (user_of-email me email m) refl
        (ap (remember_account lower now email (text_member (text "full_name") me)) k)

  welcomed-LoginOk :
      (o : Outcome) (p : Payload) (a b c : Page K serve json_parse) (w : Outcome)
      → o ≡ returned p
      → ¬ IsChallenge o
      → user_answer p b ≡ w
      → c.accounts ≡ a.accounts
      → ((me : Payload) → w ≡ returned me → IsTold K serve json_parse me c)
      → LoginOk o a b (welcomed K serve json_parse lower now (c, w))
  welcomed-LoginOk o p a b c (returned me) e n u k told =
      remembering-LoginOk o p me a b c (as_text (member (text "email") me)) e n u refl k
        (told me refl)
  welcomed-LoginOk o p a b c (api_error status q) e n u k told =
      without_user p (api_error status q) e n u tt refl k
  welcomed-LoginOk o p a b c thrown e n u k told = without_user p thrown e n u tt refl k

  finish-LoginOk :
      (o : Outcome) (p : Payload) (a b : Page K serve json_parse)
      → o ≡ returned p
      → ¬ IsChallenge o
      → b.accounts ≡ a.accounts
      → LoginOk o a b (finish_login K serve json_parse lower now (some (pair_of p)) b)
  unfolding finish_login
  finish-LoginOk o p a b e n k =
      let c : Page K serve json_parse = record b { store = K.persist (pair_of p) b.store } in
      welcomed-LoginOk o p a b (fetch_current_user K serve json_parse c).0 (user_answer p b) e n
        refl (me-accounts K serve json_parse c ∙ k) (current-IsTold K serve json_parse c)

  object-LoginOk :
      (fs : Fields) (a b : Page K serve json_parse) (m : Option Json)
      → get_field (text "mfa_required") fs ≡ m
      → b.accounts ≡ a.accounts
      → let p : Payload = json (obj fs) in
        LoginOk (returned p) a b (challenged K serve json_parse lower now (some (is_true m)) p b)
  object-LoginOk fs a b (some (bool true)) e k = asks (json (obj fs)) refl e refl
  object-LoginOk fs a b none e k =
      finish-LoginOk _ (json (obj fs)) a b refl (λ h. absurd (let q = sym e ∙ h in ground arith)) k
  object-LoginOk fs a b (some null) e k =
      finish-LoginOk _ (json (obj fs)) a b refl (λ h. absurd (let q = sym e ∙ h in ground arith)) k
  object-LoginOk fs a b (some (bool false)) e k =
      finish-LoginOk _ (json (obj fs)) a b refl (λ h. absurd (let q = sym e ∙ h in ground arith)) k
  object-LoginOk fs a b (some (num n)) e k =
      finish-LoginOk _ (json (obj fs)) a b refl (λ h. absurd (let q = sym e ∙ h in ground arith)) k
  object-LoginOk fs a b (some (str s)) e k =
      finish-LoginOk _ (json (obj fs)) a b refl (λ h. absurd (let q = sym e ∙ h in ground arith)) k
  object-LoginOk fs a b (some (arr vs)) e k =
      finish-LoginOk _ (json (obj fs)) a b refl (λ h. absurd (let q = sym e ∙ h in ground arith)) k
  object-LoginOk fs a b (some (obj gs)) e k =
      finish-LoginOk _ (json (obj fs)) a b refl (λ h. absurd (let q = sym e ∙ h in ground arith)) k

  logged-LoginOk :
      (a b : Page K serve json_parse) (o : Outcome)
      → b.accounts ≡ a.accounts
      → LoginOk o a b (logged K serve json_parse lower now (b, o))
  unfolding is_mfa_required
  logged-LoginOk a b (api_error status p) k = unanswered tt refl
  logged-LoginOk a b thrown k = unanswered tt refl
  logged-LoginOk a b (returned no_body) k = unreadable _ refl tt refl
  logged-LoginOk a b (returned (plain s)) k = unreadable _ refl tt refl
  logged-LoginOk a b (returned (json null)) k = unreadable _ refl tt refl
  logged-LoginOk a b (returned (json (bool c))) k = unreadable _ refl tt refl
  logged-LoginOk a b (returned (json (num n))) k = unreadable _ refl tt refl
  logged-LoginOk a b (returned (json (str s))) k = unreadable _ refl tt refl
  logged-LoginOk a b (returned (json (arr vs))) k =
      finish-LoginOk _ (json (arr vs)) a b refl (λ h. h) k
  logged-LoginOk a b (returned (json (obj fs))) k =
      object-LoginOk fs a b (get_field (text "mfa_required") fs) refl k

  -- A login whose reply is an object with `mfa_required` true ends in that challenge, and one whose
  -- reply is a failure or no object fails; both change nothing of the page but for the request sent.
  -- Any other stores the tokens of the reply and asks for the user: where the backend gives one with
  -- an address for the session's access token, it ends signed in, with that user, the status
  -- authenticated and the user's account as remembered last; where it gives none, or one without an
  -- address, it fails and leaves the remembered accounts as they were.
  pub login-LoginOk :
      (email password : Text) (a : Page K serve json_parse)
      → LoginOk
          (login_answer email password a)
          a
          (knocked email password a)
          (login K serve json_parse lower now email password a)
  unfolding login request
  login-LoginOk email password a =
      rw
        (api_fetch-given json_parse (fetch K serve json_parse) (get_auth_token K serve json_parse)
          (some (token_refresher K serve json_parse)) none (login_request email password) a)
        (logged-LoginOk a (knocked email password a) (login_answer email password a) refl)
