-- ===== src/Settings/Smtp/Delivery.antt =====
-- The mail form: what is accepted, and what a save does to the stored settings and password.
use megoo_pm.Prelude.{
  ℕ, ◌≤◌, ◌≡◌, ◌≢◌, [], ◌∷◌, ◌↔◌, refl, inl, inr, Bool, true, false, Bool-cases, ◌||◌, not, Option,
  none, some, ltb, if◌then◌else◌, arith,
}
use megoo_pm.Text.{Text, text, is_empty, trim}
use megoo_pm.Number.{ℤ, pos, negsuc, number_text}
use megoo_pm.Settings.{omitted, replaced, cleared, text_or_blank}
use megoo_pm.Settings.Keys.{IsStoredText, key_after, or_null-text_or_blank}
use megoo_pm.Settings.Smtp.{
  SmtpForm, SmtpSettings, SmtpPayload, given_port, given_security, smtp_state_from_settings,
  is_bad_port, validate_smtp_form, build_smtp_payload,
}

abbrev pub IsStoredSmtp : SmtpSettings → Type 0
IsStoredSmtp s =
    IsStoredText s.smtp_host
    × IsStoredText s.smtp_username
    × IsStoredText s.smtp_from
    × IsStoredText s.smtp_from_name
    × IsStoredText s.app_url

-- A port, and what mail needs where it is sent.
abbrev pub IsDeliverable : Option ℤ → SmtpForm → Type 0
IsDeliverable o state =
    ((n : ℕ) × (o ≡ some (pos n)) × (1 ≤ n) × (n ≤ 65535))
    × (state.enabled ≡ true
        → (is_empty (trim state.host) ≡ false) × (is_empty (trim state.sender) ≡ false))

complete :
    (e h f : Bool) (no_host no_sender : Text)
    → ((if not e then none else if h then some no_host else if f then some no_sender else none)
        ≡ none)
      ↔ (e ≡ true → (h ≡ false) × (f ≡ false))
complete false h f a b = (λ _ k. absurd (ground arith), λ _. refl)
complete true true f a b =
    (λ k. absurd (ground arith), λ k. absurd (let q = k refl in ground arith))
complete true false true a b =
    (λ k. absurd (ground arith), λ k. absurd (let q = k refl in ground arith))
complete true false false a b = (λ _ _. (refl, refl), λ _. refl)

module _ {N : Type 0} (to_number : Text → N) (integer_of : N → Option ℤ) where
  good_port :
      (o : Option ℤ)
      → is_bad_port to_number integer_of o ≡ false
      → (n : ℕ) × (o ≡ some (pos n)) × (1 ≤ n) × (n ≤ 65535)
  good_port none h = absurd (ground arith)
  good_port (some (pos n)) h = (n, refl, ground arith, ground arith)
  good_port (some (negsuc n)) h = absurd (ground arith)

  port_good :
      (o : Option ℤ) (n : ℕ)
      → o ≡ some (pos n)
      → 1 ≤ n
      → n ≤ 65535
      → is_bad_port to_number integer_of o ≡ false
  port_good o n e low high = rw e (go n low high)
    where
      go : (m : ℕ) → 1 ≤ m → m ≤ 65535 → (ltb m 1 || ltb 65535 m) ≡ false
      go m a b = ground arith

  -- The form is accepted exactly when its port is an integer from 1 to 65535 and, where delivery is
  -- on, its host and its sender are not blank.
  pub validate_smtp_form_iff :
      (state : SmtpForm)
      → (validate_smtp_form to_number integer_of state ≡ none)
        ↔ IsDeliverable (integer_of (to_number state.port)) state
  unfolding validate_smtp_form
  validate_smtp_form_iff state =
      elim (Bool-cases (is_bad_port to_number integer_of (integer_of (to_number state.port)))) [
        | inl bad ↦ rw bad (
          λ h. absurd (ground arith),
          λ k.
              let ((n, e, low, high), _) = k in
              absurd (
                let g = port_good (integer_of (to_number state.port)) n e low high in ground arith),
        )
        | inr good ↦ rw good (
          λ h. (good_port (integer_of (to_number state.port)) good, (both state).0 h),
          λ k. (both state).1 k.1,
        )
      ]
    where
      both :
          (t : SmtpForm)
          → ((if not t.enabled
                then none
                else if is_empty (trim t.host)
                then some (text "A host is required to send mail.")
                else if is_empty (trim t.sender)
                then some (text "A from address is required to send mail.")
                else none)
              ≡ none)
            ↔ (t.enabled ≡ true
                → (is_empty (trim t.host) ≡ false) × (is_empty (trim t.sender) ≡ false))
      both t = complete t.enabled (is_empty (trim t.host)) (is_empty (trim t.sender)) _ _

  -- The payload carries what is stored: the same texts, the port as a number, and no password.
  pub record Stores (s : SmtpSettings) (p : SmtpPayload N) : Type 0 where
    pub same_enabled : p.smtp_enabled ≡ s.smtp_enabled
    pub same_host : p.smtp_host ≡ s.smtp_host
    pub same_port : integer_of p.smtp_port ≡ some (pos (given_port s.smtp_port))
    pub same_security : p.smtp_security ≡ given_security s.smtp_security
    pub same_username : p.smtp_username ≡ s.smtp_username
    pub same_from : p.smtp_from ≡ s.smtp_from
    pub same_from_name : p.smtp_from_name ≡ s.smtp_from_name
    pub same_app_url : p.app_url ≡ s.app_url

  -- What a stored setting needs to be delivered with
  abbrev pub CanDeliver : SmtpSettings → Type 0
  CanDeliver s =
      (1 ≤ given_port s.smtp_port)
      × (given_port s.smtp_port ≤ 65535)
      × (s.smtp_enabled ≡ true → (s.smtp_host ≢ none) × (s.smtp_from ≢ none))

  given_full :
      (o : Option Text) → IsStoredText o → o ≢ none → is_empty (trim (text_or_blank o)) ≡ false
  given_full none h k = absurd (k refl)
  given_full (some t) (trimmed, full) k = rw trimmed full

  full_given : (o : Option Text) → is_empty (trim (text_or_blank o)) ≡ false → o ≢ none
  unfolding trim
  full_given none h = λ k. absurd (ground arith)
  full_given (some t) h = λ k. absurd (ground arith)

  opened-accepted :
      ((n : ℕ) → integer_of (to_number (number_text n)) ≡ some (pos n))
      → (s : SmtpSettings) → IsStoredSmtp s
      → (validate_smtp_form to_number integer_of (smtp_state_from_settings s) ≡ none) ↔ CanDeliver s
  unfolding smtp_state_from_settings
  opened-accepted reads s (host, user, sender, name, url) =
      let port = given_port s.smtp_port in
      let accepted = validate_smtp_form_iff (smtp_state_from_settings s) in
      (
        λ fine.
            let ((n, e, low, high), delivers) = accepted.0 fine in
            let same_number : pos port ≡ pos n = ground (arith, reads port, e) in
            let value : port ≡ n = ground arith in
            (
              rw value low,
              rw value high,
              λ on.
                  (full_given s.smtp_host (delivers on).0, full_given s.smtp_from (delivers on).1),
            ),
        λ can.
            let (low, high, delivers) = can in
            accepted.1 (
              (port, reads port, low, high),
              λ on. (
                given_full s.smtp_host host (delivers on).0,
                given_full s.smtp_from sender (delivers on).1,
              ),
            ),
      )

  password-lost :
      (state : SmtpForm) (stored : Text)
      → (key_after (build_smtp_payload to_number integer_of state).smtp_password (some stored)
          ≡ none)
        ↔ (state.password_cleared ≡ true) × (state.password ≡ [])
  unfolding build_smtp_payload
  password-lost state stored = go state.password state.password_cleared
    where
      go :
          (typed : Text) (c : Bool)
          → (key_after
                (if not (is_empty typed) then replaced typed else if c then cleared else omitted)
                (some stored)
              ≡ none)
            ↔ (c ≡ true) × (typed ≡ [])
      go [] true = (λ k. (refl, refl), λ k. refl)
      go [] false = (λ k. absurd (ground arith), λ k. absurd (let e = k.0 in ground arith))
      go (x ∷ typed) c = (λ k. absurd (ground arith), λ k. absurd (let e = k.1 in ground arith))

  -- Where `Number` reads the digits of a number back and the stored texts are trimmed and not
  -- empty: saving the form as it opens sends what is stored, the port as its number, and leaves
  -- the stored password as it was; the form that opens is accepted exactly when the port is from 1
  -- to 65535 and, where delivery is on, a host and a sender are stored; and a save of any form
  -- leaves no password where one was stored exactly when it says so and has none typed.
  pub build_smtp_payload-password :
      ((n : ℕ) → integer_of (to_number (number_text n)) ≡ some (pos n))
      → (s : SmtpSettings) (state : SmtpForm) (password : Option Text) (stored : Text)
      → IsStoredSmtp s
      → let opened : SmtpPayload N =
          build_smtp_payload to_number integer_of (smtp_state_from_settings s) in
        Stores s opened
        × (key_after opened.smtp_password password ≡ password)
        × ((validate_smtp_form to_number integer_of (smtp_state_from_settings s) ≡ none)
            ↔ CanDeliver s)
        × ((key_after (build_smtp_payload to_number integer_of state).smtp_password (some stored)
              ≡ none)
            ↔ (state.password_cleared ≡ true) × (state.password ≡ []))
  unfolding build_smtp_payload smtp_state_from_settings
  build_smtp_payload-password reads s state password stored (host, user, sender, name, url) = (
    record {
      same_enabled = refl;
      same_host = or_null-text_or_blank s.smtp_host host;
      same_port = reads (given_port s.smtp_port);
      same_security = refl;
      same_username = or_null-text_or_blank s.smtp_username user;
      same_from = or_null-text_or_blank s.smtp_from sender;
      same_from_name = or_null-text_or_blank s.smtp_from_name name;
      same_app_url = or_null-text_or_blank s.app_url url;
    },
    refl,
    opened-accepted reads s (host, user, sender, name, url),
    password-lost state stored,
  )
