-- ===== src/Accounts/Remembering.antt =====
-- What signing in and removing an account do to the list, over any history of the browser.
use megoo_pm.Prelude.{
  ◌≤◌, ◌≡◌, refl, false, not, Bool, inl, inr, List, ◌∷◌, map, take, length, length-take, arith,
  All-take, All-filter, All-filter_self, All-mono, All-map, Distinct, Fresh, length-filter-le,
  Distinct-map-take, Distinct-map-filter, All, filter, filter-All, true, ◌∙◌, ap,
}
use megoo_pm.Text.{Text, same, is_empty, trim}
use megoo_pm.Text.Equality.{same_iff, same_refl}
use megoo_pm.Accounts.{
  RecentAccount, missing, Storage, read_accounts, key_of, without, remember_account, forget_account,
  max_recent_accounts,
}
use megoo_pm.Accounts.Storing.{
  Addressed, Works, read_accounts-write, read_accounts-Addressed, write_inert, Works-cases,
  write-Works,
}

module _ (lower : Text → Text) where
  -- No two accounts have one address up to case and white space.
  abbrev pub DistinctKeys : List RecentAccount → Type 0
  DistinctKeys accounts = Distinct (map (λ a. key_of lower a.email) accounts)

  without-Fresh :
      (key : Text) (accounts : List RecentAccount)
      → Fresh key (map (λ a. key_of lower a.email) (without lower key accounts))
  unfolding without
  without-Fresh key accounts =
      All-map (λ k. ¬ (key ≡ k)) (λ a. key_of lower a.email) _
        (All-mono (λ a h e. ground (arith, same_iff (key_of lower a.email) key)) _
          (All-filter_self (λ a. not (same (key_of lower a.email) key)) accounts))

  without-Addressed : (key : Text) (s : Storage) → Addressed (without lower key (read_accounts s))
  unfolding without
  without-Addressed key s = All-filter _ _ (read_accounts s) (read_accounts-Addressed s)

  without-DistinctKeys :
      (key : Text) (accounts : List RecentAccount)
      → DistinctKeys accounts
      → DistinctKeys (without lower key accounts)
  unfolding without
  without-DistinctKeys key accounts h = Distinct-map-filter (λ a. key_of lower a.email) _ accounts h

  length-without :
      (key : Text) (accounts : List RecentAccount)
      → length (without lower key accounts) ≤ length accounts
  unfolding without
  length-without key accounts = length-filter-le _ accounts

  pub remember-Works :
      (now email full_name : Text) (s : Storage)
      → Works s
      → Works (remember_account lower now email full_name s)
  unfolding remember_account
  remember-Works now email full_name s w = write-Works _ s w

  -- The accounts of another address up to case and white space
  abbrev pub others : Text → List RecentAccount → List RecentAccount
  others email accounts =
      filter (λ a. not (same (lower (trim a.email)) (lower (trim email)))) accounts

  remembered :
      (now email full_name : Text) (s : Storage)
      → Works s
      → is_empty email ≡ false
      → read_accounts (remember_account lower now email full_name s)
        ≡ take 5 (
            record { email = email; full_name = full_name; last_used_at = now }
            ∷ others email (read_accounts s))
  unfolding remember_account without key_of
  remembered now email full_name s w h =
      read_accounts-write _ s w
        (h, All-take (λ a. is_empty a.email ≡ false) 4 _ (without-Addressed (key_of lower email) s))

  others-others :
      (email : Text) (accounts : List RecentAccount)
      → All
          (λ a. not (same (lower (trim a.email)) (lower (trim email))) ≡ true)
          (others email accounts)
  others-others email accounts = All-filter_self _ accounts

  -- Removing the address of the first row leaves the rows of other addresses.
  without-first :
      (email : Text) (first : RecentAccount) (rest : List RecentAccount)
      → first.email ≡ email
      → All (λ a. not (same (lower (trim a.email)) (lower (trim email))) ≡ true) rest
      → without lower (key_of lower email) (take 5 (first ∷ rest)) ≡ take 4 rest
  unfolding without key_of
  without-first email first rest e h =
      rw (e, same_refl (lower (trim email))) (filter-All _ (take 4 rest) (All-take _ 4 rest h))

  -- Removing an account leaves the others, in order, and none with its address.
  pub forget_account-read :
      (email : Text) (s : Storage)
      → Works s
      → (read_accounts (forget_account lower email s)
          ≡ without lower (key_of lower email) (read_accounts s))
        × Fresh
            (key_of lower email)
            (map (λ a. key_of lower a.email) (read_accounts (forget_account lower email s)))
  unfolding forget_account
  forget_account-read email s w =
      let back =
        read_accounts-write (without lower (key_of lower email) (read_accounts s)) s w
          (without-Addressed (key_of lower email) s) in
      (back, rw back (without-Fresh (key_of lower email) (read_accounts s)))

  -- Where the storage can be written, a sign-in with an address that is not empty leaves the
  -- account first, as it was given, then the rows of other addresses up to case and white space,
  -- in order, five accounts in all at most; and removing the account again leaves the first four
  -- of those rows.
  pub remember_account-read :
      (now email full_name : Text) (s : Storage)
      → Works s
      → is_empty email ≡ false
      → let t : Storage = remember_account lower now email full_name s in
        (read_accounts t
          ≡ take 5 (
              record { email = email; full_name = full_name; last_used_at = now }
              ∷ others email (read_accounts s)))
        × (read_accounts (forget_account lower email t) ≡ take 4 (others email (read_accounts s)))
  remember_account-read now email full_name s w h =
      let rest = others email (read_accounts s) in
      let first : RecentAccount = record {
        email = email;
        full_name = full_name;
        last_used_at = now;
      } in
      let shown = remembered now email full_name s w h in
      let still = remember-Works now email full_name s w in
      let left =
        (forget_account-read email (remember_account lower now email full_name s) still).0 in
      (
        shown,
        left
            ∙ ap (without lower (key_of lower email)) shown
            ∙ without-first email first rest (refl) (others-others email (read_accounts s)),
      )

  remember_inert :
      (now email full_name : Text) (s : Storage)
      → ¬ Works s
      → remember_account lower now email full_name s ≡ s
  unfolding remember_account
  remember_inert now email full_name s w = write_inert _ s w

  forget_inert : (email : Text) (s : Storage) → ¬ Works s → forget_account lower email s ≡ s
  unfolding forget_account
  forget_inert email s w = write_inert _ s w

  read-writable :
      (writable : Bool) (s : Storage)
      → read_accounts (record s { writable = writable }) ≡ read_accounts s
  unfolding read_accounts
  read-writable writable s = refl

  -- What may happen to the storage: sign-ins, removals, and room coming and going.
  pub data Reach : Storage → Type 0 where
    fresh : (writable : Bool) → Reach (record { stored = missing; writable = writable })
    signs_in :
        {s : Storage} (now email full_name : Text)
        → Reach s
        → is_empty email ≡ false
        → Reach (remember_account lower now email full_name s)
    removes : {s : Storage} (email : Text) → Reach s → Reach (forget_account lower email s)
    fills : {s : Storage} (writable : Bool) → Reach s → Reach (record s { writable = writable })

  -- After any history the list holds five accounts at most, and no address twice up to case and
  -- white space.
  pub Reach-DistinctKeys :
      {s : Storage}
      → Reach s
      → DistinctKeys (read_accounts s) × (length (read_accounts s) ≤ max_recent_accounts)
  unfolding read_accounts without key_of
  Reach-DistinctKeys (fresh writable) = (tt, omega arith)
  Reach-DistinctKeys (signs_in {s} now email full_name r h) = elim (Works-cases s) [
    | inl w ↦
        let rest = without lower (key_of lower email) (read_accounts s) in
        let first : RecentAccount = record {
          email = email;
          full_name = full_name;
          last_used_at = now;
        } in
        rw (remembered now email full_name s w h) (
          (Distinct-map-take (λ a. key_of lower a.email) 5 (first ∷ rest)
              (
                without-Fresh (key_of lower email) (read_accounts s),
                without-DistinctKeys (key_of lower email) _ (Reach-DistinctKeys r).0,
              )),
          omega (arith, length-take {0} 5 (first ∷ rest)),
        )
    | inr w ↦ rw (remember_inert now email full_name s w) (Reach-DistinctKeys r)
  ]
  Reach-DistinctKeys (removes {s} email r) = elim (Works-cases s) [
    | inl w ↦ rw ((forget_account-read email s w).0) (
      without-DistinctKeys (key_of lower email) _ (Reach-DistinctKeys r).0,
      omega
          (arith, length-without (key_of lower email) (read_accounts s), (Reach-DistinctKeys r).1),
    )
    | inr w ↦ rw (forget_inert email s w) (Reach-DistinctKeys r)
  ]
  Reach-DistinctKeys (fills {s} writable r) = rw (read-writable writable s) (Reach-DistinctKeys r)
