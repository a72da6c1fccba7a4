-- ===== src/Accounts/Tests.antt =====
-- Tests and examples for the remembered accounts.
use megoo_pm.Prelude.{◌≤◌, ◌≡◌, refl, true, [], ◌∷◌, take, length, arith}
use megoo_pm.Text.{Text, text, same, trim, is_space}
use megoo_pm.Text.Ascii.{ascii_lower}
use megoo_pm.Json.{get}
use megoo_pm.Accounts.{
  missing, Storage, read_accounts, accounts_in, is_account, account_of, row_of, write, key_of,
  without, remember_account, forget_account, max_recent_accounts,
}
use megoo_pm.Accounts.Remembering.{
  DistinctKeys, Reach, fresh, signs_in, Reach-DistinctKeys, remember_account-read, others,
  remember-Works,
}

abbrev start : Storage
start = record { stored = missing; writable = true }

abbrev ann : Text
ann = text "Ann@x.io"

abbrev ann_again : Text
ann_again = text " ann@X.io "

abbrev signed_in : Storage
signed_in = remember_account ascii_lower (text "t1") ann (text "Ann") start

abbrev twice : Storage
twice = remember_account ascii_lower (text "t2") ann_again (text "Ann B") signed_in

one_row :
    read_accounts twice
    ≡ record { email = ann_again; full_name = text "Ann B"; last_used_at = text "t2" } ∷ []
unfolding read_accounts accounts_in is_account account_of row_of write key_of without
    remember_account get same text trim is_space
one_row = refl

remember_account-read_example :
    (read_accounts twice
      ≡ take 5 (
          record { email = ann_again; full_name = text "Ann B"; last_used_at = text "t2" }
          ∷ others ascii_lower ann_again (read_accounts signed_in)))
    × (read_accounts (forget_account ascii_lower ann_again twice)
        ≡ take 4 (others ascii_lower ann_again (read_accounts signed_in)))
unfolding text
remember_account-read_example =
    remember_account-read ascii_lower (text "t2") ann_again (text "Ann B") signed_in
      (remember-Works ascii_lower (text "t1") ann (text "Ann") start (λ e. ground arith, refl)) refl

history : Reach ascii_lower twice
unfolding text
history =
    signs_in (text "t2") ann_again (text "Ann B")
      (signs_in (text "t1") ann (text "Ann") (fresh true) refl) refl

Reach-DistinctKeys_example :
    DistinctKeys ascii_lower (read_accounts twice)
    × (length (read_accounts twice) ≤ max_recent_accounts)
Reach-DistinctKeys_example = Reach-DistinctKeys ascii_lower history
