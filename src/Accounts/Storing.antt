-- ===== src/Accounts/Storing.antt =====
-- What is written to a storage that works reads back.
use megoo_pm.Prelude.{
  ◌⊎◌, ◌≡◌, refl, ◌≢◌, true, false, not, Bool-cases, inl, inr, List, [], ◌∷◌, map, filter, arith,
  All,
}
use megoo_pm.Text.{text, same, is_empty}
use megoo_pm.Json.{Json, null, arr, items, of_items, get}
use megoo_pm.Accounts.{
  RecentAccount, Stored, blocked, missing, garbage, parsed, Storage, is_account, account_of,
  accounts_in, read_accounts, row_of, write,
}

-- Every entry has an address, so that its row is not dropped.
abbrev pub Addressed : List RecentAccount → Type 0
Addressed = All (λ a. is_empty a.email ≡ false)

abbrev pub Works : Storage → Type 0
Works s = (s.stored ≢ blocked) × (s.writable ≡ true)

account_of-row_of : (a : RecentAccount) → account_of (row_of a) ≡ a
unfolding account_of row_of get same text
account_of-row_of a = refl

is_account-row_of : (a : RecentAccount) → is_account (row_of a) ≡ not (is_empty a.email)
unfolding is_account row_of get same text
is_account-row_of a = refl

rows-read :
    (accounts : List RecentAccount)
    → Addressed accounts
    → map account_of (filter is_account (items (of_items (map row_of accounts)))) ≡ accounts
rows-read [] h = refl
rows-read (a ∷ accounts) (h, hs) =
    rw (is_account-row_of a, h) (λ i. account_of-row_of a i ∷ rows-read accounts hs i)

pub read_accounts-write :
    (accounts : List RecentAccount) (s : Storage)
    → Works s
    → Addressed accounts
    → read_accounts (write accounts s) ≡ accounts
unfolding read_accounts accounts_in write
read_accounts-write accounts s (h, w) k = ground (arith, rows-read accounts k)

pub write-Works : (accounts : List RecentAccount) (s : Storage) → Works s → Works (write accounts s)
unfolding write
write-Works accounts s (h, w) = ground arith

is_account-email : (row : Json) → is_account row ≡ true → is_empty (account_of row).email ≡ false
unfolding is_account account_of
is_account-email row h = ground arith

map-Addressed : (rows : List Json) → Addressed (map account_of (filter is_account rows))
map-Addressed [] = tt
map-Addressed (row ∷ rows) = elim (Bool-cases (is_account row)) [
  | inl e ↦ rw e (is_account-email row e, map-Addressed rows)
  | inr e ↦ rw e (map-Addressed rows)
]

accounts_in-Addressed : (value : Json) → Addressed (accounts_in value)
unfolding accounts_in
accounts_in-Addressed (arr rows) = map-Addressed (items rows)
accounts_in-Addressed null = tt
accounts_in-Addressed _ = tt

-- Whatever the storage holds, no account without an address is read from it.
pub read_accounts-Addressed : (s : Storage) → Addressed (read_accounts s)
read_accounts-Addressed s = go s.stored refl
  where
    go : (st : Stored) → s.stored ≡ st → Addressed (read_accounts s)
    go blocked e = unfold read_accounts in rw e tt
    go missing e = unfold read_accounts in rw e tt
    go garbage e = unfold read_accounts in rw e tt
    go (parsed value) e = unfold read_accounts in rw e (accounts_in-Addressed value)

-- A storage that does not work stays as it was.
pub write_inert : (accounts : List RecentAccount) (s : Storage) → ¬ Works s → write accounts s ≡ s
unfolding write
write_inert accounts s h = ground (arith, h)

pub Works-cases : (s : Storage) → Works s ⊎ (¬ Works s)
Works-cases s = elim (Bool-cases s.writable) [
  | inr full ↦ inr (λ w. cc w.1)
  | inl room ↦ go s.stored refl room
]
  where
    go : (st : Stored) → s.stored ≡ st → s.writable ≡ true → Works s ⊎ (¬ Works s)
    go blocked e room = inr (λ w. w.0 e)
    go missing e room = inl (λ q. ground arith, room)
    go garbage e room = inl (λ q. ground arith, room)
    go (parsed value) e room = inl (λ q. ground arith, room)
