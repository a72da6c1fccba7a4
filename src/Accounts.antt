-- ===== src/Accounts.antt =====
-- frontend/src/lib/auth/recent-accounts.ts: the accounts that signed in on this browser. The
-- storage entry is kept as the value that it parses to. `lower` stands for `toLowerCase`.
pub mod Storing
pub mod Remembering
mod Tests
use megoo_pm.Prelude.{
  ℕ, Bool, true, false, not, Option, none, some, List, [], ◌∷◌, map, take, filter, if◌then◌else◌,
}
use megoo_pm.Text.{Text, text, same, is_empty, trim}
use megoo_pm.Json.{
  Json, null, bool, num, str, arr, obj, Fields, end, entry, items, of_items, get, as_text,
}

abbrev pub max_recent_accounts : ℕ
max_recent_accounts = 5

pub record RecentAccount : Type 0 where
  pub email : Text
  pub full_name : Text
  pub last_used_at : Text

-- What the storage holds under the key: access throws, nothing, a text that does not parse, or
-- a value.
pub data Stored : Type 0 where
  blocked missing garbage : Stored
  parsed : Json → Stored

-- `writable` is false when the quota is exceeded.
pub record Storage : Type 0 where
  pub stored : Stored
  pub writable : Bool

abbrev text_or_empty : Option Text → Text
text_or_empty none = []
text_or_empty (some s) = s

unfoldable pub is_account : Json → Bool
is_account value = elim (as_text (get (text "email") value)) [
  | none ↦ false
  | some email ↦ not (is_empty email)
]

unfoldable pub account_of : Json → RecentAccount
account_of row = record {
  email = text_or_empty (as_text (get (text "email") row));
  full_name = text_or_empty (as_text (get (text "full_name") row));
  last_used_at = text_or_empty (as_text (get (text "lastUsedAt") row));
}

unfoldable pub accounts_in : Json → List RecentAccount
accounts_in (arr rows) = map account_of (filter is_account (items rows))
accounts_in null = []
accounts_in v = []

unfoldable pub read_accounts : Storage → List RecentAccount
read_accounts s = elim s.stored [
  | blocked ↦ []
  | missing ↦ []
  | garbage ↦ []
  | parsed value ↦ accounts_in value
]

unfoldable pub row_of : RecentAccount → Json
row_of a = obj (
    entry (text "email") (str a.email) (
      entry (text "full_name") (str a.full_name)
        (entry (text "lastUsedAt") (str a.last_used_at) end)))

-- A blocked or full storage throws, and stays as it was.
unfoldable pub write : List RecentAccount → Storage → Storage
write accounts s = elim s.stored [
  | blocked ↦ s
  | _ ↦
      if s.writable then record s { stored = parsed (arr (of_items (map row_of accounts))) } else s
]

module _ (lower : Text → Text) where
  unfoldable pub key_of : Text → Text
  key_of email = lower (trim email)

  -- `accounts.filter((a) => a.email.trim().toLowerCase() !== key)`
  unfoldable pub without : Text → List RecentAccount → List RecentAccount
  without key accounts = filter (λ a. not (same (key_of a.email) key)) accounts

  -- `now` is the time of the call
  unfoldable pub remember_account : Text → Text → Text → Storage → Storage
  remember_account now email full_name s =
      let key = key_of email in
      let rest = without key (read_accounts s) in
      let first : RecentAccount = record {
        email = email;
        full_name = full_name;
        last_used_at = now;
      } in
      write (take max_recent_accounts (first ∷ rest)) s

  unfoldable pub forget_account : Text → Storage → Storage
  forget_account email s = write (without (key_of email) (read_accounts s)) s
