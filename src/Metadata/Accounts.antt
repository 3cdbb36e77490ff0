-- ===== src/Metadata/Accounts.antt =====
-- The ServiceAccountStore methods of internal/storage/metadata/bbolt.go. The rows are keyed by access
-- key, and found by ID with a walk over all of them.
pub mod Disabling
use go_s.Prelude.{
  Bytes, Result, ok, err, account_exists, user_not_found, Option, none, some, List, [], ◌∷◌, ◌>>=◌,
  Bool, ◌||◌, if◌then◌else◌, bytes_eq, is_some, is_empty,
}
use go_s.Bolt.{Bolt, Codec, Entries, decode}
use go_s.Bolt.Handles.{b_get, b_delete, b_entries}
use go_s.Auth.{ServiceAccount}
use go_s.Metadata.Names.{bucket_service_accounts}
use go_s.Metadata.Rows.{read_row, write_row}

abbrev pub without_secret : ServiceAccount → ServiceAccount
without_secret sa = record sa { secret_key = [] }

module _ (C : Codec ServiceAccount) where
  unfoldable pub list_accounts : Bytes → Entries → Result (List ServiceAccount)
  list_accounts parent_user [] = ok []
  list_accounts parent_user ((k, v) ∷ es) = do
    sa ← decode C v
    rest ← list_accounts parent_user es
    ok (
        if is_empty parent_user || bytes_eq sa.parent_user parent_user
        then without_secret sa ∷ rest
        else rest)

  -- The walk of DeleteServiceAccount and DisableServiceAccount: the last row with the ID.
  unfoldable pub find_by_id :
      Bytes → Entries → Option (Bytes × ServiceAccount) → Result (Option (Bytes × ServiceAccount))
  find_by_id id [] found = ok found
  find_by_id id ((k, v) ∷ es) found = do
    sa ← decode C v
    find_by_id id es (if bytes_eq sa.id id then some (k, sa) else found)

module _ (B : Bolt) (C : Codec ServiceAccount) where
  unfoldable pub create_service_account : ServiceAccount → B.Db → Result B.Db
  create_service_account sa db = do
    old ← b_get B db bucket_service_accounts sa.access_key_id
    if is_some old
        then err account_exists
        else write_row B C db bucket_service_accounts sa.access_key_id sa

  unfoldable pub get_service_account_by_access_key : Bytes → B.Db → Result ServiceAccount
  get_service_account_by_access_key access_key db =
      read_row B C user_not_found db bucket_service_accounts access_key

  unfoldable pub list_service_accounts_by_user : Bytes → B.Db → Result (List ServiceAccount)
  unfolding list_accounts
  list_service_accounts_by_user parent_user db = do
    es ← b_entries B db bucket_service_accounts
    list_accounts C parent_user es

  abbrev pub delete_found : B.Db → Option (Bytes × ServiceAccount) → Result B.Db
  delete_found db none = err user_not_found
  delete_found db (some (key, sa)) = b_delete B db bucket_service_accounts key

  unfoldable pub delete_service_account : Bytes → B.Db → Result B.Db
  unfolding find_by_id
  delete_service_account id db = do
    es ← b_entries B db bucket_service_accounts
    found ← find_by_id C id es none
    delete_found db found

  abbrev pub disable_found : B.Db → Bool → Option (Bytes × ServiceAccount) → Result B.Db
  disable_found db disabled none = err user_not_found
  disable_found db disabled (some (key, sa)) =
      write_row B C db bucket_service_accounts key (record sa { disabled = disabled })

  unfoldable pub disable_service_account : Bytes → Bool → B.Db → Result B.Db
  unfolding find_by_id
  disable_service_account id disabled db = do
    es ← b_entries B db bucket_service_accounts
    found ← find_by_id C id es none
    disable_found db disabled found
