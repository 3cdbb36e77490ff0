-- ===== src/Metadata/Users.antt =====
-- The UserStore methods of internal/storage/metadata/bbolt.go.
pub mod Lookups
use go_s.Prelude.{
  Bytes, Result, ok, err, user_not_found, user_exists, Option, none, some, List, [], ◌∷◌, ◌>>=◌,
  if◌then◌else◌, bytes_eq, is_some,
}
use go_s.Bolt.{Bolt, Codec, Entries}
use go_s.Bolt.Handles.{b_get, b_delete, b_entries}
use go_s.Auth.{User}
use go_s.Metadata.Names.{bucket_users}
use go_s.Metadata.Rows.{read_row, write_row, read_rows, decode_or}

module _ (C : Codec User) where
  abbrev pub if_key : Bytes → Option User → Result User → Result User
  if_key access_key none rest = rest
  if_key access_key (some u) rest = if bytes_eq u.access_key_id access_key then ok u else rest

  -- The ForEach that stops at the first user with the access key.
  unfoldable pub find_access_key : Bytes → Entries → Result User
  find_access_key access_key [] = err user_not_found
  find_access_key access_key ((k, v) ∷ es) =
      if_key access_key (C.unmarshal v) (find_access_key access_key es)

module _ (B : Bolt) (C : Codec User) where
  unfoldable pub get_user_by_access_key : Bytes → B.Db → Result User
  unfolding find_access_key
  get_user_by_access_key access_key db = do
    es ← b_entries B db bucket_users
    find_access_key C access_key es

  unfoldable pub get_user_by_username : Bytes → B.Db → Result User
  get_user_by_username username db = read_row B C user_not_found db bucket_users username

  unfoldable pub list_users : B.Db → Result (List User)
  list_users db = read_rows B C db bucket_users

  unfoldable pub create_user : User → B.Db → Result B.Db
  create_user user db = do
    old ← b_get B db bucket_users user.username
    if is_some old then err user_exists else write_row B C db bucket_users user.username user

  unfoldable pub update_user : User → B.Db → Result B.Db
  update_user user db = do
    old ← b_get B db bucket_users user.username
    if is_some old then write_row B C db bucket_users user.username user else err user_not_found

  unfoldable pub update_user_policies : Bytes → List Bytes → B.Db → Result B.Db
  update_user_policies username policies db = do
    text ← b_get B db bucket_users username
    user ← decode_or C user_not_found text
    write_row B C db bucket_users username (record user { policies = policies })

module _ (B : Bolt) where
  unfoldable pub delete_user : Bytes → B.Db → Result B.Db
  delete_user username db = do
    old ← b_get B db bucket_users username
    if is_some old then b_delete B db bucket_users username else err user_not_found
