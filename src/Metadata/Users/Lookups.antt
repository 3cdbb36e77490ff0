-- ===== src/Metadata/Users/Lookups.antt =====
-- Users after CreateUser, UpdateUserPolicies and DeleteUser, as the lookups by name and by access key
-- find them.
use go_s.Prelude.{
  ok-injective, bytes_lt, Bytes, Result, ok, err, user_exists, user_not_found, Option, none, some,
  ◌≡◌, refl, false, bytes_eq, bytes_eq_refl, arith, ◌∙◌, sym, [], ◌∷◌, if◌then◌else◌, Option-cases,
  Bool-cases, inl, inr, >>=-eq-ok, is_some, bytes_eq_iff, List,
}
use go_s.Bolt.{Bolt, Laws, Codec, Entries, insert}
use go_s.Bolt.Handles.{value, Exists, b_get, b_get_lem, b_put-eq-ok, b_delete_total, b_entries}
use go_s.Auth.{User}
use go_s.Metadata.Names.{bucket_users}
use go_s.Metadata.Rows.{read_row, write_row}
use go_s.Metadata.Rows.Laws.{
  IsWritable, read_row-write_row, write_row_total, write_row-Exists, write_row-eq-ok,
  read_row-write_row_ne, value-written, read_row-delete,
}
use go_s.Metadata.Users.{
  if_key, find_access_key, get_user_by_access_key, get_user_by_username, create_user,
  update_user_policies, delete_user,
}

module _ (C : Codec User) (a : Bytes) where
  skipped :
      (o : Option User) (rest : Result User)
      → if_key C a o rest ≡ err user_not_found
      → (rest ≡ err user_not_found) × ((r : Result User) → if_key C a o r ≡ r)
  skipped none rest h = (h, λ r. refl)
  skipped (some u) rest h = elim (Bool-cases (bytes_eq u.access_key_id a)) [
    | inl e ↦ absurd (ground arith)
    | inr e ↦ (ground arith, λ r. ground arith)
  ]

  -- A new row is the only one with an access key that no row had.
  find-insert :
      (k text : Bytes) (es : Entries) (u : User)
      → C.unmarshal text ≡ some u
      → find_access_key C a es ≡ err user_not_found
      → find_access_key C a (insert k text es)
        ≡ (if bytes_eq u.access_key_id a then ok u else err user_not_found)
  unfolding find_access_key insert
  find-insert k text [] u e h = rw e
  find-insert k text ((j, w) ∷ es) u e h =
      let (none_left, skip) = skipped (C.unmarshal w) (find_access_key C a es) h in
      let rest = find-insert k text es u e none_left in
      elim (Bool-cases (bytes_eq k j)) [
        | inl q ↦ rw (q, e, none_left)
        | inr q ↦ elim (Bool-cases (bytes_lt k j)) [
          | inl l ↦ rw (q, l, e, skip (find_access_key C a es), none_left)
          | inr l ↦ rw (q, l, skip (find_access_key C a (insert k text es))) rest
        ]
      ]

module _ (B : Bolt) (L : Laws B) (C : Codec User) where
  found_row :
      (db : B.Db) (name : Bytes) (old : Option Bytes)
      → b_get B db bucket_users name ≡ ok old
      → Exists B db bucket_users × (old ≡ value B db bucket_users name)
  unfolding b_get
  found_row db name old h = elim (Option-cases (B.bucket db bucket_users)) [
    | inl e ↦ absurd (ground arith)
    | inr (es, e) ↦ ((es, e), ok-injective (sym h ∙ b_get_lem B L db bucket_users name (es, e)))
  ]

  created :
      (db db' : B.Db) (user : User)
      → create_user B C user db ≡ ok db'
      → write_row B C db bucket_users user.username user ≡ ok db'
  unfolding create_user
  created db db' user h =
      let (old, g, p) = >>=-eq-ok (b_get B db bucket_users user.username) _ h in
      elim (Bool-cases (is_some old)) [ inl e ↦ absurd (ground arith) | inr e ↦ ground arith ]

  -- After a CreateUser that returns no error, of a user that is stable under JSON, a lookup of an
  -- access key that no user had finds the new user if it is that user's access key, and no user
  -- otherwise.
  pub get_user_by_access_key-create_user :
      (db db' : B.Db) (user : User) (access_key : Bytes)
      → C.Stable user
      → create_user B C user db ≡ ok db'
      → get_user_by_access_key B C access_key db ≡ err user_not_found
      → get_user_by_access_key B C access_key db'
        ≡ (if bytes_eq user.access_key_id access_key then ok user else err user_not_found)
  unfolding get_user_by_access_key b_entries
  get_user_by_access_key-create_user db db' user a s h none_has =
      let (text, m, p) =
        write_row-eq-ok B L C db db' bucket_users user.username user (created db db' user h) in
      let ((es, e), q) = b_put-eq-ok B L db db' bucket_users user.username text p in
      let e' = L.bucket_put db db' bucket_users user.username text bucket_users q in
      let e2 : B.bucket db' bucket_users ≡ some (insert user.username text es) =
        ground (arith, e', bytes_eq_refl bucket_users) in
      let f : find_access_key C a es ≡ err user_not_found =
        rw (e, get_user_by_access_key, b_entries) at none_has in
      rw (e2, get_user_by_access_key, b_entries)
        (find-insert C a user.username text es user (C.unmarshal_marshal user text s m) f)

  -- CreateUser under a name that is free succeeds, where the table of the users is there and the
  -- row can be written. The user is then found by name, other names find what they did before, and
  -- a second CreateUser of the name fails.
  pub create_user_lem :
      (db : B.Db) (user : User)
      → Exists B db bucket_users
      → value B db bucket_users user.username ≡ none
      → IsWritable C user.username user
      → (db' : B.Db) × (create_user B C user db ≡ ok db')
        × (get_user_by_username B C user.username db' ≡ ok user)
        × ((other : Bytes)
            → bytes_eq other user.username ≡ false
            → get_user_by_username B C other db' ≡ get_user_by_username B C other db)
        × ((again : User)
            → again.username ≡ user.username
            → create_user B C again db' ≡ err user_exists)
  unfolding create_user get_user_by_username
  create_user_lem db user x free w =
      let (db1, p1) = write_row_total B L C db bucket_users user.username user x w in
      let x1 = write_row-Exists B L C db db1 bucket_users user.username bucket_users user p1 x in
      let (text, there) = value-written B L C db db1 bucket_users user.username user p1 in
      (
        db1,
        ground (arith, b_get_lem B L db bucket_users user.username x),
        read_row-write_row B L C user_not_found db db1 bucket_users user.username user w.stable p1,
        λ other apart.
            read_row-write_row_ne B L C user_not_found db db1 bucket_users user.username
              bucket_users other user p1 (ground (arith, apart)) x,
        λ again e. ground (arith, e, b_get_lem B L db1 bucket_users again.username x1, there),
      )

  -- After an UpdateUserPolicies that returns no error, of a user that is found by name, the user is
  -- found by name with the new policies and all else as it was, and other names find what they did
  -- before. The user with the new policies is stable under JSON.
  pub get_user_by_username-update_user_policies :
      (db db' : B.Db) (user : User) (name other : Bytes) (policies : List Bytes)
      → get_user_by_username B C name db ≡ ok user
      → C.Stable (record user { policies = policies })
      → update_user_policies B C name policies db ≡ ok db'
      → get_user_by_username B C other db' ≡ (
          if bytes_eq other name
          then ok (record user { policies = policies })
          else get_user_by_username B C other db)
  unfolding get_user_by_username update_user_policies read_row
  get_user_by_username-update_user_policies db db' user name other policies g s h =
      let (old, r, d) = >>=-eq-ok (b_get B db bucket_users name) _ g in
      let (x, _) = found_row db name old r in
      let u2 = record user { policies = policies } in
      let p : write_row B C db bucket_users name u2 ≡ ok db' = ground (arith, r, d, h) in
      elim (Bool-cases (bytes_eq other name)) [
        | inl e ↦
            let same : other ≡ name = (bytes_eq_iff other name).0 e in
            rw (e, same) (read_row-write_row B L C user_not_found db db' bucket_users name u2 s p)
        | inr e ↦ rw e (
            read_row-write_row_ne B L C user_not_found db db' bucket_users name bucket_users other
              u2 p (ground (arith, e)) x)
      ]

  -- After a DeleteUser of a name that returns no error, the lookup of it finds no user, and other
  -- names find what they did before.
  pub get_user_by_username-delete_user :
      (db db' : B.Db) (name other : Bytes)
      → delete_user B name db ≡ ok db'
      → get_user_by_username B C other db'
        ≡ (if bytes_eq other name then err user_not_found else get_user_by_username B C other db)
  unfolding get_user_by_username delete_user
  get_user_by_username-delete_user db db' name other h =
      let (old, r, d) = >>=-eq-ok (b_get B db bucket_users name) _ h in
      let (x, _) = found_row db name old r in
      let p : B.delete db bucket_users name ≡ db' = elim (Bool-cases (is_some old)) [
        | inl e ↦ ok-injective (ground (arith, b_delete_total B L db bucket_users name x))
        | inr e ↦ absurd (ground arith)
      ] in
      rw⁻¹ p (
        read_row-delete B L C user_not_found db bucket_users name bucket_users other x
        ∙ ground (arith, bytes_eq_refl bucket_users))
