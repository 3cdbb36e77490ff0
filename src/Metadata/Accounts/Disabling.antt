-- ===== src/Metadata/Accounts/Disabling.antt =====
-- DisableServiceAccount, and what the lookup by access key finds afterwards.
use mathlib.Core.Path.{subst}
use go_s.Bolt.Scan.{lookup-later}
use go_s.Prelude.{
  Bytes, ok, user_not_found, Option, none, some, ◌≡◌, Bool, false, bytes_eq, bytes_eq_refl,
  bytes_eq_iff, arith, ◌∙◌, ap, [], ◌∷◌, Bool-cases, inl, inr, ◌⊎◌, ◌>>=◌, >>=-eq-ok, ok-injective,
}
use go_s.Bolt.{Bolt, Laws, Codec, Entries, IsSorted, IsAbove, lookup, decode}
use go_s.Bolt.Handles.{value, b_entries}
use go_s.Auth.{ServiceAccount}
use go_s.Metadata.Names.{bucket_service_accounts}
use go_s.Metadata.Rows.{decode_or}
use go_s.Metadata.Rows.Laws.{read_row_lem, read_row-write_row, read_row-write_row_ne}
use go_s.Metadata.Accounts.{
  find_by_id, disable_found, disable_service_account, get_service_account_by_access_key,
}

found_in : Bytes × ServiceAccount → Option (Bytes × ServiceAccount) → Bytes × ServiceAccount
found_in x none = x
found_in x (some y) = y

module _ (C : Codec ServiceAccount) (id : Bytes) where
  -- A row of the table that holds an account with the ID.
  abbrev pub HasRow : Entries → Bytes × ServiceAccount → Type 0
  HasRow es (k, sa) = (v : Bytes) × (lookup k es ≡ some v) × (decode C v ≡ ok sa) × (sa.id ≡ id)

  -- What was found before the walk, or a row that the walk meets.
  abbrev Found : Entries → Option (Bytes × ServiceAccount) → Bytes × ServiceAccount → Type 0
  Found es found x = (found ≡ some x) ⊎ HasRow es x

  HasRow-later :
      (j w : Bytes) (es : Entries) (x : Bytes × ServiceAccount)
      → IsAbove j es
      → HasRow es x
      → HasRow ((j, w) ∷ es) x
  HasRow-later j w es (k, sa) a (v, l, d, i) = (v, lookup-later j w k v es a l, d, i)

  Found-find_by_id :
      (es : Entries) (found : Option (Bytes × ServiceAccount)) (x : Bytes × ServiceAccount)
      → IsSorted es
      → find_by_id C id es found ≡ ok (some x)
      → Found es found x
  unfolding find_by_id lookup found_in
  Found-find_by_id [] found x s h = inl (ok-injective h)
  Found-find_by_id ((j, w) ∷ es) found x s h =
      let (sa, d, g) = >>=-eq-ok (decode C w) _ h in
      elim (Bool-cases (bytes_eq sa.id id)) [
        | inr e ↦ elim (Found-find_by_id es found x s.1 (rw e at g)) [
          | inl f ↦ inl f
          | inr f ↦ inr (HasRow-later j w es x s.0 f)
        ]
        | inl e ↦ elim (Found-find_by_id es (some (j, sa)) x s.1 (rw e at g)) [
          | inl f ↦
              let same : (j, sa) ≡ x = ap (found_in (j, sa)) f in
              let here : HasRow ((j, w) ∷ es) (j, sa) =
                (w, rw (bytes_eq_refl j), d, (bytes_eq_iff sa.id id).0 e) in
              inr (subst (HasRow ((j, w) ∷ es)) same here)
          | inr f ↦ inr (HasRow-later j w es x s.0 f)
        ]
      ]

-- One account with the ID is found with the flag, and the other lookups are as they were.
abbrev pub Switched : (B : Bolt) → Codec ServiceAccount → B.Db → B.Db → Bytes → Bool → Type 0
Switched B C db db' id disabled =
    (k : Bytes) × (sa : ServiceAccount) × (sa.id ≡ id)
    × (get_service_account_by_access_key B C k db ≡ ok sa)
    × (get_service_account_by_access_key B C k db' ≡ ok (record sa { disabled = disabled }))
    × ((other : Bytes)
        → bytes_eq other k ≡ false
        → get_service_account_by_access_key B C other db'
          ≡ get_service_account_by_access_key B C other db)

-- A DisableServiceAccount that returns no error changes one account that has the ID: the lookup by its
-- access key returns it with the new flag and all else as it was, and every other lookup returns what
-- it did before. The table of the accounts is there, and an account that decodes is stable under JSON
-- with the new flag.
pub get_service_account_by_access_key-disable_service_account :
    (B : Bolt) (L : Laws B) (C : Codec ServiceAccount) (db db' : B.Db) (id : Bytes)
    (disabled : Bool) (es : Entries)
    → B.bucket db bucket_service_accounts ≡ some es
    → ((v : Bytes) (sa : ServiceAccount)
        → decode C v ≡ ok sa
        → C.Stable (record sa { disabled = disabled }))
    → disable_service_account B C id disabled db ≡ ok db'
    → Switched B C db db' id disabled
unfolding disable_service_account b_entries get_service_account_by_access_key value
get_service_account_by_access_key-disable_service_account B L C db db' id disabled es e stable h =
    let h1 : (find_by_id C id es none >>= λ found. disable_found B C db disabled found) ≡ ok db' =
      rw (e, b_entries, disable_service_account) at h in
    let (found, f, p) = >>=-eq-ok (find_by_id C id es none) (disable_found B C db disabled) h1 in
    by found f p
  where
    by :
        (found : Option (Bytes × ServiceAccount))
        → find_by_id C id es none ≡ ok found
        → disable_found B C db disabled found ≡ ok db'
        → Switched B C db db' id disabled
    by none f p = cc
    by (some (k, sa)) f p =
        elim (Found-find_by_id C id es none (k, sa)
          (L.bucket_sorted db bucket_service_accounts es e) f) [
            | inl n ↦ absurd (cc n)
            | inr (v, l, d, i) ↦
                let new = record sa { disabled = disabled } in
                let here : value B db bucket_service_accounts k ≡ some v = rw (e, value) l in
                (
                  k,
                  sa,
                  i,
                  read_row_lem B L C user_not_found db bucket_service_accounts k (es, e)
                      ∙ ap (decode_or C user_not_found) here
                      ∙ d,
                  read_row-write_row B L C user_not_found db db' bucket_service_accounts k new
                      (stable v sa d) p,
                  λ other apart.
                      read_row-write_row_ne B L C user_not_found db db' bucket_service_accounts k
                        bucket_service_accounts other new p (ground (arith, apart)) (es, e),
                )
          ]
