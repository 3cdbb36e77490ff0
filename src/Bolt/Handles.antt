-- ===== src/Bolt/Handles.antt =====
-- Calls on the handle that tx.Bucket returned: on a nil handle they panic.
use go_s.Prelude.{
  false, ◌&&◌, Bytes, Result, ok, err, panic, Option, none, some, ◌≡◌, bytes_eq, bytes_eq_refl,
  if◌then◌else◌, Option-cases, inl, inr, arith, bytes_eq_iff,
}
use go_s.Bolt.Contents.{Entries, lookup, insert, remove, lookup-insert, lookup-remove}
use go_s.Bolt.Defs.{Bolt, Laws, FitsKey, FitsValue, opened}

module _ (B : Bolt) where
  unfoldable pub b_get : B.Db → Bytes → Bytes → Result (Option Bytes)
  b_get db b k = elim (B.bucket db b) [ none ↦ err panic | some es ↦ ok (B.get db b k) ]

  unfoldable pub b_put : B.Db → Bytes → Bytes → Bytes → Result B.Db
  b_put db b k v = elim (B.bucket db b) [ none ↦ err panic | some es ↦ B.put db b k v ]

  unfoldable pub b_delete : B.Db → Bytes → Bytes → Result B.Db
  b_delete db b k = elim (B.bucket db b) [ none ↦ err panic | some es ↦ ok (B.delete db b k) ]

  -- What b.ForEach and a cursor of b go over.
  unfoldable pub b_entries : B.Db → Bytes → Result Entries
  b_entries db b = elim (B.bucket db b) [ none ↦ err panic | some es ↦ ok es ]

  -- The value of a key in a bucket, if both are there: how the theorems look at a database.
  unfoldable pub value : B.Db → Bytes → Bytes → Option Bytes
  value db b k = elim (B.bucket db b) [ none ↦ none | some es ↦ lookup k es ]

-- Whether a bucket is there.
abbrev pub Exists : (B : Bolt) → B.Db → Bytes → Type 0
Exists B db b = (es : Entries) × (B.bucket db b ≡ some es)

module _ (B : Bolt) (L : Laws B) where
  pub b_get_lem : (db : B.Db) (b k : Bytes) → Exists B db b → b_get B db b k ≡ ok (value B db b k)
  unfolding b_get value
  b_get_lem db b k (es, e) = ground (arith, L.get_lookup db b k es)

  -- A put that returns no error went to a bucket that is there.
  pub b_put-eq-ok :
      (db db' : B.Db) (b k v : Bytes)
      → b_put B db b k v ≡ ok db'
      → Exists B db b × (B.put db b k v ≡ ok db')
  unfolding b_put
  b_put-eq-ok db db' b k v h = elim (Option-cases (B.bucket db b)) [
    | inl e ↦ ground arith
    | inr (es, e) ↦ ((es, e), ground arith)
  ]

  pub value-put :
      (db db' : B.Db) (b k v c j : Bytes)
      → b_put B db b k v ≡ ok db'
      → value B db' c j ≡ (if bytes_eq c b && bytes_eq j k then some v else value B db c j)
  unfolding value
  value-put db db' b k v c j h =
      let ((es, e), p) = b_put-eq-ok db db' b k v h in
      elim (Option-cases (B.bucket db c)) [
        | inl n ↦ ground (arith, L.bucket_put db db' b k v c, bytes_eq_iff c b)
        | inr (cs, n) ↦ ground (arith, L.bucket_put db db' b k v c, lookup-insert j k v cs)
      ]

  pub b_put_total :
      (db : B.Db) (b k v : Bytes)
      → Exists B db b
      → FitsKey k
      → FitsValue v
      → (db' : B.Db) × (b_put B db b k v ≡ ok db')
  unfolding b_put
  b_put_total db b k v (es, e) fk fv =
      let (db', p) = L.put_total db b k v es e fk fv in (db', ground arith)

  -- A delete needs the bucket, and no more.
  pub b_delete_total :
      (db : B.Db) (b k : Bytes) → Exists B db b → b_delete B db b k ≡ ok (B.delete db b k)
  unfolding b_delete
  b_delete_total db b k (es, e) = ground arith

  pub value-delete :
      (db : B.Db) (b k c j : Bytes)
      → value B (B.delete db b k) c j
        ≡ (if bytes_eq c b && bytes_eq j k then none else value B db c j)
  unfolding value
  value-delete db b k c j = elim (Option-cases (B.bucket db c)) [
    | inl e ↦ ground (arith, L.bucket_delete db b k c)
    | inr (es, e) ↦ ground (arith, L.bucket_delete db b k c, lookup-remove j k es)
  ]

  -- A delete, of a bucket that is there or not, leaves the set of buckets as it was; so does a put.
  pub delete-Exists : (db : B.Db) (b k c : Bytes) → Exists B db c → Exists B (B.delete db b k) c
  delete-Exists db b k c (es, e) =
      (if bytes_eq c b then remove k es else es, ground (arith, L.bucket_delete db b k c))

  pub b_put-Exists :
      (db db' : B.Db) (b k v c : Bytes) → b_put B db b k v ≡ ok db' → Exists B db c → Exists B db' c
  b_put-Exists db db' b k v c h (es, e) =
      let (_, p) = b_put-eq-ok db db' b k v h in
      (if bytes_eq c b then insert k v es else es, ground (arith, L.bucket_put db db' b k v c))

  pub value-create :
      (db db' : B.Db) (b c j : Bytes) → B.create db b ≡ ok db' → value B db' c j ≡ value B db c j
  unfolding value lookup
  value-create db db' b c j h = elim (Option-cases (B.bucket db c)) [
    | inl e ↦ ground (arith, L.bucket_create db db' b c)
    | inr (es, e) ↦ ground (arith, L.bucket_create db db' b c)
  ]

  pub create-Exists :
      (db db' : B.Db) (b c : Bytes) → B.create db b ≡ ok db' → Exists B db c → Exists B db' c
  create-Exists db db' b c h (es, e) = (es, ground (arith, L.bucket_create db db' b c))

  pub create-Exists_self : (db db' : B.Db) (b : Bytes) → B.create db b ≡ ok db' → Exists B db' b
  create-Exists_self db db' b h =
      (opened (B.bucket db b), ground (arith, L.bucket_create db db' b b, bytes_eq_refl b))

  pub value-drop :
      (db db' : B.Db) (b c j : Bytes)
      → B.drop_bucket db b ≡ ok db'
      → bytes_eq c b ≡ false
      → value B db' c j ≡ value B db c j
  unfolding value
  value-drop db db' b c j h e = ground (arith, L.bucket_drop db db' b c)

  pub drop-Exists :
      (db db' : B.Db) (b c : Bytes)
      → B.drop_bucket db b ≡ ok db'
      → bytes_eq c b ≡ false
      → Exists B db c
      → Exists B db' c
  drop-Exists db db' b c h e (es, x) = (es, ground (arith, L.bucket_drop db db' b c))

  pub delete-gone :
      (db : B.Db) (b k c : Bytes) → B.bucket db c ≡ none → B.bucket (B.delete db b k) c ≡ none
  delete-gone db b k c h = ground (arith, L.bucket_delete db b k c)
