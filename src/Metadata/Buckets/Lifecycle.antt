-- ===== src/Metadata/Buckets/Lifecycle.antt =====
-- The life of a bucket: created once, found, kept while it holds objects, deleted, gone.
use go_s.Prelude.{
  Bytes, ok, err, bucket_exists, bucket_not_found, bucket_not_empty, none, some, ◌≡◌, refl, Bool,
  false, bytes_eq, bytes_eq_refl, arith, ◌∙◌, [], ◌∷◌, is_empty,
}
use go_s.Bolt.{Bolt, Laws, Codec, Entries, FitsKey}
use go_s.Bolt.Handles.{
  value, Exists, b_get_lem, b_delete_total, value-delete, create-Exists, create-Exists_self,
  value-create, value-drop, drop-Exists, delete-gone,
}
use go_s.Storage.{Time, BucketInfo, ObjectMeta}
use go_s.Metadata.Names.{
  bucket_buckets, objects_of, versions_of, version_key, versions_of-objects_of,
}
use go_s.Metadata.Rows.Laws.{
  IsWritable, read_row_lem, read_row-write_row, write_row_total, write_row-Exists, read_row-create,
  read_row-write_row_ne, value-written, read_row-delete,
}
use go_s.Metadata.Buckets.{new_info, create_bucket, delete_bucket, drop_objects, get_bucket}
use go_s.Metadata.Objects.{get_object}
use go_s.Metadata.Objects.RoundTrip.{get_version_lem}

-- The table of an object store is no table of its own name.
buckets-objects_of : (a : Bytes) → bytes_eq bucket_buckets (objects_of a) ≡ false
unfolding objects_of bytes_eq
buckets-objects_of a = refl

versions_of-buckets : (a : Bytes) → bytes_eq (versions_of a) bucket_buckets ≡ false
unfolding versions_of bytes_eq
versions_of-buckets a = refl

module _ (B : Bolt) (L : Laws B) (C : Codec BucketInfo) where
  -- CreateBucket of a name that is free succeeds, where the table of the buckets is there, the row
  -- can be written and the name of the object table is within the limits; GetBucket then returns
  -- the new information, the bucket has an object table, other buckets are as they were, and a
  -- second CreateBucket of the name fails.
  pub create_bucket_lem :
      (db : B.Db) (name region owner acl : Bytes) (lock : Bool) (now : Time)
      → Exists B db bucket_buckets
      → value B db bucket_buckets name ≡ none
      → IsWritable C name (new_info name region owner acl lock now)
      → FitsKey (objects_of name)
      → (db' : B.Db) × (create_bucket B C name region owner acl lock now db ≡ ok db')
        × (get_bucket B C name db' ≡ ok (new_info name region owner acl lock now))
        × Exists B db' (objects_of name)
        × ((other : Bytes)
            → bytes_eq other name ≡ false
            → get_bucket B C other db' ≡ get_bucket B C other db)
        × ((r o a : Bytes) (k : Bool) (t : Time)
            → create_bucket B C name r o a k t db' ≡ err bucket_exists)
  unfolding create_bucket get_bucket
  create_bucket_lem db name region owner acl lock now x free w fits =
      let info = new_info name region owner acl lock now in
      let (db1, p1) = write_row_total B L C db bucket_buckets name info x w in
      let (db2, p2) = L.create_total db1 (objects_of name) fits in
      let x1 = write_row-Exists B L C db db1 bucket_buckets name bucket_buckets info p1 x in
      let x2 = create-Exists B L db1 db2 (objects_of name) bucket_buckets p2 x1 in
      let same = λ (n : Bytes).
        read_row-create B L C bucket_not_found db1 db2 (objects_of name) bucket_buckets n p2 x1 in
      let (text, there) = value-written B L C db db1 bucket_buckets name info p1 in
      (
        db2,
        ground (arith, b_get_lem B L db bucket_buckets name x),
        same name
            ∙ read_row-write_row B L C bucket_not_found db db1 bucket_buckets name info w.stable p1,
        create-Exists_self B L db1 db2 (objects_of name) p2,
        λ other apart.
            same other
            ∙ read_row-write_row_ne B L C bucket_not_found db db1 bucket_buckets name bucket_buckets
                other info p1 (ground (arith, apart)) x,
        λ r o a k t. ground (
          arith,
          b_get_lem B L db2 bucket_buckets name x2,
          value-create B L db1 db2 (objects_of name) bucket_buckets name p2,
          there,
        ),
      )

module _ (B : Bolt) (L : Laws B) where
  -- DeleteBucket of a bucket that has its row is refused while its object table holds a row.
  pub delete_bucket-not_empty :
      (db : B.Db) (name text : Bytes) (e : Bytes × Bytes) (es : Entries)
      → Exists B db bucket_buckets
      → value B db bucket_buckets name ≡ some text
      → B.bucket db (objects_of name) ≡ some (e ∷ es)
      → delete_bucket B name db ≡ err bucket_not_empty
  unfolding delete_bucket drop_objects
  delete_bucket-not_empty db name text e es x v o =
      ground (arith, b_get_lem B L db bucket_buckets name x, o)

  -- DeleteBucket of a bucket that has its row and an empty object table succeeds: its row and its
  -- object table are gone, and other buckets are as they were. The table of its versions stays, so
  -- that GetObject with a version ID returns what it did before.
  pub delete_bucket_lem :
      (C : Codec BucketInfo) (CM : Codec ObjectMeta) (db : B.Db) (name text : Bytes)
      → Exists B db bucket_buckets
      → value B db bucket_buckets name ≡ some text
      → B.bucket db (objects_of name) ≡ some []
      → (db' : B.Db) × (delete_bucket B name db ≡ ok db')
        × (get_bucket B C name db' ≡ err bucket_not_found)
        × (B.bucket db' (objects_of name) ≡ none)
        × ((other : Bytes)
            → bytes_eq other name ≡ false
            → get_bucket B C other db' ≡ get_bucket B C other db)
        × ((key vid : Bytes)
            → is_empty vid ≡ false
            → get_object B CM name key vid db' ≡ get_object B CM name key vid db)
  unfolding delete_bucket drop_objects get_bucket get_object
  delete_bucket_lem C CM db name text x v o =
      let (db1, p1) = L.drop_total db (objects_of name) [] o in
      let x1 =
        drop-Exists B L db db1 (objects_of name) bucket_buckets p1 (buckets-objects_of name) x in
      let db2 = B.delete db1 bucket_buckets name in
      let row = λ (n : Bytes).
        read_row-delete B L C bucket_not_found db1 bucket_buckets name bucket_buckets n x1 in
      (
        db2,
        ground (
          arith,
          b_get_lem B L db bucket_buckets name x,
          o,
          p1,
          b_delete_total B L db1 bucket_buckets name x1,
        ),
        ground (arith, row name, bytes_eq_refl bucket_buckets, bytes_eq_refl name),
        delete-gone B L db1 bucket_buckets name (objects_of name) (
            ground (
              arith,
              L.bucket_drop db db1 (objects_of name) (objects_of name),
              bytes_eq_refl (objects_of name),
            )),
        λ other apart. ground (
          arith,
          row other,
          read_row_lem B L C bucket_not_found db1 bucket_buckets other x1,
          read_row_lem B L C bucket_not_found db bucket_buckets other x,
          value-drop B L db db1 (objects_of name) bucket_buckets other p1 (buckets-objects_of name),
        ),
        λ key vid ne. ground (
          arith,
          ne,
          get_version_lem B L CM db2 name key vid,
          get_version_lem B L CM db name key vid,
          value-delete B L db1 bucket_buckets name (versions_of name) (version_key key vid),
          value-drop B L db db1 (objects_of name) (versions_of name) (version_key key vid) p1
              (versions_of-objects_of name name),
          versions_of-buckets name,
        ),
      )
