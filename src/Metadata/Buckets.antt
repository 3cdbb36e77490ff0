-- ===== src/Metadata/Buckets.antt =====
-- The bucket methods of internal/storage/metadata/bbolt.go: CreateBucket, DeleteBucket,
-- UpdateBucket, GetBucket, ListBuckets and GetBucketStats.
pub mod Lifecycle
use go_s.Prelude.{
  is_some, ℕ, ◌+◌, ◌%◌, ◌^◌, Bytes, codes, Result, ok, err, bucket_exists, bucket_not_found,
  bucket_not_empty, Option, none, some, List, [], ◌∷◌, ◌>>=◌, Bool, if◌then◌else◌,
}
use go_s.Bolt.{Bolt, Codec, Entries, IsSorted}
use go_s.Bolt.Handles.{b_get, b_put, b_delete}
use go_s.Storage.{Time, BucketInfo, ObjectMeta}
use go_s.Metadata.Names.{bucket_buckets, objects_of}
use go_s.Metadata.Rows.{read_row, write_row, read_rows}

abbrev pub versioning_enabled : Bytes
versioning_enabled = codes "Enabled"

abbrev pub new_info : Bytes → Bytes → Bytes → Bytes → Bool → Time → BucketInfo
new_info name region owner acl object_lock_enabled now = record {
  name = name;
  creation_date = now;
  region = region;
  owner = owner;
  acl = acl;
  versioning = if object_lock_enabled then versioning_enabled else [];
  object_lock_enabled = object_lock_enabled;
}

module _ (B : Bolt) where
  -- `none` is a nil objB; an empty one is dropped.
  unfoldable pub drop_objects : Bytes → Option Entries → B.Db → Result B.Db
  drop_objects name none db = ok db
  drop_objects name (some []) db = B.drop_bucket db (objects_of name)
  drop_objects name (some (e ∷ es)) db = err bucket_not_empty

  unfoldable pub delete_bucket : Bytes → B.Db → Result B.Db
  unfolding drop_objects
  delete_bucket name db = do
    old ← b_get B db bucket_buckets name
    if is_some old
        then (do
          db1 ← drop_objects name (B.bucket db (objects_of name)) db
          b_delete B db1 bucket_buckets name)
        else err bucket_not_found

module _ (B : Bolt) (C : Codec BucketInfo) where
  unfoldable pub create_bucket : Bytes → Bytes → Bytes → Bytes → Bool → Time → B.Db → Result B.Db
  create_bucket name region owner acl object_lock_enabled now db = do
    old ← b_get B db bucket_buckets name
    if is_some old then err bucket_exists else (do
      db1 ←
          write_row B C db bucket_buckets name
            (new_info name region owner acl object_lock_enabled now)
      B.create db1 (objects_of name))

  unfoldable pub update_bucket : BucketInfo → B.Db → Result B.Db
  update_bucket bucket db = do
    old ← b_get B db bucket_buckets bucket.name
    if is_some old then write_row B C db bucket_buckets bucket.name bucket else err bucket_not_found

  unfoldable pub get_bucket : Bytes → B.Db → Result BucketInfo
  get_bucket name db = read_row B C bucket_not_found db bucket_buckets name

  unfoldable pub list_buckets : B.Db → Result (List BucketInfo)
  list_buckets db = read_rows B C db bucket_buckets

module _ (C : Codec ObjectMeta) where
  -- One turn of the ForEach: rows that do not decode and delete markers are not counted.
  abbrev pub count_row : Option ObjectMeta → ℕ × ℕ → ℕ × ℕ
  count_row none (objects, bytes) = (objects, bytes)
  count_row (some meta) (objects, bytes) =
      if meta.is_delete_marker
      then (objects, bytes)
      else ((objects + 1) % 2 ^ 64, (bytes + meta.size) % 2 ^ 64)

  unfoldable pub count_rows : Entries → ℕ × ℕ → ℕ × ℕ
  count_rows [] total = total
  count_rows ((k, v) ∷ es) total = count_rows es (count_row (C.unmarshal v) total)

  abbrev pub stats_of : Option Entries → ℕ × ℕ
  stats_of none = (0, 0)
  stats_of (some es) = count_rows es (0, 0)

  unfoldable pub get_bucket_stats : (B : Bolt) → Bytes → B.Db → ℕ × ℕ
  get_bucket_stats B name db = stats_of (B.bucket db (objects_of name))
