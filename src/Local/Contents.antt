-- ===== src/Local/Contents.antt =====
-- The methods of internal/storage/local/local.go that move contents: CreateBucket, DeleteBucket,
-- PutObject, GetObject with a range and CopyObject.
pub mod RoundTrip
pub mod Failures
pub mod Ranges
use go_s.Prelude.{
  ℕ, suc, ◌-◌, ◌+◌, Bytes, codes, Result, ok, err, Error, bucket_exists, bucket_already_exists,
  bucket_not_found, no_such_bucket, no_such_key, internal_error, invalid_range, system, Option,
  none, some, List, [], ◌∷◌, ◌++◌, Bool, true, false, ◌||◌, if◌then◌else◌, is_empty, take, drop,
  length, ℤ, pos, negsuc, int64, pred, int_lt, int_le, hex_encode,
}
use go_s.Bolt.{Bolt, Codec}
use go_s.Storage.{Time, BucketInfo, ObjectMeta}
use go_s.Metadata.Buckets
use go_s.Metadata.Objects
use go_s.Local.Paths.{safe_path, join_path}
use go_s.Local.Objects.{
  Files, remove_file, lookup_error, found_or, bucket_exists_in, delete_object, marker_id,
}
use go_s.Local.Disk.{
  Method, ◌>>=◌, return, reading, changing, finally, or_clean, unless, unless_as, Calls, Body,
  write_file, rename_file, remove_tree,
}

pub record PutResult : Type 0 where
  pub etag : Bytes
  pub size : ℕ
  pub version_id : Bytes

-- `range_start` and `range_end` are nil pointers or int64 values.
pub record GetOptions : Type 0 where
  pub range_start : Option ℤ
  pub range_end : Option ℤ
  pub version_id : Bytes

-- The content is what its reader will give.
pub record Object : Type 0 where
  pub meta : ObjectMeta
  pub content : Bytes
  pub range_start : ℤ
  pub range_end : ℤ

-- The version that the name of a file ends with.
abbrev pub version_suffix : Bytes → Bytes
version_suffix version_id = codes "@" ++ (if is_empty version_id then codes "null" else version_id)

abbrev pub or_default : {A : Type 0} → A → Option A → A
or_default a none = a
or_default a (some b) = b

-- The first and the last byte to read of an object of `size` bytes.
unfoldable pub clip : ℤ → Option ℤ → ℤ → Result (ℤ × ℤ)
clip start range_end size =
    let end = or_default (pred size) range_end in
    if int_lt end start || int_le size start
    then err invalid_range
    else ok (start, if int_le size end then pred size else end)

-- io.LimitReader(file, end - start + 1) after a Seek to `start`; a Seek to a negative offset fails.
unfoldable pub slice : Calls → Bytes → ℤ → ℤ → Result Bytes
slice calls file (negsuc n) end = err system
slice calls file (pos start) (negsuc n) = ok []
slice calls file (pos start) (pos end) = elim calls.seek [
  | some e ↦ err e
  | none ↦ ok (take (suc end - start) (drop start file))
]

abbrev pub object_of : ObjectMeta → ℤ → ℤ → Result Bytes → Result Object
object_of meta start end (err e) = err e
object_of meta start end (ok content) =
    ok (record { meta = meta; content = content; range_start = start; range_end = end })

-- The part of a file that GetObject gives out.
unfoldable pub serve : Calls → GetOptions → ObjectMeta → Bytes → Result Object
serve calls opts meta file = elim opts.range_start [
  | none ↦ object_of meta (pos 0) (pred (int64 meta.size)) (ok file)
  | some start ↦ elim (clip start opts.range_end (int64 meta.size)) [
    | err e ↦ err e
    | ok (first, last) ↦ object_of meta first last (slice calls file first last)
  ]
]

-- os.Open
unfoldable pub open_path : Calls → Bytes → Files → Result Bytes
open_path calls path files = elim (files path) [
  | none ↦ err no_such_key
  | some file ↦ elim (calls.open_file path) [ none ↦ ok file | some e ↦ err e ]
]

abbrev pub with_db : {D : Type 0} → (D → Result D) → D × Files → Result (D × Files)
with_db f (db, files) = elim (f db) [ err e ↦ err e | ok db' ↦ ok (db', files) ]

abbrev pub with_files : {D : Type 0} → (Files → Files) → D × Files → D × Files
with_files f (db, files) = (db, f files)

abbrev pub deal : {D : Type 0} → (Files → Files) → D × Files → Result (D × Files)
deal f s = ok (with_files f s)

-- The metadata that PutObject stores.
abbrev pub stored : Bytes → ℕ → Time → ObjectMeta → ObjectMeta
stored etag size now meta = record meta { etag = etag; size = size; last_modified = now }

module _ (B : Bolt) (C : Codec ObjectMeta) where
  unfoldable pub get_object :
      Calls → Bytes → Bytes → Bytes → GetOptions → B.Db × Files → Result Object
  get_object calls data_dir bucket key opts (db, files) =
      elim (found_or (Objects.get_object B C bucket key opts.version_id db)) [
        | err e ↦ err e
        | ok meta ↦ elim (safe_path data_dir bucket key (version_suffix meta.version_id)) [
          | err e ↦ err e
          | ok path ↦ elim (open_path calls path files) [
            | err e ↦ err e
            | ok file ↦ serve calls opts meta file
          ]
        ]
      ]

  -- PutObject once the body has arrived in the file `tmp`.
  unfoldable pub place :
      Calls
      → (Bytes → Bytes)
      → Bytes
      → Bytes
      → Time
      → Bytes
      → Bytes
      → Body
      → ObjectMeta
      → Method (B.Db × Files) PutResult
  place calls md5 data_dir tmp now bucket key body meta = do
    let etag = hex_encode (md5 body.content)
    path ← reading (λ s. safe_path data_dir bucket key (version_suffix meta.version_id))
    made ← reading (λ s. unless calls.mkdir)
    renamed ← reading (λ s. unless_as system calls.rename)
    moved ← changing (deal (rename_file tmp path))
    put ← or_clean (with_files (remove_file path)) (
        changing (
          with_db (Objects.put_object B C bucket key (stored etag (length body.content) now meta))))
    return (record { etag = etag; size = length body.content; version_id = meta.version_id })

  unfoldable pub arrive :
      Calls
      → (Bytes → Bytes)
      → Bytes
      → Bytes
      → Time
      → Bytes
      → Bytes
      → Body
      → ObjectMeta
      → Method (B.Db × Files) PutResult
  unfolding place
  arrive calls md5 data_dir tmp now bucket key body meta = do
    written ← changing (deal (write_file tmp body.content))
    complete ← reading (λ s. unless body.failure)
    place calls md5 data_dir tmp now bucket key body meta

  -- PutObject after the checks: the body goes to the file `tmp`.
  unfoldable pub receive :
      Calls
      → (Bytes → Bytes)
      → Bytes
      → Bytes
      → Time
      → Bytes
      → Bytes
      → Body
      → ObjectMeta
      → Method (B.Db × Files) PutResult
  unfolding arrive
  receive calls md5 data_dir tmp now bucket key body meta =
      finally (with_files (remove_file tmp))
        (arrive calls md5 data_dir tmp now bucket key body meta)

abbrev pub exists_or : Result Bool → Result (Unit {0})
exists_or (err e) = err e
exists_or (ok false) = err no_such_bucket
exists_or (ok true) = ok tt

abbrev pub exists_error : Error → Error
exists_error bucket_exists = bucket_already_exists
exists_error e = e

abbrev pub missing_error : Error → Error
missing_error bucket_not_found = no_such_bucket
missing_error e = e

-- The error of the metadata store under another name.
abbrev pub with_error : {A : Type 0} → (Error → Error) → Result A → Result A
with_error f (ok a) = ok a
with_error f (err e) = err (f e)

module _ (B : Bolt) (CB : Codec BucketInfo) where
  unfoldable pub create_bucket :
      Calls → Bytes → Bytes → Bytes → Bool → Time → Bytes → Method (B.Db × Files) (Unit {0})
  create_bucket calls bucket region acl lock now username = do
    created ← changing (
        with_db (λ db.
          with_error exists_error
            (Buckets.create_bucket B CB bucket region username acl lock now db)))
    reading (λ s. unless calls.mkdir)

-- An os.RemoveAll that fails is taken to remove nothing.
module _ (B : Bolt) where
  unfoldable pub delete_bucket : Calls → Bytes → Bytes → Method (B.Db × Files) (Unit {0})
  delete_bucket calls data_dir bucket = do
    deleted ←
        changing (with_db (λ db. with_error missing_error (Buckets.delete_bucket B bucket db)))
    removed ← reading (λ s. unless calls.remove_all)
    changing (deal (remove_tree (join_path (data_dir ∷ codes "buckets" ∷ bucket ∷ []))))

module _ (B : Bolt) (CB : Codec BucketInfo) (C : Codec ObjectMeta) where
  unfoldable pub put_object :
      Calls
      → (Bytes → Bytes)
      → Bytes
      → Bytes
      → Time
      → Bytes
      → Bytes
      → Body
      → ℕ
      → ObjectMeta
      → Method (B.Db × Files) PutResult
  unfolding receive
  put_object calls md5 data_dir tmp now bucket key body size meta = do
    exists ← reading (λ s. exists_or (bucket_exists_in B CB C bucket s.0))
    enough ← reading (λ s. unless (calls.space size))
    created ← reading (λ s. unless_as internal_error calls.create)
    receive B C calls md5 data_dir tmp now bucket key body meta

  -- The calls of the system for the source are those of `calls`, for the copy those of `calls'`, and
  -- `failure` is the error that reading the source ends with.
  unfoldable pub copy_object :
      Calls
      → Calls
      → (Bytes → Bytes)
      → Bytes
      → Bytes
      → Time
      → Bytes
      → Bytes
      → Bytes
      → Bytes
      → Option Error
      → Option ObjectMeta
      → Method (B.Db × Files) PutResult
  unfolding get_object put_object
  copy_object calls calls' md5 data_dir tmp now src_bucket src_key dst_bucket dst_key failure meta =
      do
        src ← reading (
            get_object B C calls data_dir src_bucket src_key
              (record { range_start = none; range_end = none; version_id = [] }))
        put_object calls' md5 data_dir tmp now dst_bucket dst_key
            (record { content = src.content; failure = failure }) src.meta.size
            (or_default src.meta meta)
