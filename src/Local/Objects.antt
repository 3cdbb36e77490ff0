-- ===== src/Local/Objects.antt =====
-- The object methods of internal/storage/local/local.go that need no contents of files: the check of a
-- bucket, the lookup of an object, its deletion, and the listings. The files are a function from paths
-- to contents; os.Remove takes one away.
pub mod Locks
pub mod Markers
use go_s.Prelude.{
  ℕ, Bytes, codes, Result, ok, err, Error, bucket_not_found, object_not_found, no_such_bucket,
  no_such_key, access_denied, Option, none, some, List, [], ◌∷◌, ◌++◌, ◌>>=◌, Bool, true, false,
  not, ◌&&◌, ◌||◌, if◌then◌else◌, ltb, bytes_eq, is_empty, keep,
}
use go_s.Bolt.{Bolt, Codec}
use go_s.Storage.{Time, BucketInfo, ObjectMeta, ObjectInfo}
use go_s.Metadata.Buckets.{get_bucket}
use go_s.Metadata.Objects
use go_s.Metadata.Listing
use go_s.Metadata.Listing.{Page}
use go_s.Local.Paths.{safe_path}

abbrev pub Files : Type 0
Files = Bytes → Option Bytes

-- os.Remove; a path that names no file is left, and its error is dropped.
abbrev pub remove_file : Bytes → Files → Files
remove_file path files name = if bytes_eq name path then none else files name

-- The metadata of a delete marker.
abbrev pub delete_marker : Bytes → Time → ObjectMeta
delete_marker version_id now = record {
  size = 0;
  etag = [];
  content_type = [];
  content_encoding = [];
  content_disposition = [];
  content_language = [];
  cache_control = [];
  expires = [];
  last_modified = now;
  user_meta = [];
  tags = [];
  storage_class = [];
  acl = [];
  version_id = version_id;
  is_delete_marker = true;
  is_latest = true;
  server_side_encryption = [];
  object_lock_mode = [];
  object_lock_retain_until_date = none;
  object_lock_legal_hold_status = [];
}

abbrev retained : Time → Option Time → Bool
retained now none = false
retained now (some date) = ltb now date

-- The two tests of the object lock.
unfoldable pub is_locked : Time → ObjectMeta → Bool
is_locked now meta =
    retained now meta.object_lock_retain_until_date
    || bytes_eq meta.object_lock_legal_hold_status (codes "ON")

-- The lock is read from the metadata, where there is any.
abbrev pub lock_holds : Time → Result ObjectMeta → Bool
lock_holds now (ok meta) = is_locked now meta
lock_holds now (err e) = false

abbrev pub keeps_versions : BucketInfo → Bool
keeps_versions info =
    bytes_eq info.versioning (codes "Enabled") || bytes_eq info.versioning (codes "Suspended")

abbrev pub marker_id : BucketInfo → Bytes → Bytes
marker_id info uuid = if bytes_eq info.versioning (codes "Enabled") then uuid else codes "null"

-- The errors of the metadata store that have a name of their own in the protocol.
abbrev pub lookup_error : Error → Error
lookup_error bucket_not_found = no_such_bucket
lookup_error object_not_found = no_such_key
lookup_error e = e

abbrev pub found_or : {A : Type 0} → Result A → Result A
found_or (ok a) = ok a
found_or (err e) = err (lookup_error e)

-- The file of a version is removed, if its path is safe; a version without an ID is called "null".
unfoldable pub unlink : Bytes → Bytes → Bytes → Bytes → Files → Files
unlink data_dir bucket key version_id files =
    elim (safe_path data_dir bucket key
      (codes "@" ++ (if is_empty version_id then codes "null" else version_id))) [
        | err e ↦ files
        | ok path ↦ remove_file path files
      ]

module _ (B : Bolt) (C : Codec ObjectMeta) where
  unfoldable pub head_object : Bytes → Bytes → Bytes → B.Db → Result ObjectMeta
  head_object bucket key version_id db = found_or (Objects.get_object B C bucket key version_id db)

  -- What is left to do once the lock allows the deletion.
  unfoldable pub remove_object : Bytes → Bytes → Bytes → Bytes → B.Db × Files → B.Db × Files
  remove_object data_dir bucket key version_id (db, files) =
      elim (Objects.delete_object B C bucket key version_id db) [
        | err e ↦ (db, files)
        | ok db' ↦ (db', unlink data_dir bucket key version_id files)
      ]

  unfoldable pub delete_unlocked :
      Bytes → Time → Bytes → Bytes → Bytes → B.Db × Files → Result (B.Db × Files)
  unfolding remove_object is_locked
  delete_unlocked data_dir now bucket key version_id (db, files) =
      if lock_holds now (Objects.get_object B C bucket key version_id db)
      then err access_denied
      else ok (remove_object data_dir bucket key version_id (db, files))

module _ (B : Bolt) (CB : Codec BucketInfo) (C : Codec ObjectMeta) where
  unfoldable pub bucket_exists_in : Bytes → B.Db → Result Bool
  bucket_exists_in bucket db = elim (get_bucket B CB bucket db) [
    | ok info ↦ ok true
    | err bucket_not_found ↦ ok false
    | err e ↦ err e
  ]

  -- `uuid` is the new UUID and `now` the time.
  unfoldable pub delete_object :
      Bytes → Bytes → Time → Bytes → Bytes → Bytes → B.Db × Files → Result (B.Db × Files)
  unfolding delete_unlocked
  delete_object data_dir uuid now bucket key version_id (db, files) =
      if not (is_empty version_id)
      then delete_unlocked B C data_dir now bucket key version_id (db, files)
      else do
        info ← get_bucket B CB bucket db
        if keeps_versions info
            then (do
              db' ← Objects.put_object B C bucket key (delete_marker (marker_id info uuid) now) db
              ok (db', files))
            else delete_unlocked B C data_dir now bucket key version_id (db, files)
