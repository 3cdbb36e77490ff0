-- ===== src/Local/Multipart.antt =====
-- The multipart uploads of internal/storage/local/local.go. The metadata store's
-- CreateMultipartUpload is called as it is.
pub mod Parts
pub mod Completion
use go_s.Prelude.{
  decimal, ℕ, ◌+◌, ◌&&◌, has_prefix, path_traversal, Bytes, codes, Result, ok, err, Error,
  upload_not_found, no_such_upload, internal_error, invalid_part, system, Option, none, some, List,
  [], ◌∷◌, ◌++◌, true, not, if◌then◌else◌, length, bytes_eq, hex_encode, hex_decode,
}
use go_s.Bolt.{Bolt, Codec}
use go_s.Storage.{Time, BucketInfo, ObjectMeta, PartInfo}
use go_s.Metadata.Buckets.{get_bucket}
use go_s.Metadata.Objects
use go_s.Metadata.Objects.{or_same}
use go_s.Metadata.Multipart
use go_s.Metadata.Multipart.{UploadsPage, part_key}
use go_s.Local.Paths.{safe_path, join_path, clean}
use go_s.Local.Objects.{Files, remove_file}
use go_s.Local.Disk.{
  Method, ◌>>=◌, return, reading, changing, finally, or_clean, unless, unless_as, Calls, Body,
  write_file, rename_file, remove_tree,
}
use go_s.Local.Contents.{version_suffix, with_db, with_files, deal, with_error, open_path}

abbrev pub upload_dir : Bytes → Bytes → Bytes
upload_dir temp_dir upload_id = join_path (temp_dir ∷ codes "multipart" ∷ upload_id ∷ [])

abbrev pub part_dir : Bytes → Bytes → Bytes
part_dir temp_dir upload_id =
    join_path (temp_dir ∷ codes "multipart" ∷ upload_id ∷ codes "parts" ∷ [])

-- filepath.Join(partDir, fmt.Sprintf("%05d", partNum))
unfoldable pub part_path : Bytes → Bytes → ℕ → Bytes
part_path temp_dir upload_id part_num =
    join_path (part_dir temp_dir upload_id ∷ part_key part_num ∷ [])

unfoldable pub safe_multipart_path : Bytes → Bytes → Result Bytes
safe_multipart_path temp_dir upload_id =
    let p = clean (upload_dir temp_dir upload_id) in
    let base = clean temp_dir in
    if not (has_prefix p (base ++ codes "/")) && not (bytes_eq p base)
    then err path_traversal
    else ok p

abbrev pub upload_error : Error → Error
upload_error upload_not_found = no_such_upload
upload_error e = e

pub record CompletePart : Type 0 where
  pub part_number : ℕ
  pub etag : Bytes

pub record CompleteResult : Type 0 where
  pub etag : Bytes
  pub version_id : Bytes

-- What the loop over the parts has added up: the size, and the bytes of the hash of hashes.
pub record Combined : Type 0 where
  pub size : ℕ
  pub sums : Bytes

abbrev pub add_part : CompletePart → Bytes → Combined → Combined
add_part p file c = record { size = c.size + length file; sums = c.sums ++ hex_decode p.etag }

abbrev pub appended : Bytes → Option Bytes → Bytes
appended file none = file
appended file (some old) = old ++ file

-- A write at the end of an open file.
abbrev pub append_file : Bytes → Bytes → Files → Files
append_file path file files name =
    if bytes_eq name path then some (appended file (files path)) else files name

-- `file, err := os.Open(partPath)` with the error of the loop, then io.Copy.
unfoldable pub part_file : Calls → Bytes → Files → Result Bytes
unfolding open_path
part_file calls path files = elim (open_path calls path files) [
  | err e ↦ err invalid_part
  | ok file ↦ elim (calls.read_file path) [ some e ↦ err e | none ↦ ok file ]
]

module _ {D : Type 0} (calls : Calls) (temp_dir tmp upload_id : Bytes) where
  unfoldable pub combine : List CompletePart → Combined → Method (D × Files) Combined
  combine [] c = return c
  combine (p ∷ ps) c = do
    file ← reading (λ s. part_file calls (part_path temp_dir upload_id p.part_number) s.1)
    copied ← changing (deal (append_file tmp file))
    combine ps (add_part p file c)

-- fmt.Sprintf("%s-%d", hex.EncodeToString(comboHash.Sum(nil)), len(parts))
abbrev pub combined_etag : (Bytes → Bytes) → Bytes → ℕ → Bytes
combined_etag md5 sums n = hex_encode (md5 sums) ++ b'-' ∷ decimal 19 n

abbrev pub new_version : Bytes → Bytes → Result BucketInfo → Bytes
new_version uuid version_id (err e) = version_id
new_version uuid version_id (ok info) =
    if bytes_eq info.versioning (codes "Enabled")
    then uuid
    else if bytes_eq info.versioning (codes "Suspended")
    then codes "null"
    else version_id

abbrev pub finished : Bytes → ℕ → Time → Bytes → ObjectMeta → ObjectMeta
finished etag size now version_id meta = record meta {
  version_id = version_id;
  is_latest = true;
  etag = etag;
  size = size;
  last_modified = now;
}

module _ (B : Bolt) (JP : Codec PartInfo) where
  -- What UploadPart does once the part has arrived in the file `tmp`.
  unfoldable pub store_part :
      Calls
      → (Bytes → Bytes)
      → Bytes
      → Bytes
      → Bytes
      → Time
      → ℕ
      → Body
      → Method (B.Db × Files) PartInfo
  store_part calls md5 path tmp upload_id now part_num body = do
    written ← changing (deal (write_file tmp body.content))
    complete ← reading (λ s. unless body.failure)
    renamed ← reading (λ s. unless_as system calls.rename)
    moved ← changing (deal (rename_file tmp path))
    let info : PartInfo = record {
      part_number = part_num;
      etag = hex_encode (md5 body.content);
      last_modified = now;
      size = length body.content;
    }
    put ←
        or_clean (with_files (remove_file path))
          (changing (with_db (Multipart.put_object_part B JP upload_id part_num info)))
    return info

  unfoldable pub upload_part :
      Calls → (Bytes → Bytes) → Bytes → Bytes → Time → ℕ → Body → ℕ → Method (B.Db × Files) PartInfo
  unfolding store_part
  upload_part calls md5 temp_dir upload_id now part_num body size = do
    enough ← reading (λ s. unless (calls.space size))
    made ← reading (λ s. unless_as internal_error calls.mkdir)
    let path = part_path temp_dir upload_id part_num
    let tmp = path ++ codes ".tmp"
    created ← reading (λ s. unless_as internal_error calls.create)
    finally (with_files (remove_file tmp))
        (store_part calls md5 path tmp upload_id now part_num body)

abbrev pub dropped : Bytes → Result Bytes → Files → Files
dropped temp_dir (err e) files = files
dropped temp_dir (ok dir) files = remove_tree dir files

module _ (B : Bolt) where
  -- The clean-up after the object is written; its errors are dropped.
  unfoldable pub drop_upload : Bytes → Bytes → Bytes → Bytes → B.Db × Files → B.Db × Files
  drop_upload temp_dir bucket key upload_id (db, files) = (
    or_same B db (Multipart.delete_multipart_upload B bucket key upload_id db),
    dropped temp_dir (safe_multipart_path temp_dir upload_id) files,
  )

module _ (B : Bolt) (CB : Codec BucketInfo) (C : Codec ObjectMeta) where
  -- CompleteMultipartUpload once the parts are put together in the file `tmp`.
  unfoldable pub finish :
      Calls
      → Bytes
      → Bytes
      → Bytes
      → Bytes
      → Time
      → Bytes
      → Bytes
      → Bytes
      → ObjectMeta
      → Bytes
      → ℕ
      → Method (B.Db × Files) CompleteResult
  unfolding drop_upload
  finish calls data_dir temp_dir tmp uuid now bucket key upload_id meta etag size = do
    base ← reading (λ s. safe_path data_dir bucket key [])
    made ← reading (λ s. unless calls.mkdir)
    new ← reading (λ s. ok (
        finished etag size now (new_version uuid meta.version_id (get_bucket B CB bucket s.0))
          meta))
    path ← reading (λ s. safe_path data_dir bucket key (version_suffix new.version_id))
    renamed ← reading (λ s. unless_as system calls.rename)
    moved ← changing (deal (rename_file tmp path))
    put ←
        or_clean (with_files (remove_file path))
          (changing (with_db (Objects.put_object B C bucket key new)))
    dropped ← changing (λ s. ok (drop_upload B temp_dir bucket key upload_id s))
    return (record { etag = etag; version_id = new.version_id })

  unfoldable pub assemble :
      Calls
      → (Bytes → Bytes)
      → Bytes
      → Bytes
      → Bytes
      → Bytes
      → Time
      → Bytes
      → Bytes
      → Bytes
      → List CompletePart
      → ObjectMeta
      → Method (B.Db × Files) CompleteResult
  unfolding combine finish
  assemble calls md5 data_dir temp_dir tmp uuid now bucket key upload_id parts meta = do
    started ← changing (deal (write_file tmp []))
    c ← combine calls temp_dir tmp upload_id parts (record { size = 0; sums = [] })
    finish calls data_dir temp_dir tmp uuid now bucket key upload_id meta
        (combined_etag md5 c.sums (length parts)) c.size

  unfoldable pub complete_multipart_upload :
      Calls
      → (Bytes → Bytes)
      → Bytes
      → Bytes
      → Bytes
      → Bytes
      → Time
      → Bytes
      → Bytes
      → Bytes
      → List CompletePart
      → Method (B.Db × Files) CompleteResult
  unfolding assemble
  complete_multipart_upload calls md5 data_dir temp_dir tmp uuid now bucket key upload_id parts = do
    meta ←
        reading (λ s.
          with_error upload_error (Multipart.get_multipart_upload B C bucket key upload_id s.0))
    created ← reading (λ s. unless_as internal_error calls.create)
    finally (with_files (remove_file tmp))
        (assemble calls md5 data_dir temp_dir tmp uuid now bucket key upload_id parts meta)

module _ (B : Bolt) where
  -- The error of os.RemoveAll is dropped; one that fails is taken to remove nothing.
  unfoldable pub abort_multipart_upload :
      Calls → Bytes → Bytes → Bytes → Bytes → Method (B.Db × Files) (Unit {0})
  abort_multipart_upload calls temp_dir bucket key upload_id = do
    deleted ← changing (
        with_db (λ db.
          with_error upload_error (Multipart.delete_multipart_upload B bucket key upload_id db)))
    changing (
        deal (λ files. elim calls.remove_all [
          | none ↦ remove_tree (upload_dir temp_dir upload_id) files
          | some e ↦ files
        ]))
