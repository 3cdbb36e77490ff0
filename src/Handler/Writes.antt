-- ===== src/Handler/Writes.antt =====
-- The handlers PutObject, DeleteObject, DeleteObjects and CopyObject of internal/handler/object.go, up to the response;
-- replication and webhooks come after it.
use go_s.Prelude.{
  malformed_xml, List, ℕ, Bytes, codes, Result, ok, err, Error, key_too_long, invalid_storage_class,
  entity_too_large, invalid_copy_source, Option, none, some, [], ◌∷◌, ◌++◌, Bool, true, false, not,
  ◌&&◌, if◌then◌else◌, ltb, bytes_eq, is_empty, has_prefix, length, drop, cut, ℤ, pos, int_lt,
}
use go_s.Bolt.{Bolt, Codec}
use go_s.Storage.{Time, BucketInfo, ObjectMeta}
use go_s.Auth.{User, Policy}
use go_s.Auth.Requests.{query_get}
use go_s.Metadata.Buckets
use go_s.Metadata.Configs
use go_s.Local.Objects.{Files, delete_object}
use go_s.Local.Disk.{Method, ◌>>=◌, return, reading, changing, Calls}
use go_s.Local.Batches.{ObjectIdentifier, DeleteResult, delete_objects}
use go_s.Local.Contents.{PutResult, put_object, copy_object}
use go_s.Local.Multipart.{new_version}
use go_s.S3.Names.{is_valid_storage_class}
use go_s.Middleware.Cors.{Headers, header_if}
use go_s.Handler.Access.{Stores, check_policy}
use go_s.Handler.Requests.{
  HttpRequest, Response, Dates, header_meta, put_meta, content_length, body_of, quoted,
}

abbrev pub check : Bool → Error → Result (Unit {0})
check true e = ok tt
check false e = err e

-- `h.Config` is nil or has a largest size.
abbrev pub is_within : Option ℤ → ℕ → Bool
is_within none size = true
is_within (some largest) size = not (int_lt largest (pos size))

abbrev pub version_header : Bytes → Headers
version_header version_id =
    header_if (not (is_empty version_id) && not (bytes_eq version_id (codes "null")))
      (codes "x-amz-version-id") version_id

abbrev pub put_response : PutResult → ObjectMeta → Response
put_response res meta = record {
  status = 200;
  headers =
      (codes "ETag", quoted res.etag)
      ∷ (version_header res.version_id
          ++ header_if (not (is_empty meta.server_side_encryption))
              (codes "x-amz-server-side-encryption") meta.server_side_encryption);
  content = [];
}

abbrev pub without_slash_before : Bytes → Bytes
without_slash_before s = if has_prefix s (codes "/") then drop 1 s else s

abbrev pub source_parts : Option (Bytes × Bytes) → Result (Bytes × Bytes)
source_parts none = err invalid_copy_source
source_parts (some p) = ok p

abbrev pub unescaped : (Bytes → Option Bytes) → Bytes → Bytes
unescaped unescape s = elim (unescape s) [ none ↦ s | some t ↦ t ]

-- The bucket and the key that x-amz-copy-source names; `unescape` is url.QueryUnescape.
unfoldable pub copy_source : (Bytes → Option Bytes) → Bytes → Result (Bytes × Bytes)
unfolding has_prefix cut
copy_source unescape s =
    if is_empty s
    then err invalid_copy_source
    else source_parts (cut b'/' (without_slash_before (unescaped unescape s)))

-- The metadata of a copy: that of the source, or with the directive REPLACE that of the headers.
unfoldable pub copy_meta : Dates → HttpRequest → Result (Option ObjectMeta)
unfolding bytes_eq is_valid_storage_class
copy_meta D r =
    if bytes_eq (r.header (codes "x-amz-metadata-directive")) (codes "REPLACE")
    then if is_valid_storage_class (header_meta D r).storage_class
      then ok (some (header_meta D r))
      else err invalid_storage_class
    else ok none

abbrev pub parsed_or_malformed : {A : Type 0} → Option A → Result A
parsed_or_malformed none = err malformed_xml
parsed_or_malformed (some a) = ok a

abbrev pub returned : {A S : Type 0} → A × S → Result A × S
returned (a, s) = (ok a, s)

-- A quiet request is told of errors only.
abbrev pub without_quiet : Bool → DeleteResult → DeleteResult
without_quiet true res = record res { deleted = [] }
without_quiet false res = res

module _ (B : Bolt) (CB : Codec BucketInfo) (C : Codec ObjectMeta) (CP : Codec Policy) where
  abbrev pub stores_of : B.Db → Stores
  stores_of db = record {
    get_bucket = λ name. Buckets.get_bucket B CB name db;
    get_iam_policy = λ name. Configs.get_iam_policy B CP name db;
    get_bucket_policy = λ name. Configs.get_bucket_policy B CP name db;
  }

  abbrev pub allowed : User → Bytes → Bytes → Bytes → B.Db → Result (Unit {0})
  allowed user action bucket key db = check_policy (stores_of db) user action bucket key

  abbrev pub new_meta : Dates → Bytes → Bytes → HttpRequest → B.Db → ObjectMeta
  new_meta D uuid bucket r db =
      put_meta D r (new_version uuid [] (Buckets.get_bucket B CB bucket db))

  -- PutObject once the request has passed the checks.
  unfoldable pub put_checked :
      Dates
      → Calls
      → (Bytes → Bytes)
      → Bytes
      → Bytes
      → Bytes
      → Time
      → Bytes
      → Bytes
      → HttpRequest
      → ℕ
      → Method (B.Db × Files) Response
  put_checked D calls md5 data_dir tmp uuid now bucket key r size = do
    meta ← reading (λ s. ok (new_meta D uuid bucket r s.0))
    res ← put_object B CB C calls md5 data_dir tmp now bucket key (body_of r) size meta
    return (put_response res meta)

  unfoldable pub put_object_handler :
      Dates
      → Option ℤ
      → Calls
      → (Bytes → Bytes)
      → Bytes
      → Bytes
      → Bytes
      → Time
      → User
      → Bytes
      → Bytes
      → HttpRequest
      → Method (B.Db × Files) Response
  put_object_handler D largest calls md5 data_dir tmp uuid now user bucket key r = do
    granted ← reading (λ s. allowed user (codes "s3:PutObject") bucket key s.0)
    short ← reading (λ s. check (not (ltb 1024 (length key))) key_too_long)
    class ←
        reading (λ s.
          check (is_valid_storage_class (header_meta D r).storage_class) invalid_storage_class)
    size ← reading (λ s. content_length (r.header (codes "Content-Length")))
    fits ← reading (λ s. check (is_within largest size) entity_too_large)
    put_checked D calls md5 data_dir tmp uuid now bucket key r size

  unfoldable pub delete_object_handler :
      Bytes → Bytes → Time → User → Bytes → Bytes → HttpRequest → Method (B.Db × Files) Response
  unfolding query_get
  delete_object_handler data_dir uuid now user bucket key r = do
    granted ← reading (λ s. allowed user (codes "s3:DeleteObject") bucket key s.0)
    let version_id = query_get (codes "versionId") r.query
    deleted ← changing (delete_object B CB C data_dir uuid now bucket key version_id)
    return (record {
      status = 204;
      headers = header_if (not (is_empty version_id)) (codes "x-amz-version-id") version_id;
      content = [];
    })

  -- The result that CopyObject prints as XML is given as it is.
  unfoldable pub copy_object_handler :
      Dates
      → (Bytes → Option Bytes)
      → Calls
      → Calls
      → (Bytes → Bytes)
      → Bytes
      → Bytes
      → Time
      → Option Error
      → User
      → Bytes
      → Bytes
      → HttpRequest
      → Method (B.Db × Files) PutResult
  copy_object_handler D unescape calls calls' md5 data_dir tmp now failure user bucket key r = do
    granted ← reading (λ s. allowed user (codes "s3:PutObject") bucket key s.0)
    src ← reading (λ s. copy_source unescape (r.header (codes "x-amz-copy-source")))
    meta ← reading (λ s. copy_meta D r)
    copy_object B CB C calls calls' md5 data_dir tmp now src.0 src.1 bucket key failure meta

  -- `parsed` is the list of the request's body, which is to be XML, and whether it asks for quiet; the
  -- result that DeleteObjects prints as XML is given as it is.
  unfoldable pub delete_objects_handler :
      Bytes
      → (ℕ → Bytes × Time)
      → User
      → Bytes
      → Option (List ObjectIdentifier × Bool)
      → Method (B.Db × Files) DeleteResult
  delete_objects_handler data_dir draws user bucket parsed = do
    granted ← reading (λ s. allowed user (codes "s3:DeleteObject") bucket (codes "*") s.0)
    req ← reading (λ s. parsed_or_malformed parsed)
    res ← (λ s. returned (delete_objects B CB C data_dir draws bucket req.0 s))
    return (without_quiet req.1 res)
