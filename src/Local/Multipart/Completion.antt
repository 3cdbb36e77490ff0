-- ===== src/Local/Multipart/Completion.antt =====
-- CompleteMultipartUpload: the object is the parts one after the other.
use mathlib.Core.Path.{subst}
use go_s.Prelude.{
  ℕ, Bytes, codes, has_prefix, ◌||◌, Result, ok, err, Error, system, internal_error, some, List, [],
  ◌++◌, ◌≡◌, refl, sym, ap, ◌∙◌, false, bytes_eq, bytes_eq_refl, arith, length, ok-injective,
}
use go_s.Bolt.{Bolt, Codec}
use go_s.Storage.{Time, BucketInfo, ObjectMeta}
use go_s.Metadata.Buckets.{get_bucket}
use go_s.Metadata.Objects
use go_s.Metadata.Objects.{or_same}
use go_s.Metadata.Multipart
use go_s.Local.Paths.{safe_path}
use go_s.Local.Objects.{Files, remove_file}
use go_s.Local.Disk.{
  continue-eq-ok, reading-eq-ok, or_clean-eq-ok, finally-eq, unless, unless_as, Calls, write_file,
  rename_file,
}
use go_s.Local.Contents.{version_suffix, with_db, with_files, with_error}
use go_s.Local.Contents.RoundTrip.{with_db-eq-ok}
use go_s.Local.Multipart.{
  CompletePart, CompleteResult, combine, combined_etag, new_version, finished, dropped, drop_upload,
  finish, assemble, upload_error, complete_multipart_upload, safe_multipart_path,
}
use go_s.Local.Multipart.Parts.{
  joined, sums_of, AreParts, IsApart, AreParts-of-others, combine-IsCombined,
}

with_error-eq-ok :
    {A : Type 0} (f : Error → Error) (r : Result A) (a : A) → with_error f r ≡ ok a → r ≡ ok a
with_error-eq-ok f (ok b) a h = h
with_error-eq-ok f (err e) a h = cc

-- A path that the clean-up after a completion does not reach.
abbrev pub IsOutside : Bytes → Result Bytes → Type 0
IsOutside path (err e) = Unit {0}
IsOutside path (ok dir) = (bytes_eq path dir || has_prefix path (dir ++ codes "/")) ≡ false

dropped_outside :
    (temp_dir path : Bytes) (r : Result Bytes) (files : Files)
    → IsOutside path r
    → dropped temp_dir r files path ≡ files path
dropped_outside temp_dir path (err e) files h = refl
dropped_outside temp_dir path (ok dir) files h = simp h

module _ (B : Bolt) (CB : Codec BucketInfo) (C : Codec ObjectMeta) (calls : Calls)
    (md5 : Bytes → Bytes) (data_dir temp_dir tmp uuid : Bytes) (now : Time)
    (bucket key upload_id : Bytes) where
  abbrev new_meta : ObjectMeta → B.Db → Bytes → ℕ → ObjectMeta
  new_meta meta db etag size =
      finished etag size now (new_version uuid meta.version_id (get_bucket B CB bucket db)) meta

  -- What the end of a completion that returns no error has done, from the file `tmp` on.
  record IsFinished (meta : ObjectMeta) (etag : Bytes) (size : ℕ) (s s' : B.Db × Files)
      (res : CompleteResult) : Type 0 where
    path : Bytes
    is_safe :
        safe_path data_dir bucket key (version_suffix (new_meta meta s.0 etag size).version_id)
        ≡ ok path
    written_db : B.Db
    written : Objects.put_object B C bucket key (new_meta meta s.0 etag size) s.0 ≡ ok written_db
    left_db :
        s'.0
        ≡ or_same B written_db (Multipart.delete_multipart_upload B bucket key upload_id written_db)
    left_files :
        s'.1 ≡ dropped temp_dir (safe_multipart_path temp_dir upload_id) (rename_file tmp path s.1)
    answer : res ≡ (record { etag = etag; version_id = (new_meta meta s.0 etag size).version_id })

  finish-IsFinished :
      (meta : ObjectMeta) (etag : Bytes) (size : ℕ) (s s' : B.Db × Files) (res : CompleteResult)
      → finish B CB C calls data_dir temp_dir tmp uuid now bucket key upload_id meta etag size s
        ≡ (ok res, s')
      → IsFinished meta etag size s s' res
  unfolding finish drop_upload
  finish-IsFinished meta etag size s s' res h =
      let new = new_meta meta s.0 etag size in
      let (base, _, h1) = reading-eq-ok (safe_path data_dir bucket key []) s _ h in
      let (a, _, h2) = reading-eq-ok (unless calls.mkdir) s _ h1 in
      let (path, safe, h3) =
        reading-eq-ok (safe_path data_dir bucket key (version_suffix new.version_id)) s _ h2 in
      let (b, _, h4) = reading-eq-ok (unless_as system calls.rename) s _ h3 in
      let moved = rename_file tmp path s.1 in
      let (mid, put, h5) =
        or_clean-eq-ok (with_db (Objects.put_object B C bucket key new) (s.0, moved)) (s.0, moved)
          (with_files (remove_file path)) _ h4 in
      let (d, w, e) = with_db-eq-ok (Objects.put_object B C bucket key new) s.0 moved mid put in
      let last : drop_upload B temp_dir bucket key upload_id (d, moved) ≡ s' =
        ap (drop_upload B temp_dir bucket key upload_id) (sym e)
        ∙ ap (λ (r : Result CompleteResult × (B.Db × Files)). r.1) h5 in
      record {
        path = path;
        is_safe = safe;
        written_db = d;
        written = w;
        left_db = ap (λ (s : B.Db × Files). s.0) (sym last);
        left_files = ap (λ (s : B.Db × Files). s.1) (sym last);
        answer = sym (ok-injective (ap (λ (r : Result CompleteResult × (B.Db × Files)). r.0) h5));
      }

  -- The object that a CompleteMultipartUpload has put together.
  pub record IsCompleted (parts : List CompletePart) (db db' : B.Db) (files files' : Files)
      (res : CompleteResult) : Type 0 where
    pub meta : ObjectMeta
    pub contents : List Bytes
    pub path : Bytes
    pub written_db : B.Db
    pub found : Multipart.get_multipart_upload B C bucket key upload_id db ≡ ok meta
    pub are_parts : AreParts temp_dir upload_id parts contents files
    pub is_safe : safe_path data_dir bucket key (version_suffix res.version_id) ≡ ok path
    pub is_version : res.version_id ≡ new_version uuid meta.version_id (get_bucket B CB bucket db)
    pub is_etag : res.etag ≡ combined_etag md5 (sums_of parts) (length parts)
    pub written :
        Objects.put_object B C bucket key
          (finished res.etag (length (joined contents)) now res.version_id meta)
          db
        ≡ ok written_db
    pub left_db :
        db'
        ≡ or_same B written_db (Multipart.delete_multipart_upload B bucket key upload_id written_db)
    pub is_content :
        bytes_eq path tmp ≡ false
        → IsOutside path (safe_multipart_path temp_dir upload_id)
        → files' path ≡ some (joined contents)

  assemble-IsCompleted :
      (parts : List CompletePart) (meta : ObjectMeta) (db : B.Db) (files : Files) (s : B.Db × Files)
      (res : CompleteResult)
      → IsApart temp_dir upload_id tmp parts
      → Multipart.get_multipart_upload B C bucket key upload_id db ≡ ok meta
      → assemble B CB C calls md5 data_dir temp_dir tmp uuid now bucket key upload_id parts meta
          (db, files)
        ≡ (ok res, s)
      → IsCompleted parts db s.0 files (remove_file tmp s.1) res
  unfolding assemble
  assemble-IsCompleted parts meta db files s res apart found h =
      let n = length parts in
      let (c, mid, h1, h2) =
        continue-eq-ok
          (combine calls temp_dir tmp upload_id parts (record { size = 0; sums = [] })
            (db, write_file tmp [] files))
          (λ c.
            finish B CB C calls data_dir temp_dir tmp uuid now bucket key upload_id meta
              (combined_etag md5 c.sums n) c.size)
          h in
      let r =
        combine-IsCombined calls temp_dir tmp upload_id parts [] (record { size = 0; sums = [] }) c
          db (write_file tmp [] files) mid apart (simp (bytes_eq_refl tmp)) h1 in
      let f =
        finish-IsFinished meta (combined_etag md5 (sums_of parts) n) (length (joined r.contents))
          (db, mid.1) s res
          (subst
            (λ (d : B.Db).
              finish B CB C calls data_dir temp_dir tmp uuid now bucket key upload_id meta
                (combined_etag md5 (sums_of parts) n) (length (joined r.contents)) (d, mid.1)
              ≡ (ok res, s))
            r.same_db
            (subst
              (λ (size : ℕ).
                finish B CB C calls data_dir temp_dir tmp uuid now bucket key upload_id meta
                  (combined_etag md5 (sums_of parts) n) size mid
                ≡ (ok res, s))
              (r.sized ∙ omega arith)
              (subst
                (λ (sums : Bytes).
                  finish B CB C calls data_dir temp_dir tmp uuid now bucket key upload_id meta
                    (combined_etag md5 sums n) c.size mid
                  ≡ (ok res, s))
                r.summed h2))) in
      subst (λ (a : CompleteResult). IsCompleted parts db s.0 files (remove_file tmp s.1) a)
        (sym f.answer)
        (record {
          meta = meta;
          contents = r.contents;
          path = f.path;
          written_db = f.written_db;
          found = found;
          are_parts =
              AreParts-of-others temp_dir upload_id tmp parts r.contents files
                (write_file tmp [] files) apart (λ name a. simp a) r.parts;
          is_safe = f.is_safe;
          is_version = refl;
          is_etag = refl;
          written = f.written;
          left_db = f.left_db;
          is_content = λ a o.
              let cleaned : remove_file tmp s.1 f.path ≡ s.1 f.path = simp a in
              let moved : rename_file tmp f.path mid.1 f.path ≡ mid.1 tmp =
                simp (bytes_eq_refl f.path) in
              cleaned
              ∙ ap (λ (g : Files). g f.path) f.left_files
              ∙ dropped_outside temp_dir f.path (safe_multipart_path temp_dir upload_id)
                  (rename_file tmp f.path mid.1) o
              ∙ moved
              ∙ r.collected;
        })

  -- A CompleteMultipartUpload of the backend that returns no error has found the metadata of the
  -- upload and a file of each part that the request lists. It writes the parts' contents, one after
  -- the other in the order of the request, to the path of a new version of the key, and the metadata
  -- of the upload with the sum of the sizes, the MD5 sum of the parts' listed MD5 sums with the number
  -- of parts as ETag, and a version ID that the versioning of the bucket decides; then it deletes the
  -- upload. The temporary file is none of the parts, and is not at the path of the version, which is
  -- not among the files of the upload.
  pub complete_multipart_upload-IsCompleted :
      (parts : List CompletePart) (db db' : B.Db) (files files' : Files) (res : CompleteResult)
      → IsApart temp_dir upload_id tmp parts
      → complete_multipart_upload B CB C calls md5 data_dir temp_dir tmp uuid now bucket key
          upload_id parts
          (db, files)
        ≡ (ok res, (db', files'))
      → IsCompleted parts db db' files files' res
  unfolding complete_multipart_upload
  complete_multipart_upload-IsCompleted parts db db' files files' res apart h =
      let (meta, found, h1) =
        reading-eq-ok
          (with_error upload_error (Multipart.get_multipart_upload B C bucket key upload_id db))
          (db, files) _ h in
      let (a, _, h2) = reading-eq-ok (unless_as internal_error calls.create) (db, files) _ h1 in
      let (mid, h3, e) =
        finally-eq (with_files (remove_file tmp))
          (assemble B CB C calls md5 data_dir temp_dir tmp uuid now bucket key upload_id parts meta)
          (db, files) h2 in
      subst (λ (s : B.Db × Files). IsCompleted parts db s.0 files s.1 res) e
        (assemble-IsCompleted parts meta db files mid res apart
          (with_error-eq-ok upload_error
            (Multipart.get_multipart_upload B C bucket key upload_id db) meta found)
          h3)
