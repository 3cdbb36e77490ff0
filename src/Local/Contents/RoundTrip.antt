-- ===== src/Local/Contents/RoundTrip.antt =====
-- PutObject of the backend, and what GetObject gives back.
use mathlib.Core.Path.{subst}
use go_s.Prelude.{
  ℕ, Bytes, Result, ok, err, none, some, ◌≡◌, refl, sym, ap, ◌∙◌, true, false, bytes_eq,
  bytes_eq_refl, bytes_eq_iff, ok-injective, system, internal_error, if◌then◌else◌, arith, is_empty,
  length, pos, int64, pred, hex_encode,
}
use go_s.Bolt.{Bolt, Laws, Codec}
use go_s.Bolt.Handles.{Exists}
use go_s.Storage.{Time, BucketInfo, ObjectMeta}
use go_s.Metadata.Names.{objects_of, NoNul}
use go_s.Metadata.Objects
use go_s.Metadata.Objects.RoundTrip
use go_s.Metadata.Objects.RoundTrip.{becomes_latest}
use go_s.Local.Paths.{safe_path}
use go_s.Local.Objects.{Files, remove_file, bucket_exists_in}
use go_s.Local.Disk.{
  reading-eq-ok, or_clean-eq-ok, finally-eq, unless, unless_as, Calls, Body, write_file,
  rename_file,
}
use go_s.Local.Contents.{
  arrive, PutResult, GetOptions, version_suffix, exists_or, open_path, serve, stored, place,
  with_db, with_files, receive, put_object, get_object,
}

pub with_db-eq-ok :
    {D : Type 0} (f : D → Result D) (db : D) (files : Files) (mid : D × Files)
    → with_db f (db, files) ≡ ok mid
    → (d : D) × (f db ≡ ok d) × (mid ≡ (d, files))
with_db-eq-ok {D} f db files mid h = by (f db) refl h
  where
    by :
        (r : Result D)
        → f db ≡ r
        → (elim r [ err e ↦ err e | ok db' ↦ ok (db', files) ]) ≡ ok mid
        → (d : D) × (f db ≡ ok d) × (mid ≡ (d, files))
    by (err e) p q = cc
    by (ok d) p q = (d, p, sym (ok-injective q))

-- The files after a PutObject that put `content` at `path` by way of `tmp`.
abbrev pub placed : Bytes → Bytes → Bytes → Files → Files
placed tmp path content files =
    remove_file tmp (rename_file tmp path (write_file tmp content files))

-- What stands at a path afterwards.
pub placed_lem :
    (tmp path content name : Bytes) (files : Files)
    → bytes_eq path tmp ≡ false
    → placed tmp path content files name ≡ (
        if bytes_eq name path then some content else if bytes_eq name tmp then none else files name)
placed_lem tmp path content name files apart =
    ground (arith, bytes_eq_refl tmp, bytes_eq_iff name path, bytes_eq_iff name tmp)

pub opened :
    (calls : Calls) (path : Bytes) (files : Files) (file : Bytes)
    → files path ≡ some file
    → calls.open_file path ≡ none
    → open_path calls path files ≡ ok file
unfolding open_path
opened calls path files file there opens = rw (there, open_path) (rw (opens, open_path) refl)

-- The steps of GetObject where the object is there.
pub get_object_lem :
    (B : Bolt) (C : Codec ObjectMeta) (calls : Calls) (data_dir bucket key : Bytes)
    (opts : GetOptions) (db : B.Db) (files : Files) (m : ObjectMeta) (path file : Bytes)
    → Objects.get_object B C bucket key opts.version_id db ≡ ok m
    → safe_path data_dir bucket key (version_suffix m.version_id) ≡ ok path
    → open_path calls path files ≡ ok file
    → get_object B C calls data_dir bucket key opts (db, files) ≡ serve calls opts m file
unfolding get_object
get_object_lem B C calls data_dir bucket key opts db files m path file f s o =
    rw (f, get_object) (rw (s, get_object) (rw (o, get_object) refl))

module _ (B : Bolt) (CB : Codec BucketInfo) (C : Codec ObjectMeta) (calls : Calls)
    (md5 : Bytes → Bytes) (data_dir tmp : Bytes) (now : Time) (bucket key : Bytes) (body : Body)
    (meta : ObjectMeta) where
  abbrev pub new_meta : ObjectMeta
  new_meta = stored (hex_encode (md5 body.content)) (length body.content) now meta

  -- What a PutObject that returns no error has done.
  pub record IsPlaced (db db' : B.Db) (files files' : Files) (res : PutResult) : Type 0 where
    pub path : Bytes
    pub is_safe : safe_path data_dir bucket key (version_suffix meta.version_id) ≡ ok path
    pub moved : files' ≡ placed tmp path body.content files
    pub written : Objects.put_object B C bucket key new_meta db ≡ ok db'
    pub answer :
        res ≡ (record { etag = new_meta.etag; size = new_meta.size; version_id = meta.version_id })

  place-IsPlaced :
      (db db' : B.Db) (files files' : Files) (res : PutResult)
      → place B C calls md5 data_dir tmp now bucket key body meta
          (db, write_file tmp body.content files)
        ≡ (ok res, (db', files'))
      → IsPlaced db db' files (remove_file tmp files') res
  unfolding place
  place-IsPlaced db db' files files' res h =
      let before : B.Db × Files = (db, write_file tmp body.content files) in
      let (path, safe, h1) =
        reading-eq-ok (safe_path data_dir bucket key (version_suffix meta.version_id)) before _ h in
      let (a, _, h2) = reading-eq-ok (unless calls.mkdir) before _ h1 in
      let (b, _, h3) = reading-eq-ok (unless_as system calls.rename) before _ h2 in
      let (mid, put, h4) =
        or_clean-eq-ok
          (with_db (Objects.put_object B C bucket key new_meta) (db, rename_file tmp path before.1))
          (db, rename_file tmp path before.1) (with_files (remove_file path)) _ h3 in
      let (d, written, e) =
        with_db-eq-ok (Objects.put_object B C bucket key new_meta) db
          (rename_file tmp path before.1) mid put in
      let same : mid ≡ (db', files') = ap (λ (r : Result PutResult × (B.Db × Files)). r.1) h4 in
      let ends : (d, rename_file tmp path before.1) ≡ (db', files') = sym e ∙ same in
      record {
        path = path;
        is_safe = safe;
        moved = ap (λ (s : B.Db × Files). remove_file tmp s.1) (sym ends);
        written = written ∙ ap (λ (s : B.Db × Files). ok s.0) ends;
        answer = sym (ok-injective (ap (λ (r : Result PutResult × (B.Db × Files)). r.0) h4));
      }

  -- A PutObject that returns no error.
  pub put_object-IsPlaced :
      (db db' : B.Db) (files files' : Files) (size : ℕ) (res : PutResult)
      → put_object B CB C calls md5 data_dir tmp now bucket key body size meta (db, files)
        ≡ (ok res, (db', files'))
      → IsPlaced db db' files files' res
  unfolding put_object receive arrive
  put_object-IsPlaced db db' files files' size res h =
      let (a, _, h1) =
        reading-eq-ok (exists_or (bucket_exists_in B CB C bucket db)) (db, files) _ h in
      let (b, _, h2) = reading-eq-ok (unless (calls.space size)) (db, files) _ h1 in
      let (c, _, h3) = reading-eq-ok (unless_as internal_error calls.create) (db, files) _ h2 in
      let (mid, h4, e) =
        finally-eq (with_files (remove_file tmp))
          (arrive B C calls md5 data_dir tmp now bucket key body meta) (db, files) h3 in
      let (d, _, h5) =
        reading-eq-ok (unless body.failure) (db, write_file tmp body.content files)
          (λ _. place B C calls md5 data_dir tmp now bucket key body meta) h4 in
      subst (λ (s : B.Db × Files). IsPlaced db s.0 files s.1 res) e
        (place-IsPlaced db mid.0 files mid.1 res h5)

  -- After a PutObject of the backend that returns no error, a GetObject without a range, of the key
  -- in the bucket and of the version that was put, or of no version where the metadata is the latest
  -- or has no version ID, gives back the content that the body had, and the metadata that was put with
  -- the size of the content and its MD5 sum in hexadecimal as the ETag. Of the files, only the one at
  -- the path of the version and the temporary file can have changed. The key holds no byte 0, the
  -- metadata that is stored is stable under JSON, the temporary file is not at the path of the
  -- version, the bucket has its table, and the file opens.
  pub get_object-put_object_content :
      (L : Laws B) (db db' : B.Db) (files files' : Files) (size : ℕ) (res : PutResult)
      (vid path name : Bytes)
      → C.Stable new_meta
      → NoNul key
      → Exists B db (objects_of bucket)
      → (if is_empty vid then becomes_latest meta else bytes_eq vid meta.version_id) ≡ true
      → safe_path data_dir bucket key (version_suffix meta.version_id) ≡ ok path
      → bytes_eq path tmp ≡ false
      → calls.open_file path ≡ none
      → put_object B CB C calls md5 data_dir tmp now bucket key body size meta (db, files)
        ≡ (ok res, (db', files'))
      → (get_object B C calls data_dir bucket key
            (record { range_start = none; range_end = none; version_id = vid })
            (db', files')
          ≡ ok (record {
            meta = new_meta;
            content = body.content;
            range_start = pos 0;
            range_end = pred (int64 (length body.content));
          }))
        × (files' name ≡ (
            if bytes_eq name path
            then some body.content
            else if bytes_eq name tmp
            then none
            else files name))
  unfolding serve
  get_object-put_object_content L db db' files files' size res vid path name st n x asked safe apart
        opens h =
      let p = put_object-IsPlaced db db' files files' size res h in
      let same : p.path ≡ path = ok-injective (sym p.is_safe ∙ safe) in
      let found : Objects.get_object B C bucket key vid db' ≡ ok new_meta =
        RoundTrip.get_object-put_object B L C db db' bucket key bucket key vid new_meta st n n x
          p.written
        ∙ simp (bytes_eq_refl, asked) in
      let at : (q : Bytes)
          → files' q ≡ (
              if bytes_eq q path
              then some body.content
              else if bytes_eq q tmp
              then none
              else files q) =
        λ q.
          ap (λ (f : Files). f q) (p.moved ∙ ap (λ r. placed tmp r body.content files) same)
          ∙ placed_lem tmp path body.content q files apart in
      let there : files' path ≡ some body.content = at path ∙ simp bytes_eq_refl in
      (
        get_object_lem B C calls data_dir bucket key
            (record { range_start = none; range_end = none; version_id = vid }) db' files' new_meta
            path body.content found safe (opened calls path files' body.content there opens),
        at name,
      )
