-- ===== src/Local/Contents/Failures.antt =====
-- What a PutObject of the backend that returns an error leaves behind.
use mathlib.Core.Path.{subst}
use go_s.Prelude.{
  ℕ, Bytes, Result, ok, err, Error, system, internal_error, none, ◌≡◌, refl, ap, ◌∙◌, ◌⊎◌, inl, inr,
  false, bytes_eq, if◌then◌else◌, arith, hex_encode, length,
}
use go_s.Bolt.{Bolt, Codec}
use go_s.Storage.{Time, BucketInfo, ObjectMeta}
use go_s.Metadata.Objects
use go_s.Local.Paths.{safe_path}
use go_s.Local.Objects.{Files, remove_file, bucket_exists_in}
use go_s.Local.Disk.{
  finally-eq, reading-eq-err, or_clean-eq-err, unless, unless_as, Calls, Body, write_file,
  rename_file,
}
use go_s.Local.Contents.{
  version_suffix, exists_or, stored, with_db, with_files, place, arrive, receive, put_object,
}

with_db-eq-err :
    {D : Type 0} (f : D → Result D) (db : D) (files : Files) (e : Error)
    → with_db f (db, files) ≡ err e
    → f db ≡ err e
with_db-eq-err {D} f db files e h = by (f db) refl h
  where
    by :
        (r : Result D)
        → f db ≡ r
        → ◌≡◌ {A = Result (D × Files)} (elim r [ err e ↦ err e | ok db' ↦ ok (db', files) ]) (err e)
        → f db ≡ err e
    by (err x) p q = p ∙ cc
    by (ok d) p q = cc

module _ (B : Bolt) (CB : Codec BucketInfo) (C : Codec ObjectMeta) (calls : Calls)
    (md5 : Bytes → Bytes) (data_dir tmp : Bytes) (now : Time) (bucket key : Bytes) (body : Body)
    (meta : ObjectMeta) (db : B.Db) (files : Files) where
  -- The metadata store has refused, and the file that had been moved to its place is removed.
  pub record IsRefused (e : Error) (files' : Files) : Type 0 where
    pub path : Bytes
    pub is_safe : safe_path data_dir bucket key (version_suffix meta.version_id) ≡ ok path
    pub refused :
        Objects.put_object B C bucket key
          (stored (hex_encode (md5 body.content)) (length body.content) now meta)
          db
        ≡ err e
    pub lost :
        (name : Bytes)
        → bytes_eq name tmp ≡ false
        → files' name ≡ (if bytes_eq name path then none else files name)

  abbrev pub IsUntouched : Files → Type 0
  IsUntouched files' = (name : Bytes) → bytes_eq name tmp ≡ false → files' name ≡ files name

  abbrev pub IsLeft : Error → B.Db × Files → Type 0
  IsLeft e s = (s.0 ≡ db) × (IsUntouched s.1 ⊎ IsRefused e s.1)

  abbrev arrived : B.Db × Files
  arrived = (db, write_file tmp body.content files)

  untouched :
      (s : B.Db × Files) (e : Error) → s ≡ arrived → IsLeft e (with_files (remove_file tmp) s)
  untouched s e p = (
    ap (λ (s : B.Db × Files). s.0) p,
    inl (λ name h. ap (λ (s : B.Db × Files). remove_file tmp s.1 name) p ∙ simp h),
  )

  abbrev new : ObjectMeta
  new = stored (hex_encode (md5 body.content)) (length body.content) now meta

  abbrev moved : Bytes → Files
  moved path = rename_file tmp path arrived.1

  removed :
      (s : B.Db × Files) (e : Error) (path : Bytes)
      → safe_path data_dir bucket key (version_suffix meta.version_id) ≡ ok path
      → Objects.put_object B C bucket key new db ≡ err e
      → s ≡ (db, remove_file path (moved path))
      → IsLeft e (with_files (remove_file tmp) s)
  removed s e path safe refused p = (
    ap (λ (s : B.Db × Files). s.0) p,
    inr (record {
      path = path;
      is_safe = safe;
      refused = refused;
      lost = λ name h. ap (λ (s : B.Db × Files). remove_file tmp s.1 name) p ∙ ground (arith, h);
    }),
  )

  place-IsLeft :
      (s : B.Db × Files) (e : Error)
      → place B C calls md5 data_dir tmp now bucket key body meta arrived ≡ (err e, s)
      → IsLeft e (with_files (remove_file tmp) s)
  unfolding place
  place-IsLeft s e h =
      elim (reading-eq-err (safe_path data_dir bucket key (version_suffix meta.version_id)) arrived
        _ h) [
          | inl p ↦ untouched s e p
          | inr (path, safe, h1) ↦ elim (reading-eq-err (unless calls.mkdir) arrived _ h1) [
            | inl p ↦ untouched s e p
            | inr (a, _, h2) ↦ elim (reading-eq-err (unless_as system calls.rename) arrived _ h2) [
              | inl p ↦ untouched s e p
              | inr (b, _, h3) ↦
                  let (r, left) =
                    or_clean-eq-err
                      (with_db (Objects.put_object B C bucket key new) (db, moved path))
                      (db, moved path) (with_files (remove_file path))
                      (record { etag = new.etag; size = new.size; version_id = meta.version_id })
                      h3 in
                  removed s e path safe
                    (with_db-eq-err (Objects.put_object B C bucket key new) db (moved path) e r)
                    left
            ]
          ]
        ]

  arrive-IsLeft :
      (s : B.Db × Files) (e : Error)
      → arrive B C calls md5 data_dir tmp now bucket key body meta (db, files) ≡ (err e, s)
      → IsLeft e (with_files (remove_file tmp) s)
  unfolding arrive
  arrive-IsLeft s e h =
      elim (reading-eq-err (unless body.failure) arrived
        (λ _. place B C calls md5 data_dir tmp now bucket key body meta) h) [
          | inl p ↦ untouched s e p
          | inr (a, _, h1) ↦ place-IsLeft s e h1
        ]

  unchanged : (s : B.Db × Files) (e : Error) → s ≡ (db, files) → IsLeft e s
  unchanged s e p =
      (ap (λ (s : B.Db × Files). s.0) p, inl (λ name h. ap (λ (s : B.Db × Files). s.1 name) p))

  -- A PutObject of the backend that returns an error leaves the database as it was. Either every file
  -- but the temporary one is as it was, or the error is that of the metadata store, and of the other
  -- files exactly the one at the path of the version is gone, also where an object that the store
  -- still knows had its content there.
  pub put_object-IsLeft :
      (size : ℕ) (e : Error) (s : B.Db × Files)
      → put_object B CB C calls md5 data_dir tmp now bucket key body size meta (db, files)
        ≡ (err e, s)
      → IsLeft e s
  unfolding put_object receive
  put_object-IsLeft size e s h =
      elim (reading-eq-err (exists_or (bucket_exists_in B CB C bucket db)) (db, files) _ h) [
        | inl p ↦ unchanged s e p
        | inr (a, _, h1) ↦ elim (reading-eq-err (unless (calls.space size)) (db, files) _ h1) [
          | inl p ↦ unchanged s e p
          | inr (b, _, h2) ↦
              elim (reading-eq-err (unless_as internal_error calls.create) (db, files) _ h2) [
                | inl p ↦ unchanged s e p
                | inr (c, _, h3) ↦
                    let (mid, h4, p) =
                      finally-eq (with_files (remove_file tmp))
                        (arrive B C calls md5 data_dir tmp now bucket key body meta) (db, files)
                        h3 in
                    subst (IsLeft e) p (arrive-IsLeft mid e h4)
              ]
        ]
      ]
