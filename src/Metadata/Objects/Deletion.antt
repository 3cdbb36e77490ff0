-- ===== src/Metadata/Objects/Deletion.antt =====
-- DeleteObject without a version ID: the object goes, its versions may, and nothing else does.
use go_s.Prelude.{
  ap, Option, ℕ, Bytes, Result, ok, err, object_not_found, none, some, ◌≡◌, ◌∙◌, refl, ◌⊎◌, ◌&&◌,
  ◌||◌, if◌then◌else◌, bytes_eq, bytes_eq_refl, arith, Option-cases, inl, inr, Bool, true, false,
  List, [], ◌∷◌, bytes_eq_iff, any, has_prefix, is_empty,
}
use go_s.Bolt.{Bolt, Laws, Codec, Entries, scan, opened}
use go_s.Bolt.Scan.{any-prefixed, scan-cons, scan-nil}
use go_s.Bolt.Handles.{value, Exists, value-delete, delete-Exists}
use go_s.Storage.{ObjectMeta}
use go_s.Metadata.Names.{
  objects_of, versions_of, version_key, version_prefix, objects_of-objects_of,
  versions_of-versions_of, objects_of-versions_of, versions_of-objects_of, NoNul,
  has_prefix-version_key,
}
use go_s.Metadata.Objects.{delete_keys, doomed, delete_all_versions, delete_object, get_object}
use go_s.Metadata.Objects.RoundTrip.{get_object_lem}

module _ (B : Bolt) (L : Laws B) where
  value-delete_keys :
      (b c j : Bytes) (ks : List Bytes) (db : B.Db)
      → value B (delete_keys B b ks db) c j
        ≡ (if bytes_eq c b && any (bytes_eq j) ks then none else value B db c j)
  unfolding delete_keys
  value-delete_keys b c j [] db = ground arith
  value-delete_keys b c j (k ∷ ks) db =
      ground (arith, value-delete_keys b c j ks (B.delete db b k), value-delete B L db b k c j)

  delete_keys-Exists :
      (b c : Bytes) (ks : List Bytes) (db : B.Db)
      → Exists B db c
      → Exists B (delete_keys B b ks db) c
  unfolding delete_keys
  delete_keys-Exists b c [] db x = x
  delete_keys-Exists b c (k ∷ ks) db x =
      delete_keys-Exists b c ks (B.delete db b k) (delete-Exists B L db b k c x)

  -- Whether the deleting loop comes to a row.
  abbrev goes : Bytes → Bytes → Bytes → B.Db → Bool
  goes bucket key j db =
      any (bytes_eq j) (doomed B bucket key (B.delete db (objects_of bucket) key))

  has_prefix-of-goes :
      (bucket key j : Bytes) (db : B.Db)
      → goes bucket key j db ≡ true
      → has_prefix j (version_prefix key) ≡ true
  unfolding doomed
  has_prefix-of-goes bucket key j db h =
      any-prefixed (version_prefix key) j
        (B.visited (B.delete db (objects_of bucket) key) (versions_of bucket) (version_prefix key))
        h

  value_of_no_bucket : (b j : Bytes) (db : B.Db) → B.bucket db b ≡ none → value B db b j ≡ none
  unfolding value
  value_of_no_bucket b j db h = ground arith

  -- The rows after the deletion.
  value-delete_all :
      (bucket key c j : Bytes) (db : B.Db)
      → value B (delete_all_versions B bucket key db) c j ≡ (
          if bytes_eq c (objects_of bucket) && bytes_eq j key
          then none
          else if bytes_eq c (versions_of bucket) && goes bucket key j db
          then none
          else value B db c j)
  unfolding delete_all_versions
  value-delete_all bucket key c j db =
      let db1 = B.delete db (objects_of bucket) key in
      elim (Option-cases (B.bucket db1 (versions_of bucket))) [
        | inl e ↦ ground (
          arith,
          value-delete B L db (objects_of bucket) key c j,
          value_of_no_bucket (versions_of bucket) j db1 e,
          bytes_eq_iff c (versions_of bucket),
        )
        | inr (es, e) ↦ ground (
          arith,
          value-delete_keys (versions_of bucket) c j (doomed B bucket key db1) db1,
          value-delete B L db (objects_of bucket) key c j,
        )
      ]

  -- The loop deletes the row that it starts at.
  goes-first :
      (bucket key k v : Bytes) (es rest : Entries) (db : B.Db)
      → B.bucket db (versions_of bucket) ≡ some es
      → scan (version_prefix key) es ≡ (k, v) ∷ rest
      → goes bucket key k db ≡ true
  unfolding doomed
  goes-first bucket key k v es rest db e h =
      let db1 = B.delete db (objects_of bucket) key in
      let (has, (more, s)) = scan-cons (version_prefix key) k v es rest h in
      let e1 : B.bucket db1 (versions_of bucket) ≡ some es =
        L.bucket_delete db (objects_of bucket) key (versions_of bucket)
        ∙ rw (versions_of-objects_of bucket bucket) e in
      let (ks, found) =
        L.visited_first db1 (versions_of bucket) (version_prefix key) k v es more e1 s in
      rw found (rw has (rw (bytes_eq_refl k)))

  pub delete_all-Exists :
      (bucket key c : Bytes) (db : B.Db)
      → Exists B db c
      → Exists B (delete_all_versions B bucket key db) c
  unfolding delete_all_versions
  delete_all-Exists bucket key c db x =
      let db1 = B.delete db (objects_of bucket) key in
      let x1 = delete-Exists B L db (objects_of bucket) key c x in
      elim (Option-cases (B.bucket db1 (versions_of bucket))) [
        | inl e ↦ rw (e, delete_all_versions) x1
        | inr (es, e) ↦
            rw (e, delete_all_versions)
              (delete_keys-Exists (versions_of bucket) c (doomed B bucket key db1) db1 x1)
      ]

  pub delete_object-eq-ok :
      (C : Codec ObjectMeta) (db db' : B.Db) (bucket key : Bytes)
      → delete_object B C bucket key [] db ≡ ok db'
      → db' ≡ delete_all_versions B bucket key db
  unfolding delete_object
  delete_object-eq-ok C db db' bucket key h = ground arith

-- Whether a key is that of the first of the rows.
abbrev pub is_first : Bytes → Entries → Bool
is_first k [] = false
is_first k ((j, v) ∷ es) = bytes_eq k j

-- What a reader finds after a deletion that may concern what it reads, and that surely takes it away.
abbrev pub IsLeft : Bool → Bool → Result ObjectMeta → Result ObjectMeta → Type 0
IsLeft false sure before after = after ≡ before
IsLeft true true before after = after ≡ err object_not_found
IsLeft true false before after = (after ≡ err object_not_found) ⊎ (after ≡ before)

-- A deletion of which is known whether it takes away what is read.
IsLeft-if :
    (own sure gone : Bool) (before after : Result ObjectMeta)
    → after ≡ (if own && gone then err object_not_found else before)
    → (own ≡ true → sure ≡ true → gone ≡ true)
    → IsLeft own sure before after
IsLeft-if false sure gone before after h f = h
IsLeft-if true true gone before after h f = rw (f refl refl) at h
IsLeft-if true false true before after h f = inl h
IsLeft-if true false false before after h f = inr h

module _ (B : Bolt) (L : Laws B) (C : Codec ObjectMeta) where
  -- The rows of the versions of a key, of which there are none without a versions table.
  abbrev pub version_rows : Bytes → Bytes → B.Db → Entries
  version_rows bucket key db = scan (version_prefix key) (opened (B.bucket db (versions_of bucket)))

  get_object-delete_all :
      (db : B.Db) (bucket key bucket' key' : Bytes) (v : ℕ) (vid : Bytes)
      → NoNul key
      → NoNul key'
      → Exists B db (objects_of bucket')
      → get_object B C bucket' key' (v ∷ vid) (delete_all_versions B bucket key db) ≡ (
          if (bytes_eq bucket' bucket && bytes_eq key' key)
            && goes B L bucket key (version_key key' (v ∷ vid)) db
          then err object_not_found
          else get_object B C bucket' key' (v ∷ vid) db)
  get_object-delete_all db bucket key bucket' key' v vid n n' x = ground (
    arith,
    get_object_lem B L C (delete_all_versions B bucket key db) bucket' key' (v ∷ vid)
        (delete_all-Exists B L bucket key (objects_of bucket') db x),
    get_object_lem B L C db bucket' key' (v ∷ vid) x,
    value-delete_all B L bucket key (versions_of bucket') (version_key key' (v ∷ vid)) db,
    has_prefix-of-goes B L bucket key (version_key key' (v ∷ vid)) db,
    versions_of-versions_of bucket' bucket,
    versions_of-objects_of bucket' bucket,
    has_prefix-version_key key' key (v ∷ vid) n' n,
  )

  -- After a DeleteObject without a version ID that returns no error, GetObject of that key without
  -- a version ID finds nothing. GetObject of that key with a version ID finds nothing if the row of
  -- this version comes first in the order of the database, and otherwise either finds nothing or
  -- returns what it did before, since the loop deletes the rows under its cursor. GetObject of
  -- every other key, in any bucket that is there, returns what it did before. Keys hold no
  -- byte 0.
  pub get_object-delete_object :
      (db db' : B.Db) (bucket key bucket' key' vid : Bytes)
      → NoNul key
      → NoNul key'
      → Exists B db (objects_of bucket')
      → delete_object B C bucket key [] db ≡ ok db'
      → IsLeft
          (bytes_eq bucket' bucket && bytes_eq key' key)
          (is_empty vid || is_first (version_key key' vid) (version_rows bucket key db))
          (get_object B C bucket' key' vid db)
          (get_object B C bucket' key' vid db')
  get_object-delete_object db db' bucket key bucket' key' [] n n' x h =
      rw (delete_object-eq-ok B L C db db' bucket key h) (
        IsLeft-if (bytes_eq bucket' bucket && bytes_eq key' key) true true
          (get_object B C bucket' key' [] db)
          (get_object B C bucket' key' [] (delete_all_versions B bucket key db))
          (ground (
            arith,
            get_object_lem B L C (delete_all_versions B bucket key db) bucket' key' []
                (delete_all-Exists B L bucket key (objects_of bucket') db x),
            get_object_lem B L C db bucket' key' [] x,
            value-delete_all B L bucket key (objects_of bucket') key' db,
            objects_of-objects_of bucket' bucket,
            objects_of-versions_of bucket' bucket,
          ))
          (λ a b. refl))
  get_object-delete_object db db' bucket key bucket' key' (v ∷ vid) n n' x h =
      rw (delete_object-eq-ok B L C db db' bucket key h) (
        IsLeft-if (bytes_eq bucket' bucket && bytes_eq key' key)
          (is_first (version_key key' (v ∷ vid)) (version_rows bucket key db))
          (goes B L bucket key (version_key key' (v ∷ vid)) db)
          (get_object B C bucket' key' (v ∷ vid) db)
          (get_object B C bucket' key' (v ∷ vid) (delete_all_versions B bucket key db))
          (get_object-delete_all db bucket key bucket' key' v vid n n' x)
          (λ a b. sure (B.bucket db (versions_of bucket)) refl b))
    where
      j : Bytes
      j = version_key key' (v ∷ vid)

      of_rows :
          (es rows : Entries)
          → B.bucket db (versions_of bucket) ≡ some es
          → scan (version_prefix key) es ≡ rows
          → is_first j rows ≡ true
          → goes B L bucket key j db ≡ true
      of_rows es [] e s f = cc
      of_rows es ((k, w) ∷ rows) e s f =
          rw ((bytes_eq_iff j k).0 f) (goes-first B L bucket key k w es rows db e s)

      sure :
          (o : Option Entries)
          → B.bucket db (versions_of bucket) ≡ o
          → is_first j (scan (version_prefix key) (opened o)) ≡ true
          → goes B L bucket key j db ≡ true
      sure none e f = cc (f, ap (is_first j) (scan-nil (version_prefix key)))
      sure (some es) e f = of_rows es (scan (version_prefix key) es) e refl f
