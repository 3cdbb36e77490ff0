-- ===== src/Metadata/Objects.antt =====
-- The object methods of internal/storage/metadata/bbolt.go: PutObject, GetObject and DeleteObject.
pub mod RoundTrip
pub mod Deletion
pub mod Promotion
pub mod NewestLeft
pub mod Promote
pub mod OneVersion
pub mod Replay
use go_s.Prelude.{
  is_empty, Bytes, Result, ok, err, bucket_not_found, object_not_found, Option, none, some, List,
  [], ◌∷◌, ◌>>=◌, Bool, true, ◌||◌, if◌then◌else◌, ltb, has_prefix, take_while,
}
use go_s.Bolt.{Bolt, Codec, Entries, scan, decode, opened}
use go_s.Bolt.Handles.{b_put}
use go_s.Storage.{ObjectMeta}
use go_s.Metadata.Names.{objects_of, versions_of, version_key, version_prefix}
use go_s.Metadata.Rows.{decode_or}

module _ (B : Bolt) (C : Codec ObjectMeta) where
  -- The two writes of PutObject, after the check of the bucket.
  unfoldable pub put_rows : Bytes → Bytes → ObjectMeta → B.Db → Result B.Db
  put_rows bucket key meta db = do
    text ← C.marshal meta
    db1 ←
        (if meta.is_latest || is_empty meta.version_id
          then b_put B db (objects_of bucket) key text
          else ok db)
    db2 ← B.create db1 (versions_of bucket)
    b_put B db2 (versions_of bucket) (version_key key meta.version_id) text

  unfoldable pub put_object : Bytes → Bytes → ObjectMeta → B.Db → Result B.Db
  unfolding put_rows
  put_object bucket key meta db = elim (B.bucket db (objects_of bucket)) [
    | none ↦ err bucket_not_found
    | some _ ↦ put_rows bucket key meta db
  ]

  unfoldable pub get_latest : Bytes → Bytes → B.Db → Result ObjectMeta
  get_latest bucket key db = elim (B.bucket db (objects_of bucket)) [
    | none ↦ err bucket_not_found
    | some _ ↦ decode_or C object_not_found (B.get db (objects_of bucket) key)
  ]

  unfoldable pub get_version : Bytes → Bytes → Bytes → B.Db → Result ObjectMeta
  get_version bucket key version_id db = elim (B.bucket db (versions_of bucket)) [
    | none ↦ err object_not_found
    | some _ ↦
        decode_or C object_not_found (B.get db (versions_of bucket) (version_key key version_id))
  ]

  unfoldable pub get_object : Bytes → Bytes → Bytes → B.Db → Result ObjectMeta
  unfolding get_latest get_version
  get_object bucket key version_id db =
      if is_empty version_id then get_latest bucket key db else get_version bucket key version_id db

module _ (B : Bolt) where
  -- A Put or Delete whose error is dropped.
  abbrev pub or_same : B.Db → Result B.Db → B.Db
  or_same db (ok db') = db'
  or_same db (err e) = db

  unfoldable pub delete_keys : Bytes → List Bytes → B.Db → B.Db
  delete_keys b [] db = db
  delete_keys b (k ∷ ks) db = delete_keys b ks (B.delete db b k)

  -- The keys that the deleting loop of DeleteObject visits before it stops.
  unfoldable pub doomed : Bytes → Bytes → B.Db → List Bytes
  doomed bucket key db =
      take_while (λ k. has_prefix k (version_prefix key))
        (B.visited db (versions_of bucket) (version_prefix key))

  unfoldable pub delete_all_versions : Bytes → Bytes → B.Db → B.Db
  unfolding delete_keys doomed
  delete_all_versions bucket key db =
      let db1 = B.delete db (objects_of bucket) key in
      elim (B.bucket db1 (versions_of bucket)) [
        | none ↦ db1
        | some _ ↦ delete_keys (versions_of bucket) (doomed bucket key db1) db1
      ]

module _ (C : Codec ObjectMeta) where
  -- One turn of the loop that looks for the newest version.
  abbrev pub newer : Option ObjectMeta → Option ObjectMeta → Option ObjectMeta
  newer best none = best
  newer none (some m) = some m
  newer (some b) (some m) = if ltb b.last_modified m.last_modified then some m else some b

  unfoldable pub newest : Option ObjectMeta → Entries → Option ObjectMeta
  newest best [] = best
  newest best ((k, v) ∷ es) = newest (newer best (C.unmarshal v)) es

-- latestData, _ = json.Marshal(latestMeta): an error leaves nil.
abbrev pub or_nil : Result Bytes → Bytes
or_nil (ok text) = text
or_nil (err e) = []

module _ (B : Bolt) (C : Codec ObjectMeta) where
  unfoldable pub promote : Bytes → Bytes → Option ObjectMeta → B.Db → B.Db
  promote bucket key none db = B.delete db (objects_of bucket) key
  promote bucket key (some m) db =
      let text = or_nil (C.marshal (record m { is_latest = true })) in
      let db1 = or_same B db (B.put db (objects_of bucket) key text) in
      or_same B db1 (B.put db1 (versions_of bucket) (version_key key m.version_id) text)

  unfoldable pub delete_version : Bytes → Bytes → Bytes → B.Db → B.Db
  unfolding promote newest scan
  delete_version bucket key version_id db = elim (B.bucket db (versions_of bucket)) [
    | none ↦ db
    | some _ ↦
        let db1 = B.delete db (versions_of bucket) (version_key key version_id) in
        promote bucket key
          (newest C none (scan (version_prefix key) (opened (B.bucket db1 (versions_of bucket)))))
          db1
  ]

  unfoldable pub delete_object : Bytes → Bytes → Bytes → B.Db → Result B.Db
  unfolding delete_all_versions delete_version
  delete_object bucket key version_id db = elim (B.bucket db (objects_of bucket)) [
    | none ↦ err bucket_not_found
    | some _ ↦ ok (
        if is_empty version_id
        then delete_all_versions B bucket key db
        else delete_version bucket key version_id db)
  ]
