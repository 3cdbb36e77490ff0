-- ===== src/Metadata/Objects/OneVersion.antt =====
-- DeleteObject with a version ID, and what GetObject returns afterwards.
use go_s.Prelude.{
  Bytes, Result, ok, err, object_not_found, Option, none, some, ◌≡◌, false, ◌&&◌, if◌then◌else◌,
  bytes_eq, bytes_eq_refl, arith, is_empty, [], ◌∷◌,
}
use go_s.Bolt.{Bolt, Laws, Codec, Entries, remove, scan}
use go_s.Bolt.Handles.{Exists, value-delete, delete-Exists}
use go_s.Metadata.Objects.NewestLeft.{IsNewestLeft, newest-IsNewestLeft}
use go_s.Storage.{ObjectMeta}
use go_s.Metadata.Names.{
  objects_of, versions_of, version_key, version_prefix, objects_of-objects_of,
  versions_of-versions_of, objects_of-versions_of, versions_of-objects_of, version_key_apart, NoNul,
}
use go_s.Metadata.Rows.Laws.{decode-marshal}
use go_s.Metadata.Objects.{newest, promote, delete_version, delete_object, get_object}
use go_s.Metadata.Objects.RoundTrip.{get_object_lem}
use go_s.Metadata.Objects.Promote.{
  promoted, CanPromote, value-promote, value-promote-none, promote-Exists,
}

-- What GetObject returns for a version of the key of which `vid` was deleted, where `best` became the
-- latest and `before` is what it returned before.
abbrev pub after_delete : Option ObjectMeta → Bytes → Bytes → Result ObjectMeta → Result ObjectMeta
after_delete none vid wanted before =
    if is_empty wanted
    then err object_not_found
    else if bytes_eq wanted vid
    then err object_not_found
    else before
after_delete (some m) vid wanted before =
    if is_empty wanted
    then ok (promoted m)
    else if bytes_eq wanted m.version_id
    then ok (promoted m)
    else if bytes_eq wanted vid
    then err object_not_found
    else before

module _ (B : Bolt) (L : Laws B) (C : Codec ObjectMeta) where
  -- The rows of the versions of a key once one of them is gone.
  abbrev pub remaining : Bytes → Bytes → Entries → Entries
  remaining key vid es = scan (version_prefix key) (remove (version_key key vid) es)

  delete_version_lem :
      (db : B.Db) (bucket key vid : Bytes) (es : Entries)
      → B.bucket db (versions_of bucket) ≡ some es
      → delete_version B C bucket key vid db
        ≡ promote B C bucket key
            (newest C none (remaining key vid es))
            (B.delete db (versions_of bucket) (version_key key vid))
  unfolding delete_version
  delete_version_lem db bucket key vid es e = ground (
    arith,
    L.bucket_delete db (versions_of bucket) (version_key key vid) (versions_of bucket),
    bytes_eq_refl (versions_of bucket),
  )

  promoted_Exists :
      (db : B.Db) (bucket key vid c : Bytes) (m : Option ObjectMeta)
      → Exists B db (objects_of bucket)
      → Exists B db (versions_of bucket)
      → CanPromote C key m
      → Exists B db c
      → Exists B
          (promote B C bucket key m (B.delete db (versions_of bucket) (version_key key vid)))
          c
  promoted_Exists db bucket key vid c m xo xv w x =
      let b = versions_of bucket in
      let k = version_key key vid in
      promote-Exists B L C (B.delete db b k) bucket key c m
        (delete-Exists B L db b k (objects_of bucket) xo) (delete-Exists B L db b k b xv) w
        (delete-Exists B L db b k c x)

  -- GetObject after the promotion, in the database without the deleted version.
  get_object-promote :
      (db : B.Db) (bucket key vid bucket' key' wanted : Bytes) (best : Option ObjectMeta)
      → NoNul key
      → NoNul key'
      → Exists B db (objects_of bucket)
      → Exists B db (versions_of bucket)
      → Exists B db (objects_of bucket')
      → CanPromote C key best
      → get_object B C bucket' key' wanted
          (promote B C bucket key best (B.delete db (versions_of bucket) (version_key key vid)))
        ≡ (if bytes_eq bucket' bucket && bytes_eq key' key
            then after_delete best vid wanted (get_object B C bucket' key' wanted db)
            else get_object B C bucket' key' wanted db)
  get_object-promote db bucket key vid bucket' key' [] none n n' xo xv x w =
      let db1 = B.delete db (versions_of bucket) (version_key key vid) in
      ground (
        arith,
        get_object_lem B L C (promote B C bucket key none db1) bucket' key' []
            (promoted_Exists db bucket key vid (objects_of bucket') none xo xv w x),
        get_object_lem B L C db bucket' key' [] x,
        value-promote-none B L C db1 bucket key (objects_of bucket') key',
        value-delete B L db (versions_of bucket) (version_key key vid) (objects_of bucket') key',
        objects_of-objects_of bucket' bucket,
        objects_of-versions_of bucket' bucket,
      )
  get_object-promote db bucket key vid bucket' key' (v ∷ vs) none n n' xo xv x w =
      let db1 = B.delete db (versions_of bucket) (version_key key vid) in
      ground (
        arith,
        get_object_lem B L C (promote B C bucket key none db1) bucket' key' (v ∷ vs)
            (promoted_Exists db bucket key vid (objects_of bucket') none xo xv w x),
        get_object_lem B L C db bucket' key' (v ∷ vs) x,
        value-promote-none B L C db1 bucket key (versions_of bucket') (version_key key' (v ∷ vs)),
        value-delete B L db (versions_of bucket) (version_key key vid) (versions_of bucket')
            (version_key key' (v ∷ vs)),
        versions_of-versions_of bucket' bucket,
        versions_of-objects_of bucket' bucket,
        version_key_apart key' key (v ∷ vs) vid n' n,
      )
  get_object-promote db bucket key vid bucket' key' [] (some m) n n' xo xv x w =
      let db1 = B.delete db (versions_of bucket) (version_key key vid) in
      let (text, e) = C.marshal_total (promoted m) w.0.stable in
      ground (
        arith,
        get_object_lem B L C (promote B C bucket key (some m) db1) bucket' key' []
            (promoted_Exists db bucket key vid (objects_of bucket') (some m) xo xv w x),
        get_object_lem B L C db bucket' key' [] x,
        value-promote B L C db1 bucket key (objects_of bucket') key' m text
            (delete-Exists B L db (versions_of bucket) (version_key key vid) (objects_of bucket) xo)
            (delete-Exists B L db (versions_of bucket) (version_key key vid) (versions_of bucket)
              xv)
            e w,
        value-delete B L db (versions_of bucket) (version_key key vid) (objects_of bucket') key',
        decode-marshal C (promoted m) text w.0.stable e,
        objects_of-objects_of bucket' bucket,
        objects_of-versions_of bucket' bucket,
      )
  get_object-promote db bucket key vid bucket' key' (v ∷ vs) (some m) n n' xo xv x w =
      let db1 = B.delete db (versions_of bucket) (version_key key vid) in
      let (text, e) = C.marshal_total (promoted m) w.0.stable in
      ground (
        arith,
        get_object_lem B L C (promote B C bucket key (some m) db1) bucket' key' (v ∷ vs)
            (promoted_Exists db bucket key vid (objects_of bucket') (some m) xo xv w x),
        get_object_lem B L C db bucket' key' (v ∷ vs) x,
        value-promote B L C db1 bucket key (versions_of bucket') (version_key key' (v ∷ vs)) m text
            (delete-Exists B L db (versions_of bucket) (version_key key vid) (objects_of bucket) xo)
            (delete-Exists B L db (versions_of bucket) (version_key key vid) (versions_of bucket)
              xv)
            e w,
        value-delete B L db (versions_of bucket) (version_key key vid) (versions_of bucket')
            (version_key key' (v ∷ vs)),
        decode-marshal C (promoted m) text w.0.stable e,
        versions_of-versions_of bucket' bucket,
        versions_of-objects_of bucket' bucket,
        version_key_apart key' key (v ∷ vs) vid n' n,
        version_key_apart key' key (v ∷ vs) m.version_id n' n,
      )

  -- What GetObject returns after a DeleteObject of one version, with the choice the search makes.
  pub get_object-delete_newest :
      (db db' : B.Db) (bucket key v bucket' key' wanted : Bytes) (es : Entries)
      → NoNul key
      → NoNul key'
      → Exists B db (objects_of bucket)
      → B.bucket db (versions_of bucket) ≡ some es
      → Exists B db (objects_of bucket')
      → is_empty v ≡ false
      → CanPromote C key (newest C none (remaining key v es))
      → delete_object B C bucket key v db ≡ ok db'
      → get_object B C bucket' key' wanted db' ≡ (
          if bytes_eq bucket' bucket && bytes_eq key' key
          then after_delete
              (newest C none (remaining key v es))
              v
              wanted
              (get_object B C bucket' key' wanted db)
          else get_object B C bucket' key' wanted db)
  unfolding delete_object
  get_object-delete_newest db db' bucket key v bucket' key' wanted es n n' (os, xo) e x nv w h =
      ground (
        arith,
        delete_version_lem db bucket key v es e,
        get_object-promote db bucket key v bucket' key' wanted (newest C none (remaining key v es))
            n n' (os, xo) (es, e) x w,
      )

  -- After a DeleteObject of one version of a key that returns no error, there is a newest version
  -- among those that are left, or none that decodes is left: its metadata is that of a row that is
  -- left, and no row that is left holds a later time of modification. GetObject without a version ID returns this
  -- version, marked as the latest, or finds nothing if there is none. GetObject with the version ID of
  -- that newest version returns it marked as the latest, with the deleted ID otherwise finds nothing,
  -- and every other GetObject, of other versions, keys and buckets that are there, returns what it did
  -- before. Keys hold no byte 0, the bucket has its two tables, the version ID is not empty, and
  -- whichever version is the newest can be written.
  pub get_object-delete_version :
      (db db' : B.Db) (bucket key v bucket' key' wanted : Bytes) (es : Entries)
      → NoNul key
      → NoNul key'
      → Exists B db (objects_of bucket)
      → B.bucket db (versions_of bucket) ≡ some es
      → Exists B db (objects_of bucket')
      → is_empty v ≡ false
      → ((best : Option ObjectMeta) → IsNewestLeft C key v es best → CanPromote C key best)
      → delete_object B C bucket key v db ≡ ok db'
      → (best : Option ObjectMeta) × (IsNewestLeft C key v es best
          × (get_object B C bucket' key' wanted db' ≡ (
              if bytes_eq bucket' bucket && bytes_eq key' key
              then after_delete best v wanted (get_object B C bucket' key' wanted db)
              else get_object B C bucket' key' wanted db)))
  get_object-delete_version db db' bucket key v bucket' key' wanted es n n' xo e x nv w h =
      let best = newest C none (remaining key v es) in
      let left = newest-IsNewestLeft C key v es (L.bucket_sorted db (versions_of bucket) es e) in
      (
        best,
        (
          left,
          get_object-delete_newest db db' bucket key v bucket' key' wanted es n n' xo e x nv
              (w best left) h,
        ),
      )
