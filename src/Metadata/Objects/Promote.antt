-- ===== src/Metadata/Objects/Promote.antt =====
-- The two writes by which DeleteObject makes a version the latest.
use go_s.Prelude.{Bytes, ok, Option, none, some, ◌≡◌, true, ◌&&◌, if◌then◌else◌, bytes_eq}
use go_s.Bolt.{Bolt, Laws, Codec, FitsKey, FitsValue}
use go_s.Bolt.Handles.{
  value, Exists, value-delete, delete-Exists, b_put, b_put-eq-ok, b_put_total, value-put,
  b_put-Exists,
}
use go_s.Storage.{ObjectMeta}
use go_s.Metadata.Names.{objects_of, versions_of, version_key}
use go_s.Metadata.Rows.Laws.{IsWritable}
use go_s.Metadata.Objects.{promote, or_same}

-- The metadata that DeleteObject writes for the version that becomes the latest.
abbrev pub promoted : ObjectMeta → ObjectMeta
promoted m = record m { is_latest = true }

-- Nothing, or a version that can be written again as the latest.
abbrev pub CanPromote : Codec ObjectMeta → Bytes → Option ObjectMeta → Type 0
CanPromote C key none = Unit {0}
CanPromote C key (some m) = IsWritable C key (promoted m) × FitsKey (version_key key m.version_id)

module _ (B : Bolt) (L : Laws B) (C : Codec ObjectMeta) where
  put_or_same :
      (db : B.Db) (b k text : Bytes)
      → Exists B db b
      → FitsKey k
      → FitsValue text
      → (db' : B.Db) × (or_same B db (B.put db b k text) ≡ db') × (b_put B db b k text ≡ ok db')
  put_or_same db b k text x fk fv =
      let (db', p) = b_put_total B L db b k text x fk fv in
      let (_, q) = b_put-eq-ok B L db db' b k text p in (db', rw q, p)

  -- The two writes that make a version the latest.
  pub value-promote :
      (db : B.Db) (bucket key c j : Bytes) (m : ObjectMeta) (text : Bytes)
      → Exists B db (objects_of bucket)
      → Exists B db (versions_of bucket)
      → C.marshal (promoted m) ≡ ok text
      → CanPromote C key (some m)
      → value B (promote B C bucket key (some m) db) c j ≡ (
          if bytes_eq c (versions_of bucket) && bytes_eq j (version_key key m.version_id)
          then some text
          else if bytes_eq c (objects_of bucket) && bytes_eq j key
          then some text
          else value B db c j)
  unfolding promote
  value-promote db bucket key c j m text xo xv e (w, fk) =
      let fv = w.fits_value text e in
      let (db1, e1, p1) = put_or_same db (objects_of bucket) key text xo w.fits_key fv in
      let xv' = b_put-Exists B L db db1 (objects_of bucket) key text (versions_of bucket) p1 xv in
      let (db2, e2, p2) =
        put_or_same db1 (versions_of bucket) (version_key key m.version_id) text xv' fk fv in
      rw (promote, e, e1, e2)
        (rw (
          value-put B L db1 db2 (versions_of bucket) (version_key key m.version_id) text c j p2,
          value-put B L db db1 (objects_of bucket) key text c j p1,
        ))

  pub promote-Exists :
      (db : B.Db) (bucket key c : Bytes) (m : Option ObjectMeta)
      → Exists B db (objects_of bucket)
      → Exists B db (versions_of bucket)
      → CanPromote C key m
      → Exists B db c
      → Exists B (promote B C bucket key m db) c
  unfolding promote
  promote-Exists db bucket key c none xo xv w x = delete-Exists B L db (objects_of bucket) key c x
  promote-Exists db bucket key c (some m) xo xv (w, fk) x =
      let (text, e) = C.marshal_total (promoted m) w.stable in
      let fv = w.fits_value text e in
      let (db1, e1, p1) = put_or_same db (objects_of bucket) key text xo w.fits_key fv in
      let xv' = b_put-Exists B L db db1 (objects_of bucket) key text (versions_of bucket) p1 xv in
      let (db2, e2, p2) =
        put_or_same db1 (versions_of bucket) (version_key key m.version_id) text xv' fk fv in
      rw (promote, e, e1, e2)
        (b_put-Exists B L db1 db2 (versions_of bucket) (version_key key m.version_id) text c p2
          (b_put-Exists B L db db1 (objects_of bucket) key text c p1 x))

  pub value-promote-none :
      (db : B.Db) (bucket key c j : Bytes)
      → value B (promote B C bucket key none db) c j
        ≡ (if bytes_eq c (objects_of bucket) && bytes_eq j key then none else value B db c j)
  unfolding promote
  value-promote-none db bucket key c j = value-delete B L db (objects_of bucket) key c j
