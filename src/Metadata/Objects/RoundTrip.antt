-- ===== src/Metadata/Objects/RoundTrip.antt =====
-- PutObject, and what GetObject returns afterwards.
use go_s.Prelude.{
  Bytes, ok, object_not_found, some, ◌≡◌, refl, >>=-eq-ok, Bool, true, false, ◌&&◌, ◌||◌,
  if◌then◌else◌, bytes_eq, arith, ok-injective, Option-cases, inl, inr, is_empty, [], ◌∷◌,
}
use go_s.Bolt.{Bolt, Laws, Codec, FitsKey, FitsValue}
use go_s.Bolt.Handles.{
  b_put, value, Exists, value-put, b_put_total, b_put-Exists, value-create, create-Exists,
  create-Exists_self,
}
use go_s.Storage.{ObjectMeta}
use go_s.Metadata.Names.{
  objects_of, versions_of, version_key, objects_of-objects_of, versions_of-versions_of,
  objects_of-versions_of, versions_of-objects_of, version_key_apart, NoNul,
}
use go_s.Metadata.Rows.{decode_or}
use go_s.Metadata.Rows.Laws.{decode-marshal, IsWritable}
use go_s.Metadata.Objects.{put_rows, put_object, get_latest, get_version, get_object}

-- Whether PutObject makes the object the current one of its key.
abbrev pub becomes_latest : ObjectMeta → Bool
becomes_latest meta = meta.is_latest || is_empty meta.version_id

-- Whether a GetObject asks for what a PutObject of `meta` wrote.
abbrev pub hits : Bytes → Bytes → ObjectMeta → Bytes → Bytes → Bytes → Bool
hits bucket key meta bucket' key' vid =
    bytes_eq bucket' bucket
    && bytes_eq key' key
    && (if is_empty vid then becomes_latest meta else bytes_eq vid meta.version_id)

module _ (B : Bolt) (L : Laws B) (C : Codec ObjectMeta) where
  pub get_latest_lem :
      (db : B.Db) (bucket key : Bytes)
      → Exists B db (objects_of bucket)
      → get_latest B C bucket key db
        ≡ decode_or C object_not_found (value B db (objects_of bucket) key)
  unfolding get_latest value
  get_latest_lem db bucket key (es, e) =
      rw (e, L.get_lookup db (objects_of bucket) key es e, get_latest, value)

  pub get_version_lem :
      (db : B.Db) (bucket key vid : Bytes)
      → get_version B C bucket key vid db
        ≡ decode_or C object_not_found (value B db (versions_of bucket) (version_key key vid))
  unfolding get_version value
  get_version_lem db bucket key vid = elim (Option-cases (B.bucket db (versions_of bucket))) [
    | inl e ↦ rw (e, get_version, value)
    | inr (es, e) ↦
        rw (e, L.get_lookup db (versions_of bucket) (version_key key vid) es e, get_version, value)
  ]

  -- The state between the two writes, and the facts of each of them.
  pub record PutSteps (db db' : B.Db) (bucket key : Bytes) (meta : ObjectMeta) : Type 0 where
    pub text : Bytes
    pub mid : B.Db
    pub after : B.Db
    pub encoded : C.marshal meta ≡ ok text
    pub first :
        (if becomes_latest meta then b_put B db (objects_of bucket) key text else ok db) ≡ ok mid
    pub created : B.create mid (versions_of bucket) ≡ ok after
    pub second : b_put B after (versions_of bucket) (version_key key meta.version_id) text ≡ ok db'

  pub put_steps :
      (db db' : B.Db) (bucket key : Bytes) (meta : ObjectMeta)
      → put_rows B C bucket key meta db ≡ ok db'
      → PutSteps db db' bucket key meta
  unfolding put_rows
  put_steps db db' bucket key meta h =
      let (text, e1, r1) = >>=-eq-ok (C.marshal meta) _ h in
      let (mid, e2, r2) =
        >>=-eq-ok (if becomes_latest meta then b_put B db (objects_of bucket) key text else ok db) _
          r1 in
      let (after, e3, r3) = >>=-eq-ok (B.create mid (versions_of bucket)) _ r2 in
      record {
        text = text;
        mid = mid;
        after = after;
        encoded = e1;
        first = e2;
        created = e3;
        second = r3;
      }

  first_value :
      (db mid : B.Db) (bucket key text c j : Bytes) (b : Bool)
      → (if b then b_put B db (objects_of bucket) key text else ok db) ≡ ok mid
      → value B mid c j ≡ (
          if b && (bytes_eq c (objects_of bucket) && bytes_eq j key)
          then some text
          else value B db c j)
  first_value db mid bucket key text c j true h =
      value-put B L db mid (objects_of bucket) key text c j h
  first_value db mid bucket key text c j false h = rw (ok-injective h)

  pub first_Exists :
      (db mid : B.Db) (bucket key text c : Bytes) (b : Bool)
      → (if b then b_put B db (objects_of bucket) key text else ok db) ≡ ok mid
      → Exists B db c
      → Exists B mid c
  first_Exists db mid bucket key text c true h x =
      b_put-Exists B L db mid (objects_of bucket) key text c h x
  first_Exists db mid bucket key text c false h x = rw (← ok-injective h) x

  -- Every row after PutObject.
  put_rows_value :
      (db db' : B.Db) (bucket key c j : Bytes) (meta : ObjectMeta)
      → (s : PutSteps db db' bucket key meta)
      → value B db' c j ≡ (
          if bytes_eq c (versions_of bucket) && bytes_eq j (version_key key meta.version_id)
          then some s.text
          else if becomes_latest meta && (bytes_eq c (objects_of bucket) && bytes_eq j key)
          then some s.text
          else value B db c j)
  put_rows_value db db' bucket key c j meta s = rw (
    value-put B L s.after db' (versions_of bucket) (version_key key meta.version_id) s.text c j
        s.second,
    value-create B L s.mid s.after (versions_of bucket) c j s.created,
    first_value db s.mid bucket key s.text c j (becomes_latest meta) s.first,
  )

  pub put_object-eq-ok :
      (db db' : B.Db) (bucket key : Bytes) (meta : ObjectMeta)
      → put_object B C bucket key meta db ≡ ok db'
      → Exists B db (objects_of bucket) × (put_rows B C bucket key meta db ≡ ok db')
  unfolding put_object
  put_object-eq-ok db db' bucket key meta h =
      elim (Option-cases (B.bucket db (objects_of bucket))) [
        | inl e ↦ ground arith
        | inr (es, e) ↦ ((es, e), rw (e, put_object) at h)
      ]

  -- What GetObject reads, by the rows.
  pub get_object_lem :
      (db : B.Db) (bucket key vid : Bytes)
      → Exists B db (objects_of bucket)
      → get_object B C bucket key vid db
        ≡ decode_or C object_not_found (
            if is_empty vid
            then value B db (objects_of bucket) key
            else value B db (versions_of bucket) (version_key key vid))
  unfolding get_object
  get_object_lem db bucket key [] x = get_latest_lem db bucket key x
  get_object_lem db bucket key (c ∷ vid) x = get_version_lem db bucket key (c ∷ vid)

  put_object-Exists :
      (db db' : B.Db) (bucket key c : Bytes) (meta : ObjectMeta)
      → put_object B C bucket key meta db ≡ ok db'
      → Exists B db c
      → Exists B db' c
  put_object-Exists db db' bucket key c meta h x =
      let (_, p) = put_object-eq-ok db db' bucket key meta h in
      let s = put_steps db db' bucket key meta p in
      b_put-Exists B L s.after db' (versions_of bucket) (version_key key meta.version_id) s.text c
        s.second
        (create-Exists B L s.mid s.after (versions_of bucket) c s.created
          (first_Exists db s.mid bucket key s.text c (becomes_latest meta) s.first x))

  -- The rows that GetObject reads, after PutObject.
  read_value :
      (db db' : B.Db) (bucket key bucket' key' vid : Bytes) (meta : ObjectMeta)
      → NoNul key
      → NoNul key'
      → (s : PutSteps db db' bucket key meta)
      → (if is_empty vid
          then value B db' (objects_of bucket') key'
          else value B db' (versions_of bucket') (version_key key' vid))
        ≡ (if hits bucket key meta bucket' key' vid
            then some s.text
            else if is_empty vid
            then value B db (objects_of bucket') key'
            else value B db (versions_of bucket') (version_key key' vid))
  read_value db db' bucket key bucket' key' [] meta n n' s = ground (
    arith,
    put_rows_value db db' bucket key (objects_of bucket') key' meta s,
    objects_of-versions_of bucket' bucket,
    objects_of-objects_of bucket' bucket,
  )
  read_value db db' bucket key bucket' key' (c ∷ vid) meta n n' s = ground (
    arith,
    put_rows_value db db' bucket key (versions_of bucket') (version_key key' (c ∷ vid)) meta s,
    versions_of-versions_of bucket' bucket,
    versions_of-objects_of bucket' bucket,
    version_key_apart key' key (c ∷ vid) meta.version_id n' n,
  )

  -- After a PutObject that returns no error, GetObject of any key and version, in any bucket that
  -- is there, returns the metadata that was put exactly if it asks for the same bucket and key, and
  -- for the version that was put, or for no version where the metadata is the latest or has no
  -- version ID. Every other GetObject returns what it did before. Keys hold no byte 0, and the
  -- metadata is stable under JSON.
  pub get_object-put_object :
      (db db' : B.Db) (bucket key bucket' key' vid : Bytes) (meta : ObjectMeta)
      → C.Stable meta
      → NoNul key
      → NoNul key'
      → Exists B db (objects_of bucket')
      → put_object B C bucket key meta db ≡ ok db'
      → get_object B C bucket' key' vid db' ≡ (
          if hits bucket key meta bucket' key' vid
          then ok meta
          else get_object B C bucket' key' vid db)
  get_object-put_object db db' bucket key bucket' key' vid meta st n n' x h =
      let (_, p) = put_object-eq-ok db db' bucket key meta h in
      let s = put_steps db db' bucket key meta p in
      ground (
        arith,
        get_object_lem db' bucket' key' vid
            (put_object-Exists db db' bucket key (objects_of bucket') meta h x),
        get_object_lem db bucket' key' vid x,
        read_value db db' bucket key bucket' key' vid meta n n' s,
        decode-marshal C meta s.text st s.encoded,
      )

  put_first_total :
      (db : B.Db) (bucket key text : Bytes) (b : Bool)
      → Exists B db (objects_of bucket)
      → FitsKey key
      → FitsValue text
      → (mid : B.Db) × ((if b then b_put B db (objects_of bucket) key text else ok db) ≡ ok mid)
  put_first_total db bucket key text true x fk fv =
      b_put_total B L db (objects_of bucket) key text x fk fv
  put_first_total db bucket key text false x fk fv = (db, refl)

  -- PutObject into a bucket that is there succeeds, where the metadata is stable under JSON, and
  -- the key, the version key, the name of the bucket's version table and the encoded metadata are
  -- within the limits of the database.
  pub put_object_total :
      (db : B.Db) (bucket key : Bytes) (meta : ObjectMeta)
      → Exists B db (objects_of bucket)
      → IsWritable C key meta
      → FitsKey (version_key key meta.version_id)
      → FitsKey (versions_of bucket)
      → (db' : B.Db) × (put_object B C bucket key meta db ≡ ok db')
  unfolding put_object put_rows
  put_object_total db bucket key meta (es, e) w fk fb =
      let (text, m) = C.marshal_total meta w.stable in
      let fv = w.fits_value text m in
      let (mid, p1) =
        put_first_total db bucket key text (becomes_latest meta) (es, e) w.fits_key fv in
      let (after, p2) = L.create_total mid (versions_of bucket) fb in
      let x = create-Exists_self B L mid after (versions_of bucket) p2 in
      let (db', p3) =
        b_put_total B L after (versions_of bucket) (version_key key meta.version_id) text x fk fv in
      (db', rw (e, put_object, put_rows, m, p1, p2) p3)
