-- ===== src/Metadata/Objects/Replay.antt =====
-- Any sequence of writes to the objects of the metadata store, against a specification without rows: what
-- a reader sees of one key and version.
use go_s.Prelude.{
  Bool, true, false, ◌||◌, is_empty, inl, Bytes, Result, ok, err, List, [], ◌∷◌, ◌≡◌, refl, ◌&&◌,
  bytes_eq, All, if◌then◌else◌,
}
use go_s.Bolt.{Bolt, Laws, Codec}
use go_s.Bolt.Handles.{Exists, b_put-Exists, create-Exists}
use go_s.Storage.{ObjectMeta}
use go_s.Metadata.Names.{objects_of, versions_of, version_key, NoNul}
use go_s.Metadata.Objects.{put_object, get_object, delete_object}
use go_s.Metadata.Objects.RoundTrip.{
  hits, becomes_latest, put_steps, first_Exists, put_object-eq-ok, get_object-put_object,
}
use go_s.Metadata.Objects.Deletion.{
  delete_all-Exists, delete_object-eq-ok, get_object-delete_object, IsLeft, is_first, version_rows,
}

-- A PutObject, or a DeleteObject without a version ID.
pub data Write : Type 0 where
  put : Bytes → Bytes → ObjectMeta → Write
  remove : Bytes → Bytes → Write

-- What a reader of one version of a key, or of the latest, sees before and after a write that is
-- carried out. Without a version ID a deletion leaves nothing, with one it may leave the version.
abbrev pub Sees : Bytes → Bytes → Bytes → Write → Result ObjectMeta → Result ObjectMeta → Type 0
Sees bucket key vid (put b k meta) before after =
    after ≡ (if hits b k meta bucket key vid then ok meta else before)
Sees bucket key vid (remove b k) before after =
    IsLeft (bytes_eq bucket b && bytes_eq key k) (is_empty vid) before after

-- What a reader sees after one write and another.
abbrev pub Replays :
    Bytes → Bytes → Bytes → List Write → Result ObjectMeta → Result ObjectMeta → Type 0
Replays bucket key vid [] before after = after ≡ before
Replays bucket key vid (w ∷ ws) before after =
    (mid : Result ObjectMeta) × Sees bucket key vid w before mid
    × Replays bucket key vid ws mid after

-- A deletion that takes away what is read for sure may take it away.
IsLeft-or :
    (own sure more : Bool) (before after : Result ObjectMeta)
    → IsLeft own (sure || more) before after
    → IsLeft own sure before after
IsLeft-or false sure more before after h = h
IsLeft-or true true more before after h = h
IsLeft-or true false true before after h = inl h
IsLeft-or true false false before after h = h

module _ (B : Bolt) (C : Codec ObjectMeta) where
  abbrev pub perform : Write → B.Db → Result B.Db
  perform (put b k meta) db = put_object B C b k meta db
  perform (remove b k) db = delete_object B C b k [] db

  -- The database after the writes, of which one that fails leaves it as it was, and the writes that
  -- were carried out.
  unfoldable pub run : List Write → B.Db → B.Db × List Write
  run [] db = (db, [])
  run (w ∷ ws) db = elim (perform w db) [
    | err e ↦ run ws db
    | ok mid ↦ let r = run ws mid in (r.0, w ∷ r.1)
  ]

  -- A key without a byte 0, and metadata that is stable under JSON.
  abbrev pub IsPlain : Write → Type 0
  IsPlain (put b k meta) = C.Stable meta × NoNul k
  IsPlain (remove b k) = NoNul k

  module _ (L : Laws B) where
    perform-Exists :
        (w : Write) (db db' : B.Db) (bucket : Bytes)
        → perform w db ≡ ok db'
        → Exists B db (objects_of bucket)
        → Exists B db' (objects_of bucket)
    perform-Exists (put b k meta) db db' bucket h x =
        let (_, p) = put_object-eq-ok B L C db db' b k meta h in
        let s = put_steps B L C db db' b k meta p in
        let c = objects_of bucket in
        let x1 = first_Exists B L C db s.mid b k s.text c (becomes_latest meta) s.first x in
        let x2 = create-Exists B L s.mid s.after (versions_of b) c s.created x1 in
        b_put-Exists B L s.after db' (versions_of b) (version_key k meta.version_id) s.text c
          s.second x2
    perform-Exists (remove b k) db db' bucket h x =
        rw (delete_object-eq-ok B L C db db' b k h)
          (delete_all-Exists B L b k (objects_of bucket) db x)

    get_object-remove :
        (b k : Bytes) (db db' : B.Db) (bucket key vid : Bytes)
        → NoNul k
        → NoNul key
        → Exists B db (objects_of bucket)
        → delete_object B C b k [] db ≡ ok db'
        → IsLeft
            (bytes_eq bucket b && bytes_eq key k)
            (is_empty vid)
            (get_object B C bucket key vid db)
            (get_object B C bucket key vid db')
    get_object-remove b k db db' bucket key vid n n' x h =
        IsLeft-or (bytes_eq bucket b && bytes_eq key k) (is_empty vid)
          (is_first (version_key key vid) (version_rows B L C b k db))
          (get_object B C bucket key vid db) (get_object B C bucket key vid db')
          (get_object-delete_object B L C db db' b k bucket key vid n n' x h)

    get_object-perform :
        (w : Write) (db db' : B.Db) (bucket key vid : Bytes)
        → IsPlain w
        → NoNul key
        → Exists B db (objects_of bucket)
        → perform w db ≡ ok db'
        → Sees bucket key vid w
            (get_object B C bucket key vid db)
            (get_object B C bucket key vid db')
    get_object-perform (put b k meta) db db' bucket key vid (st, n) n' x h =
        get_object-put_object B L C db db' b k bucket key vid meta st n n' x h
    get_object-perform (remove b k) db db' bucket key vid n n' x h =
        get_object-remove b k db db' bucket key vid n n' x h

    -- After any sequence of PutObject and of DeleteObject without a version ID, on any buckets and keys,
    -- GetObject of a key in a bucket that is there, with or without a version ID, returns what the
    -- writes that were carried out leave of it one after the other: a PutObject that the reader's key
    -- and version hit leaves its metadata, a DeleteObject of the key leaves nothing for a reader
    -- without a version ID, and for a reader with one it leaves nothing or what was there, and every
    -- other write leaves what was there. A write that fails changes nothing. Keys hold no byte 0, and
    -- the metadata is stable under JSON.
    pub get_object-run :
        (ws : List Write) (db : B.Db) (bucket key vid : Bytes)
        → All IsPlain ws
        → NoNul key
        → Exists B db (objects_of bucket)
        → Replays bucket key vid
            (run ws db).1
            (get_object B C bucket key vid db)
            (get_object B C bucket key vid (run ws db).0)
    unfolding run
    get_object-run [] db bucket key vid p n x = refl
    get_object-run (w ∷ ws) db bucket key vid (p, ps) n x =
        by (perform w db) refl (λ mid y. get_object-run ws mid bucket key vid ps n y)
      where
        by :
            (r : Result B.Db)
            → perform w db ≡ r
            → ((mid : B.Db)
                → Exists B mid (objects_of bucket)
                → Replays bucket key vid
                    (run ws mid).1
                    (get_object B C bucket key vid mid)
                    (get_object B C bucket key vid (run ws mid).0))
            → let s : B.Db × List Write = elim r [
              | err e ↦ run ws db
              | ok mid ↦ let r = run ws mid in (r.0, w ∷ r.1)
            ] in
              Replays bucket key vid s.1
                (get_object B C bucket key vid db)
                (get_object B C bucket key vid s.0)
        by (err e) h ih = ih db x
        by (ok mid) h ih = (
          get_object B C bucket key vid mid,
          get_object-perform w db mid bucket key vid p n x h,
          ih mid (perform-Exists w db mid bucket h x),
        )
