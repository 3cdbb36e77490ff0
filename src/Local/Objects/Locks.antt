-- ===== src/Local/Objects/Locks.antt =====
-- DeleteObject of the backend and the object lock.
use go_s.Prelude.{
  ◌⊎◌, ◌<◌, codes, bytes_eq_refl, Bytes, Result, ok, err, Option, none, some, ◌≡◌, refl, true,
  false, ◌&&◌, if◌then◌else◌, bytes_eq, bytes_eq_iff, arith, Bool-cases, inl, inr, ap, ◌∙◌, sym,
  is_empty, ok-injective,
}
use go_s.Bolt.{Bolt, Laws, Codec, Entries}
use go_s.Bolt.Handles.{Exists}
use go_s.Storage.{Time, BucketInfo, ObjectMeta}
use go_s.Metadata.Names.{objects_of, versions_of, NoNul}
use go_s.Metadata.Objects.{newest, get_object}
use go_s.Metadata.Objects
use go_s.Metadata.Objects.Promote.{CanPromote, promoted}
use go_s.Metadata.Objects.OneVersion.{remaining, after_delete, get_object-delete_newest}
use go_s.Local.Objects.{Files, is_locked, lock_holds, remove_object, delete_unlocked, delete_object}

-- GetObject returned something.
abbrev pub IsFound : Result ObjectMeta → Type 0
IsFound r = (m : ObjectMeta) × (r ≡ ok m)

IsFound-after_delete :
    (best : Option ObjectMeta) (vid wanted : Bytes) (before : Result ObjectMeta)
    → is_empty wanted ≡ false
    → bytes_eq wanted vid ≡ false
    → IsFound before
    → IsFound (after_delete best vid wanted before)
IsFound-after_delete none vid wanted before e n f = rw (e, n) f
IsFound-after_delete (some m) vid wanted before e n f =
    elim (Bool-cases (bytes_eq wanted m.version_id)) [
      | inl h ↦ rw (e, h) (promoted m, refl)
      | inr h ↦ rw (e, h, n) f
    ]

-- The database that is left has its rows from the store's own DeleteObject, or is as it was.
removed_db :
    (B : Bolt) (C : Codec ObjectMeta) (data_dir bucket key v : Bytes) (db : B.Db) (files : Files)
    → (r : Result B.Db) × (Objects.delete_object B C bucket key v db ≡ r)
      × ((remove_object B C data_dir bucket key v (db, files)).0
          ≡ elim r [ err e ↦ db | ok db' ↦ db' ])
unfolding remove_object
removed_db B C data_dir bucket key v db files = by (Objects.delete_object B C bucket key v db) refl
  where
    by :
        (r : Result B.Db)
        → Objects.delete_object B C bucket key v db ≡ r
        → (r : Result B.Db) × (Objects.delete_object B C bucket key v db ≡ r)
          × ((remove_object B C data_dir bucket key v (db, files)).0
              ≡ elim r [ err e ↦ db | ok db' ↦ db' ])
    by (err e) h = (err e, h, rw (h, remove_object))
    by (ok db') h = (ok db', h, rw (h, remove_object))

-- A lock on the version that is deleted is the only one that could get lost.
kept :
    (B : Bolt) (C : Codec ObjectMeta) (now : Time) (bucket key v bucket' key' wanted : Bytes)
    (best : Option ObjectMeta) (db : B.Db) (m : ObjectMeta)
    → is_empty wanted ≡ false
    → get_object B C bucket' key' wanted db ≡ ok m
    → is_locked now m ≡ true
    → lock_holds now (get_object B C bucket key v db) ≡ false
    → IsFound (
        if bytes_eq bucket' bucket && bytes_eq key' key
        then after_delete best v wanted (get_object B C bucket' key' wanted db)
        else get_object B C bucket' key' wanted db)
kept B C now bucket key v bucket' key' wanted best db m hw g locked free =
    elim (Bool-cases (bytes_eq bucket' bucket && bytes_eq key' key)) [
      | inr e ↦ rw e (m, g)
      | inl e ↦ elim (Bool-cases (bytes_eq wanted v)) [
        | inr w ↦
            rw e (
              IsFound-after_delete best v wanted (get_object B C bucket' key' wanted db) hw w
                (m, g))
        | inl w ↦
            let sb : bucket' ≡ bucket = (bytes_eq_iff bucket' bucket).0 (ground arith) in
            let sk : key' ≡ key = (bytes_eq_iff key' key).0 (ground arith) in
            let sw : wanted ≡ v = (bytes_eq_iff wanted v).0 w in
            let g' : get_object B C bucket key v db ≡ ok m =
              ap (λ k. get_object B C bucket k v db) (sym sk)
              ∙ ap (λ b. get_object B C b key' v db) (sym sb)
              ∙ ap (λ u. get_object B C bucket' key' u db) (sym sw)
              ∙ g in
            let bad : lock_holds now (get_object B C bucket key v db) ≡ true =
              ap (lock_holds now) g' ∙ locked in
            absurd (ground arith)
      ]
    ]

-- A version is held by a retention date that is not over, or by a legal hold.
abbrev pub IsHeld : Time → ObjectMeta → Type 0
IsHeld now m =
    ((date : Time) × (m.object_lock_retain_until_date ≡ some date) × (now < date))
    ⊎ (m.object_lock_legal_hold_status ≡ codes "ON")

IsHeld-is_locked : (now : Time) (m : ObjectMeta) → IsHeld now m → is_locked now m ≡ true
unfolding is_locked
IsHeld-is_locked now m (inl (date, e, l)) = rw (e, is_locked) (ground (arith, l))
IsHeld-is_locked now m (inr e) = rw (e, is_locked) (ground (arith, bytes_eq_refl (codes "ON")))

-- A DeleteObject with a version ID that returns no error leaves every locked version: one that
-- GetObject found by its version ID before, in any bucket that is there, and whose retention date
-- is not over or that is on legal hold, is found afterwards. Keys hold no byte 0, the bucket of the
-- deletion has its two tables, and the version that becomes the latest can be written.
pub IsFound-delete_object :
    (B : Bolt) (L : Laws B) (CB : Codec BucketInfo) (C : Codec ObjectMeta) (data_dir uuid : Bytes)
    (now : Time) (bucket key v bucket' key' wanted : Bytes) (db db' : B.Db) (files files' : Files)
    (es : Entries) (m : ObjectMeta)
    → NoNul key
    → NoNul key'
    → Exists B db (objects_of bucket)
    → B.bucket db (versions_of bucket) ≡ some es
    → Exists B db (objects_of bucket')
    → is_empty v ≡ false
    → is_empty wanted ≡ false
    → CanPromote C key (newest C none (remaining B L C key v es))
    → get_object B C bucket' key' wanted db ≡ ok m
    → IsHeld now m
    → delete_object B CB C data_dir uuid now bucket key v (db, files) ≡ ok (db', files')
    → IsFound (get_object B C bucket' key' wanted db')
unfolding delete_object delete_unlocked
IsFound-delete_object B L CB C data_dir uuid now bucket key v bucket' key' wanted db db' files
      files' es m n n' x xv x' hv hw can g held h =
    elim (Bool-cases (lock_holds now (get_object B C bucket key v db))) [
      | inl l ↦ absurd (ground arith)
      | inr l ↦
          let p : remove_object B C data_dir bucket key v (db, files) ≡ (db', files') =
            ok-injective (rw (hv, l, delete_unlocked, delete_object) at h) in
          let (r, d, q) = removed_db B C data_dir bucket key v db files in
          by r d (sym q ∙ ap (λ (s : B.Db × Files). s.0) p) l
    ]
  where
    by :
        (r : Result B.Db)
        → Objects.delete_object B C bucket key v db ≡ r
        → (elim r [ err e ↦ db | ok d ↦ d ]) ≡ db'
        → lock_holds now (get_object B C bucket key v db) ≡ false
        → IsFound (get_object B C bucket' key' wanted db')
    by (err e) d q l = rw⁻¹ q (m, g)
    by (ok d') d q l = rw⁻¹ q (
        rw
          (get_object-delete_newest B L C db d' bucket key v bucket' key' wanted es n n' x xv x' hv
            can d)
          (kept B C now bucket key v bucket' key' wanted (newest C none (remaining B L C key v es))
            db m hw g (IsHeld-is_locked now m held) l))
