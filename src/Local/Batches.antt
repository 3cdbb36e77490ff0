-- ===== src/Local/Batches.antt =====
-- DeleteObjects of internal/storage/local/local.go.
use go_s.Prelude.{ℕ, suc, Bytes, Result, ok, err, Error, List, [], ◌∷◌, ◌++◌}
use go_s.Bolt.{Bolt, Codec}
use go_s.Storage.{Time, BucketInfo, ObjectMeta}
use go_s.Local.Objects.{Files, delete_object}

pub record ObjectIdentifier : Type 0 where
  pub key : Bytes
  pub version_id : Bytes

-- A `DeleteError` of DeleteObjects, whose code is always InternalError, with the error whose text is
-- its message.
pub record DeleteResult : Type 0 where
  pub deleted : List ObjectIdentifier
  pub errors : List (ObjectIdentifier × Error)

abbrev pub add_deleted : ObjectIdentifier → Result (Unit {0}) → DeleteResult → DeleteResult
add_deleted k (ok _) res = record res { deleted = res.deleted ++ k ∷ [] }
add_deleted k (err e) res = record res { errors = res.errors ++ (k, e) ∷ [] }

-- The outcome of a deletion, which changes nothing where it is an error.
abbrev pub outcome : {S : Type 0} → S → Result S → Result (Unit {0}) × S
outcome s (ok s') = (ok tt, s')
outcome s (err e) = (err e, s)

module _ (B : Bolt) (CB : Codec BucketInfo) (C : Codec ObjectMeta) where
  -- The k-th deletion has the k-th of the new UUIDs and of the times.
  unfoldable pub delete_all :
      Bytes
      → (ℕ → Bytes × Time)
      → Bytes
      → ℕ
      → List ObjectIdentifier
      → DeleteResult
      → B.Db × Files
      → DeleteResult × (B.Db × Files)
  delete_all data_dir draws bucket n [] res s = (res, s)
  delete_all data_dir draws bucket n (k ∷ ks) res s =
      let (uuid, now) = draws n in
      let (r, s') =
        outcome s (delete_object B CB C data_dir uuid now bucket k.key k.version_id s) in
      delete_all data_dir draws bucket (suc n) ks (add_deleted k r res) s'

  unfoldable pub delete_objects :
      Bytes
      → (ℕ → Bytes × Time)
      → Bytes
      → List ObjectIdentifier
      → B.Db × Files
      → DeleteResult × (B.Db × Files)
  unfolding delete_all
  delete_objects data_dir draws bucket keys s =
      delete_all data_dir draws bucket 0 keys (record { deleted = []; errors = [] }) s
