-- ===== src/Examples/Buckets.antt =====
-- The theorems on buckets, at a database with one bucket.
use mathlib.Core.Path.{subst}
use go_s.Prelude.{
  Bytes, codes, ok, err, bucket_not_found, bucket_exists, none, Bool, false, ◌≡◌, refl, arith,
  ok-injective, bytes_eq, is_empty,
}
use go_s.Bolt.{lookup, insert, FitsValue}
use go_s.Bolt.Handles.{Exists, value, b_put, b_get}
use go_s.Bolt.Sample.{memory, memory-Laws, MemDb}
use go_s.Storage.{Time}
use go_s.Metadata.Names.{objects_of}
use go_s.Metadata.Rows.{write_row}
use go_s.Metadata.Rows.Laws.{IsWritable}
use go_s.Metadata.Buckets.{create_bucket, get_bucket, delete_bucket, new_info}
use go_s.Metadata.Objects.{get_object}
use go_s.Metadata.Buckets.Lifecycle.{create_bucket_lem, delete_bucket_lem}
use go_s.Examples.Stores.{info_named, bucket_codec, meta_codec, made, fresh, docs}

unfoldable with_bucket : MemDb
unfolding create_bucket
with_bucket = made (
    create_bucket memory bucket_codec docs (codes "us-east-1") (codes "root") (codes "private")
      false 7 fresh)

docs-IsWritable : IsWritable bucket_codec docs (info_named docs)
docs-IsWritable = record {
  stable = refl;
  fits_key = (omega arith, omega arith);
  fits_value = λ text t. subst FitsValue (ok-injective t) (omega arith);
}

create_bucket_lem_example :
    (db : memory.Db) × (create_bucket memory bucket_codec docs
        (codes "us-east-1")
        (codes "root")
        (codes "private")
        false
        7
        fresh
      ≡ ok db)
    × (get_bucket memory bucket_codec docs db
        ≡ ok (new_info docs (codes "us-east-1") (codes "root") (codes "private") false 7))
    × Exists memory db (objects_of docs)
    × ((other : Bytes)
        → bytes_eq other docs ≡ false
        → get_bucket memory bucket_codec other db ≡ get_bucket memory bucket_codec other fresh)
    × ((r o a : Bytes) (k : Bool) (t : Time)
        → create_bucket memory bucket_codec docs r o a k t db ≡ err bucket_exists)
unfolding value lookup objects_of bytes_eq
create_bucket_lem_example =
    create_bucket_lem memory memory-Laws bucket_codec fresh docs (codes "us-east-1") (codes "root")
      (codes "private") false 7 (_, refl) refl docs-IsWritable (omega arith, omega arith)

delete_bucket_lem_example :
    (db : memory.Db) × (delete_bucket memory docs with_bucket ≡ ok db)
    × (get_bucket memory bucket_codec docs db ≡ err bucket_not_found)
    × (memory.bucket db (objects_of docs) ≡ none)
    × ((other : Bytes)
        → bytes_eq other docs ≡ false
        → get_bucket memory bucket_codec other db
          ≡ get_bucket memory bucket_codec other with_bucket)
    × ((key vid : Bytes)
        → is_empty vid ≡ false
        → get_object memory meta_codec docs key vid db
          ≡ get_object memory meta_codec docs key vid with_bucket)
unfolding with_bucket create_bucket objects_of bytes_eq b_put b_get lookup write_row value insert
delete_bucket_lem_example =
    delete_bucket_lem memory memory-Laws bucket_codec meta_codec with_bucket docs docs (_, refl)
      refl refl
