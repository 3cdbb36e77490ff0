-- ===== src/Examples/Backend.antt =====
-- The theorems on the object backend: a key that leads to another bucket, a version on legal hold, and
-- a delete marker.
use mathlib.Core.Path.{subst}
use go_s.Prelude.{
  inr, sym, ap, Bytes, codes, ok, Option, none, some, [], ◌∷◌, true, ◌≡◌, refl, arith, ok-injective,
  bytes_eq, bytes_lt, has_prefix, split,
}
use go_s.Bolt.{Codec, FitsValue, lookup, insert, remove, scan, decode}
use go_s.Bolt.Handles.{b_put, b_get}
use go_s.Bolt.Sample.{memory, memory-Laws, MemDb}
use go_s.Storage.{ObjectMeta}
use go_s.Metadata.Names.{objects_of, versions_of, version_key, version_prefix, NoNul}
use go_s.Metadata.Rows.{write_row, read_row}
use go_s.Metadata.Rows.Laws.{IsWritable}
use go_s.Metadata.Buckets.{get_bucket}
use go_s.Metadata.Objects
use go_s.Metadata.Objects.{put_object, get_object, newest, promote}
use go_s.Local.Paths.{safe_path}
use go_s.Local.Paths.Escape.{IsName, safe_path-detour}
use go_s.Local.Objects.{
  unlink, Files, delete_object, delete_marker, delete_unlocked, remove_object, is_locked,
}
use go_s.Local.Objects.Locks.{IsFound, IsFound-delete_object}
use go_s.Local.Objects.Markers.{get_object-delete_object_marked}
use go_s.Examples.Stores.{held, status_codec, versioned, versioned_codec, made, with_docs, docs}

docs-IsName : IsName docs
unfolding split bytes_eq
docs-IsName = record { nonempty = refl; whole = refl; not_here = refl; not_up = refl }

abbrev secret : Bytes
secret = codes "secret"

secret-IsName : IsName secret
unfolding split bytes_eq
secret-IsName = record { nonempty = refl; whole = refl; not_here = refl; not_up = refl }

safe_path-detour_example :
    safe_path (codes "/data") docs (codes "../../secret/objects/plan") (codes "@null")
    ≡ safe_path (codes "/data") secret (codes "plan") (codes "@null")
safe_path-detour_example =
    safe_path-detour (codes "/data") docs secret (codes "plan") (codes "@null") docs-IsName
      secret-IsName refl refl

abbrev key : Bytes
key = codes "a"

key-NoNul : NoNul key
key-NoNul = (omega arith, tt)

-- Two versions on legal hold, of which one is asked to go by another ID that is not there.
abbrev hold_codec : Codec ObjectMeta
hold_codec = status_codec (codes "ON")

abbrev first : ObjectMeta
first = held (codes "ON") 1 true (codes "v1")

unfoldable one_held : MemDb
unfolding put_object
one_held = made (put_object memory hold_codec docs key first with_docs)

unfoldable still_held : MemDb
unfolding Objects.delete_object one_held
still_held = made (Objects.delete_object memory hold_codec docs key (codes "v0") one_held)

abbrev no_files : Files
no_files path = none

first-IsWritable : IsWritable hold_codec key first
first-IsWritable = record {
  stable = refl;
  fits_key = (omega arith, omega arith);
  fits_value = λ text t. subst FitsValue (ok-injective t) (omega arith);
}

IsFound-delete_object_example :
    IsFound (get_object memory hold_codec docs key (codes "v1") still_held)
unfolding still_held one_held put_object Objects.delete_object delete_object delete_unlocked
    remove_object is_locked get_object objects_of versions_of bytes_eq b_put version_key
    version_prefix insert remove scan newest promote bytes_lt has_prefix lookup decode
IsFound-delete_object_example =
    IsFound-delete_object memory memory-Laws (versioned_codec []) hold_codec (codes "/data")
      (codes "v9") 5 docs key (codes "v0") docs key (codes "v1") one_held still_held no_files
      (unlink (codes "/data") docs key (codes "v0") no_files) _ first key-NoNul key-NoNul (_, refl)
      refl (_, refl) refl refl (first-IsWritable, (omega arith, omega arith)) refl (inr refl) refl

-- A bucket with versioning enabled that holds one object.
unfoldable with_bucket : MemDb
unfolding write_row
with_bucket = made (
    write_row memory (versioned_codec (codes "Enabled")) with_docs (codes "buckets") docs
      (versioned (codes "Enabled") docs))

abbrev read_marker : Bytes → Option ObjectMeta
read_marker [] = none
read_marker (t ∷ vid) = some (delete_marker vid t)

-- An encoding that keeps delete markers.
abbrev marker_codec : Codec ObjectMeta
marker_codec = record {
  marshal = λ m. ok (m.last_modified ∷ m.version_id);
  unmarshal = read_marker;
  Stable = λ m. m ≡ delete_marker m.version_id m.last_modified;
  marshal_total = λ m s. (_, refl);
  marshal_error = λ m e h. cc;
  unmarshal_marshal =
      λ m d s h. subst (λ d. read_marker d ≡ some m) (ok-injective h) (ap (λ m. some m) (sym s));
}

unfoldable marked : MemDb
unfolding put_object with_bucket
marked = made (put_object memory marker_codec docs key (delete_marker (codes "v9") 5) with_bucket)

get_object-delete_object_marked_example :
    (no_files ≡ no_files)
    × (get_object memory marker_codec docs key [] marked ≡ ok (delete_marker (codes "v9") 5))
unfolding marked with_bucket put_object delete_object get_bucket read_row b_get lookup insert
    bytes_eq b_put write_row objects_of decode versions_of version_key
get_object-delete_object_marked_example =
    get_object-delete_object_marked memory memory-Laws (versioned_codec (codes "Enabled"))
      marker_codec (codes "/data") (codes "v9") 5 docs key docs key [] with_bucket marked no_files
      no_files (versioned (codes "Enabled") docs) refl refl refl key-NoNul key-NoNul (_, refl) refl
