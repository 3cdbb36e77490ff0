-- ===== src/Examples/Objects.antt =====
-- The theorems on the object methods, at a bucket that holds two versions of one key.
use go_s.Prelude.{
  ◌++◌, Bool-cases, inl, inr, sym, ap, ◌∙◌, Option, none, some, List, ok-injective, bytes_eq,
  bytes_lt, Bytes, codes, ok, [], ◌∷◌, Bool, true, ◌≡◌, refl, ◌≤◌, length, arith,
}
use go_s.Bolt.{Entries, lookup, insert, FitsValue}
use mathlib.Core.Path.{subst}
use go_s.Bolt.Handles.{b_put}
use go_s.Bolt.Sample.{memory, memory-Laws, MemDb}
use go_s.Storage.{Time, ObjectMeta}
use go_s.Metadata.Names.{objects_of, versions_of, version_key, NoNul}
use go_s.Metadata.Rows.Laws.{IsWritable}
use go_s.Metadata.Objects.{put_object, get_object, delete_object}
use go_s.Metadata.Objects.Replay.{put, remove as remove_object, Write, run, Replays, get_object-run}
use go_s.Metadata.Objects.RoundTrip.{get_object-put_object}
use go_s.Metadata.Objects.Deletion.{get_object-delete_object, IsLeft, is_first, version_rows}
use go_s.Metadata.Objects.Promote.{CanPromote}
use go_s.Metadata.Objects.OneVersion.{get_object-delete_version, after_delete}
use go_s.Metadata.Objects.NewestLeft.{IsVersionLeft, IsNewestLeft}
use go_s.Examples.Stores.{plain, flag, meta_of, meta_codec, made, with_docs, docs}

abbrev key : Bytes
key = codes "a"

abbrev first : ObjectMeta
first = meta_of 1 true (codes "v1")

abbrev second : ObjectMeta
second = meta_of 2 true (codes "v2")

unfoldable one_version : MemDb
unfolding put_object
one_version = made (put_object memory meta_codec docs key first with_docs)

unfoldable two_versions : MemDb
unfolding put_object one_version
two_versions = made (put_object memory meta_codec docs key second one_version)

unfoldable one_left : MemDb
unfolding delete_object two_versions
one_left = made (delete_object memory meta_codec docs key (codes "v2") two_versions)

unfoldable none_left : MemDb
unfolding delete_object two_versions
none_left = made (delete_object memory meta_codec docs key [] two_versions)

key-NoNul : NoNul key
key-NoNul = (omega arith, tt)

writable : (m : ObjectMeta) → m ≡ plain m → length m.version_id ≤ 10 → IsWritable meta_codec key m
writable m e h = record {
  stable = e;
  fits_key = (omega arith, omega arith);
  fits_value =
      λ text t. subst FitsValue (ok-injective t) (fits m.last_modified m.is_latest m.version_id h);
}
  where
    fits : (t : Time) (l : Bool) (vid : Bytes) → length vid ≤ 10 → FitsValue (t ∷ flag l ∷ vid)
    fits t l vid h = omega arith

get_object-put_object_example : get_object memory meta_codec docs key [] two_versions ≡ ok second
unfolding two_versions one_version put_object objects_of bytes_eq b_put versions_of version_key
get_object-put_object_example =
    get_object-put_object memory memory-Laws meta_codec one_version two_versions docs key docs key
      [] second refl key-NoNul key-NoNul (_, refl) refl

get_object-delete_object_example :
    IsLeft true
      (is_first
        (version_key key (codes "v1"))
        (version_rows memory memory-Laws meta_codec docs key two_versions))
      (get_object memory meta_codec docs key (codes "v1") two_versions)
      (get_object memory meta_codec docs key (codes "v1") none_left)
unfolding none_left two_versions one_version put_object delete_object objects_of bytes_eq b_put
    versions_of version_key
get_object-delete_object_example =
    get_object-delete_object memory memory-Laws meta_codec two_versions none_left docs key docs key
      (codes "v1") key-NoNul key-NoNul (_, refl) refl

-- The rows of the two versions. Without the second only the first is left, and it can be written.
abbrev both : Entries
both =
    (codes "a" ++ 0 ∷ codes "v1", 1 ∷ 1 ∷ codes "v1")
    ∷ (codes "a" ++ 0 ∷ codes "v2", 2 ∷ 1 ∷ codes "v2")
    ∷ []

of_both : (k text : Bytes) → IsVersionLeft key (codes "v2") both k text → text ≡ 1 ∷ 1 ∷ codes "v1"
unfolding lookup version_key
of_both k text (l, p, e) = elim (Bool-cases (bytes_eq k (codes "a" ++ 0 ∷ codes "v1"))) [
  | inl h ↦ cc (rw h at l)
  | inr h ↦ cc (rw (h, e) at l)
]

first-CanPromote :
    (best : Option ObjectMeta)
    → IsNewestLeft meta_codec key (codes "v2") both best
    → CanPromote meta_codec key best
unfolding version_key
first-CanPromote none h = tt
first-CanPromote (some m) ((k, text, l, u), h) =
    let same : first ≡ m = cc (ap (meta_codec.unmarshal) (sym (of_both k text l)) ∙ u) in
    subst (λ n. CanPromote meta_codec key (some n)) same
      (writable first refl (omega arith), (omega arith, omega arith))

get_object-delete_version_example :
    (best : Option ObjectMeta) × (IsNewestLeft meta_codec key (codes "v2") both best
      × (get_object memory meta_codec docs key [] one_left
          ≡ after_delete best
              (codes "v2")
              []
              (get_object memory meta_codec docs key [] two_versions)))
unfolding one_left two_versions one_version put_object delete_object objects_of bytes_eq b_put
    versions_of version_key bytes_lt insert
get_object-delete_version_example =
    get_object-delete_version memory memory-Laws meta_codec two_versions one_left docs key
      (codes "v2") docs key [] both key-NoNul key-NoNul (_, refl) refl (_, refl) refl
      first-CanPromote refl

-- A put, a deletion, a put of no key, which the database refuses, and another put.
abbrev writes : List Write
writes = put docs key first ∷ remove_object docs key ∷ put docs [] first ∷ put docs key second ∷ []

get_object-run_example :
    Replays docs key []
      (run memory meta_codec writes with_docs).1
      (get_object memory meta_codec docs key [] with_docs)
      (get_object memory meta_codec docs key [] (run memory meta_codec writes with_docs).0)
unfolding bytes_eq objects_of
get_object-run_example =
    get_object-run memory meta_codec memory-Laws writes with_docs docs key []
      ((refl, key-NoNul), (key-NoNul, ((refl, tt), ((refl, key-NoNul), tt)))) key-NoNul (_, refl)
