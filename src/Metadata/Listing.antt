-- ===== src/Metadata/Listing.antt =====
-- ListObjects of internal/storage/metadata/bbolt.go: the keys of a bucket from a marker on, with the
-- keys that hold the delimiter rolled up into common prefixes. `max_keys` is an int there; one below
-- 1 acts as 1, so the model takes a natural number.
pub mod Versions
pub mod Start
pub mod Pages
pub mod Continuation
pub mod Bounds
pub mod RolledUp
pub mod Gaps
use go_s.Prelude.{
  is_empty, ℕ, ◌+◌, Bytes, Result, ok, err, Error, json, bucket_not_found, Option, none, some, List,
  [], ◌∷◌, ◌++◌, Bool, not, ◌&&◌, if◌then◌else◌, leb, bytes_eq, has_prefix, index_of, length, take,
  drop, any,
}
use go_s.Bolt.{Bolt, Codec, Entries, seek}
use go_s.Storage.{ObjectMeta, ObjectInfo}
use go_s.Metadata.Names.{objects_of}

-- What a listing returns: the objects, the common prefixes and the marker of the next page.
pub record Page : Type 0 where
  pub objects : List ObjectInfo
  pub common_prefixes : List Bytes
  pub next_marker : Bytes

-- How one turn of the loop ends.
pub data Turn : Type 0 where
  -- `break`, or a return of what was found
  done : Page → Turn
  failed : Error → Turn
  -- on to the next key, with the objects and prefixes so far
  next : List ObjectInfo → List Bytes → Turn

abbrev pub info_of : Bytes → ObjectMeta → ObjectInfo
info_of key meta = record {
  key = key;
  version_id = meta.version_id;
  is_latest = meta.is_latest;
  is_delete_marker = meta.is_delete_marker;
  last_modified = meta.last_modified;
  etag = meta.etag;
  size = meta.size;
  storage_class = meta.storage_class;
  owner = [];
}

-- prefix + rem[:idx+len(delimiter)], if the delimiter is set and stands in the rest of the key.
unfoldable pub common_prefix : Bytes → Bytes → Bytes → Option Bytes
common_prefix pfx delimiter key = elim delimiter [
  | [] ↦ none
  | d ∷ ds ↦ elim (index_of (drop (length pfx) key) (d ∷ ds)) [
    | none ↦ none
    | some idx ↦ some (pfx ++ take (idx + length (d ∷ ds)) (drop (length pfx) key))
  ]
]

-- Where the cursor starts: past the marker, or at the prefix, or at the first key.
unfoldable pub skip_marker : Bytes → Entries → Entries
skip_marker marker [] = []
skip_marker marker ((k, v) ∷ es) = if bytes_eq k marker then es else (k, v) ∷ es

unfoldable pub start_at : Bytes → Bytes → Entries → Entries
unfolding skip_marker
start_at pfx marker es =
    if not (is_empty marker)
    then skip_marker marker (seek marker es)
    else if not (is_empty pfx)
    then seek pfx es
    else es

module _ (C : Codec ObjectMeta) (pfx delimiter : Bytes) (max_keys : ℕ) where
  -- A key under a common prefix, that may have been met before.
  unfoldable pub roll_up : Bytes → List ObjectInfo → List Bytes → Turn
  roll_up p objects prefixes =
      if any (bytes_eq p) prefixes
      then next objects prefixes
      else if leb max_keys (length objects + length (prefixes ++ p ∷ []))
      then done
          (record { objects = objects; common_prefixes = prefixes ++ p ∷ []; next_marker = p })
      else next objects (prefixes ++ p ∷ [])

  unfoldable pub add_object : Bytes → Option ObjectMeta → List ObjectInfo → List Bytes → Turn
  add_object key none objects prefixes = failed json
  add_object key (some meta) objects prefixes =
      if leb max_keys (length (objects ++ info_of key meta ∷ []) + length prefixes)
      then done (record {
        objects = objects ++ info_of key meta ∷ [];
        common_prefixes = prefixes;
        next_marker = key;
      })
      else next (objects ++ info_of key meta ∷ []) prefixes

  -- The body of the loop.
  unfoldable pub list_turn : Bytes → Bytes → List ObjectInfo → List Bytes → Turn
  unfolding roll_up add_object common_prefix
  list_turn key text objects prefixes =
      if not (is_empty pfx) && not (has_prefix key pfx)
      then done (record { objects = objects; common_prefixes = prefixes; next_marker = [] })
      else elim (common_prefix pfx delimiter key) [
        | some p ↦ roll_up p objects prefixes
        | none ↦ add_object key (C.unmarshal text) objects prefixes
      ]

  unfoldable pub list_loop : Entries → List ObjectInfo → List Bytes → Result Page
  list_loop [] objects prefixes =
      ok (record { objects = objects; common_prefixes = prefixes; next_marker = [] })
  list_loop ((k, v) ∷ es) objects prefixes = elim (list_turn k v objects prefixes) [
    | next objects' prefixes' ↦ list_loop es objects' prefixes'
    | done page ↦ ok page
    | failed e ↦ err e
  ]

module _ (B : Bolt) (C : Codec ObjectMeta) where
  unfoldable pub list_objects : Bytes → Bytes → Bytes → Bytes → ℕ → B.Db → Result Page
  unfolding list_loop list_turn start_at
  list_objects bucket pfx delimiter marker max_keys db = elim (B.bucket db (objects_of bucket)) [
    | none ↦ err bucket_not_found
    | some es ↦ list_loop C pfx delimiter max_keys (start_at pfx marker es) [] []
  ]
