-- ===== src/Metadata/Listing/Versions.antt =====
-- ListObjectVersions of internal/storage/metadata/bbolt.go: the versions of the keys of a bucket,
-- newest first. The loop jumps by Seek, so it runs on fuel.
pub mod Jumps
pub mod Termination
pub mod Stuck
use go_s.Prelude.{
  is_empty, ℕ, zero, suc, ◌+◌, ◌%◌, Bytes, Result, ok, err, bucket_not_found, Option, none, some,
  List, [], ◌∷◌, ◌++◌, true, false, not, ◌&&◌, if◌then◌else◌, leb, bytes_eq, has_prefix, index_of,
  length, take, any, take_while, from_first,
}
use go_s.Bolt.{Bolt, Codec, Entries, seek}
use go_s.Storage.{ObjectMeta, ObjectInfo}
use go_s.Metadata.Names.{versions_of, version_prefix}
use go_s.Metadata.Listing.{info_of, common_prefix}

pub record VersionsPage : Type 0 where
  pub objects : List ObjectInfo
  pub common_prefixes : List Bytes
  pub next_key_marker : Bytes
  pub next_version_id_marker : Bytes

-- How one turn of the outer loop ends; `next` holds the cursor, the results and the marker so far.
pub data VersionsTurn : Type 0 where
  done : VersionsPage → VersionsTurn
  next : Entries → List ObjectInfo → List Bytes → Bytes → VersionsTurn

-- sort.Slice by LastModified, newest first; equal times stay in order.
unfoldable pub insert_newest : ObjectMeta → List ObjectMeta → List ObjectMeta
insert_newest m [] = m ∷ []
insert_newest m (n ∷ ns) =
    let rest = insert_newest m ns in
    if leb n.last_modified m.last_modified then m ∷ n ∷ ns else n ∷ rest

unfoldable pub sort_newest : List ObjectMeta → List ObjectMeta
unfolding insert_newest
sort_newest [] = []
sort_newest (m ∷ ms) = insert_newest m (sort_newest ms)

-- prefixEnd[len(prefixEnd)-1]++ on a byte
unfoldable pub bump_last : Bytes → Bytes
bump_last [] = []
bump_last (x ∷ []) = ((x + 1) % 256) ∷ []
bump_last (x ∷ y ∷ s) = x ∷ bump_last (y ∷ s)

module _ (C : Codec ObjectMeta) where
  abbrev pub add_meta : Option ObjectMeta → List ObjectMeta → List ObjectMeta
  add_meta none ms = ms
  add_meta (some m) ms = m ∷ ms

  -- The versions that decode.
  unfoldable pub decode_versions : Entries → List ObjectMeta
  decode_versions [] = []
  decode_versions ((k, v) ∷ es) = add_meta (C.unmarshal v) (decode_versions es)

module _ (C : Codec ObjectMeta) (all : Entries) (pfx delimiter key_marker : Bytes)
    (max_keys : ℕ) where
  -- The loop over the sorted versions of one key; `rest` is where the cursor stands after them.
  unfoldable pub emit :
      Bytes → Entries → List Bytes → List ObjectMeta → List ObjectInfo → Bytes → VersionsTurn
  emit key rest prefixes [] objects marker = next rest objects prefixes marker
  emit key rest prefixes (m ∷ ms) objects marker =
      elim (bytes_eq key_marker key && not (is_empty marker)) [
        | true ↦
            emit key rest prefixes ms objects (if bytes_eq m.version_id marker then [] else marker)
        | false ↦ elim (leb max_keys (length (objects ++ info_of key m ∷ []) + length prefixes)) [
          | true ↦ done (record {
            objects = objects ++ info_of key m ∷ [];
            common_prefixes = prefixes;
            next_key_marker = key;
            next_version_id_marker = m.version_id;
          })
          | false ↦ emit key rest prefixes ms (objects ++ info_of key m ∷ []) marker
        ]
      ]

  -- A key under a common prefix: the cursor seeks past it.
  unfoldable pub roll_up_versions : Bytes → List ObjectInfo → List Bytes → Bytes → VersionsTurn
  unfolding bump_last
  roll_up_versions p objects prefixes marker =
      if any (bytes_eq p) prefixes
      then next (seek (bump_last p) all) objects prefixes marker
      else if leb max_keys (length objects + length (prefixes ++ p ∷ []))
      then done (record {
        objects = objects;
        common_prefixes = prefixes ++ p ∷ [];
        next_key_marker = p;
        next_version_id_marker = [];
      })
      else next (seek (bump_last p) all) objects (prefixes ++ p ∷ []) marker

  -- A key whose text holds a byte 0, with the cursor at `rest`.
  unfoldable pub key_turn : Bytes → Entries → List ObjectInfo → List Bytes → Bytes → VersionsTurn
  unfolding roll_up_versions emit sort_newest decode_versions common_prefix
  key_turn key rest objects prefixes marker =
      if not (is_empty pfx) && not (has_prefix key pfx)
      then done (record {
        objects = objects;
        common_prefixes = prefixes;
        next_key_marker = [];
        next_version_id_marker = [];
      })
      else elim (common_prefix pfx delimiter key) [
        | some p ↦ roll_up_versions p objects prefixes marker
        | none ↦
            emit key (from_first (λ e. not (has_prefix e.0 (version_prefix key))) rest) prefixes
              (sort_newest
                (decode_versions C (take_while (λ e. has_prefix e.0 (version_prefix key)) rest)))
              objects marker
      ]

  -- strings.SplitN(string(k), "\x00", 2), and on to the next key if it gives one part.
  unfoldable pub versions_turn :
      Bytes → Bytes → Entries → List ObjectInfo → List Bytes → Bytes → VersionsTurn
  unfolding key_turn
  versions_turn k v es objects prefixes marker = elim (index_of k (0 ∷ [])) [
    | none ↦ next es objects prefixes marker
    | some i ↦ key_turn (take i k) ((k, v) ∷ es) objects prefixes marker
  ]

  -- `none` means that the fuel ran out.
  unfoldable pub versions_loop :
      ℕ → Entries → List ObjectInfo → List Bytes → Bytes → Option VersionsPage
  versions_loop fuel [] objects prefixes marker = some (record {
    objects = objects;
    common_prefixes = prefixes;
    next_key_marker = [];
    next_version_id_marker = [];
  })
  versions_loop zero ((k, v) ∷ es) objects prefixes marker = none
  versions_loop (suc fuel) ((k, v) ∷ es) objects prefixes marker =
      elim (versions_turn k v es objects prefixes marker) [
        | done page ↦ some page
        | next rest objects' prefixes' marker' ↦ versions_loop fuel rest objects' prefixes' marker'
      ]

unfoldable pub start_versions : Bytes → Bytes → Entries → Entries
start_versions pfx key_marker es =
    if not (is_empty key_marker)
    then seek key_marker es
    else if not (is_empty pfx)
    then seek pfx es
    else es

module _ (B : Bolt) (C : Codec ObjectMeta) where
  unfoldable pub list_object_versions :
      Bytes → Bytes → Bytes → Bytes → Bytes → ℕ → B.Db → Result (Option VersionsPage)
  unfolding versions_loop versions_turn start_versions
  list_object_versions bucket pfx delimiter key_marker version_id_marker max_keys db =
      elim (B.bucket db (versions_of bucket)) [
        | none ↦ err bucket_not_found
        | some es ↦ ok (
            versions_loop C es pfx delimiter key_marker max_keys (length es)
              (start_versions pfx key_marker es) [] [] version_id_marker)
      ]
