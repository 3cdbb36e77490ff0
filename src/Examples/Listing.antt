-- ===== src/Examples/Listing.antt =====
-- The theorems on ListObjects, at a bucket of three objects, two of them below a common prefix.
use go_s.Prelude.{
  arith, inr, ◌++◌, All, if◌then◌else◌, take, drop, codes, ok, none, some, List, [], ◌∷◌, true, ◌≡◌,
  refl, bytes_eq, bytes_lt, has_prefix, index_of,
}
use go_s.Bolt.{Entries, IsSorted, lookup}
use go_s.Bolt.Sample.{memory, memory-Laws, MemDb}
use go_s.Metadata.Names.{objects_of}
use go_s.Storage.{ObjectInfo}
use go_s.Metadata.Listing.{
  info_of, add_object, list_objects, start_at, list_loop, list_turn, roll_up, common_prefix,
}
use go_s.Metadata.Listing.Pages.{list_objects_lem, Decodes}
use go_s.Metadata.Listing.Continuation.{list_objects-continue}
use go_s.Metadata.Listing.Bounds.{list_objects-IsSound, IsSound}
use go_s.Metadata.Listing.Gaps.{nth_page, list_objects-stuck}
use go_s.Metadata.Names.{versions_of, version_key}
use go_s.Metadata.Listing.Versions.{
  VersionsPage, list_object_versions, versions_loop, start_versions,
}
use go_s.Metadata.Listing.Versions.Termination.{list_object_versions_total}
use go_s.Metadata.Listing.Versions.Stuck.{list_object_versions-stuck}
use go_s.Local.Listing.Walk.{walk, walk_lem}
use go_s.Examples.Stores.{meta_of, meta_codec, docs}

abbrev rows : Entries
rows = (codes "a/1", 1 ∷ 1 ∷ []) ∷ (codes "a/2", 2 ∷ 1 ∷ []) ∷ (codes "b", 3 ∷ 1 ∷ []) ∷ []

rows-IsSorted : IsSorted rows
unfolding bytes_lt
rows-IsSorted = ((refl, (refl, tt)), ((refl, tt), (tt, tt)))

unfoldable three_objects : MemDb
unfolding rows-IsSorted
three_objects name =
    if bytes_eq name (codes "objects:docs") then some (rows, rows-IsSorted) else none

abbrev shown : List ObjectInfo
shown =
    info_of (codes "a/1") (meta_of 1 true [])
    ∷ info_of (codes "a/2") (meta_of 2 true [])
    ∷ info_of (codes "b") (meta_of 3 true [])
    ∷ []

rows-Decode : All (Decodes meta_codec) rows
rows-Decode = ((_, refl), ((_, refl), ((_, refl), tt)))

list_objects_lem_example :
    list_objects memory meta_codec docs [] [] (codes "a/1") 5 three_objects
    ≡ ok (record { objects = drop 1 shown; common_prefixes = []; next_marker = [] })
unfolding three_objects objects_of bytes_eq bytes_lt has_prefix
list_objects_lem_example =
    list_objects_lem meta_codec [] (codes "a/1") memory memory-Laws three_objects docs 5 rows refl
      rows-Decode refl

list_objects-continue_example :
    (take 2 shown ≡ take 2 shown)
    × (list_objects memory meta_codec docs [] [] (codes "a/2") 2 three_objects
        ≡ ok (record { objects = drop 2 shown; common_prefixes = []; next_marker = [] }))
unfolding three_objects objects_of bytes_eq bytes_lt list_objects list_loop list_turn start_at
    has_prefix add_object common_prefix
list_objects-continue_example =
    list_objects-continue meta_codec [] [] memory memory-Laws three_objects docs 2 rows
      (record { objects = take 2 shown; common_prefixes = []; next_marker = codes "a/2" }) refl
      rows-Decode refl refl refl

list_objects-IsSound_example : IsSound [] (codes "/") 1 [] (codes "a/" ∷ [])
unfolding three_objects objects_of bytes_eq list_objects list_loop list_turn start_at has_prefix
    common_prefix index_of roll_up
list_objects-IsSound_example =
    list_objects-IsSound meta_codec [] (codes "/") 1 memory three_objects docs []
      (record { objects = []; common_prefixes = codes "a/" ∷ []; next_marker = codes "a/" }) refl

list_objects-stuck_example :
    nth_page memory meta_codec docs [] (codes "/") 1 three_objects 7 (codes "a/")
    ≡ ok (record { objects = []; common_prefixes = codes "a/" ∷ []; next_marker = codes "a/" })
unfolding three_objects objects_of bytes_eq bytes_lt has_prefix index_of lookup
list_objects-stuck_example =
    list_objects-stuck memory memory-Laws meta_codec three_objects docs [] (codes "a") []
      (codes "a/2") (2 ∷ 1 ∷ []) b'/' 7 rows refl refl refl refl refl

-- Two versions of one key and one of another, below a common prefix.
abbrev version_rows : Entries
version_rows =
    (codes "a/1" ++ 0 ∷ codes "v1", 1 ∷ 0 ∷ codes "v1")
    ∷ (codes "a/1" ++ 0 ∷ codes "v2", 2 ∷ 1 ∷ codes "v2")
    ∷ (codes "b" ++ 0 ∷ codes "v3", 3 ∷ 1 ∷ codes "v3")
    ∷ []

version_rows-IsSorted : IsSorted version_rows
unfolding bytes_lt
version_rows-IsSorted = ((refl, (refl, tt)), ((refl, tt), (tt, tt)))

unfoldable three_versions : MemDb
three_versions name =
    if bytes_eq name (codes "versions:docs")
    then some (version_rows, version_rows-IsSorted)
    else none

list_object_versions_total_example :
    (page : VersionsPage) × (list_object_versions memory meta_codec docs []
        (codes "/")
        []
        []
        5
        three_versions
      ≡ ok (some page))
unfolding three_versions versions_of bytes_eq
list_object_versions_total_example =
    list_object_versions_total memory memory-Laws meta_codec three_versions docs [] (codes "/") []
      [] 5 version_rows refl (inr (omega arith))

-- A delimiter of the byte 255, in a bucket with one version of one key.
abbrev odd_rows : Entries
odd_rows = (97 ∷ 255 ∷ 98 ∷ 0 ∷ codes "v1", 1 ∷ 1 ∷ codes "v1") ∷ []

unfoldable odd_key : MemDb
odd_key name = if bytes_eq name (codes "versions:docs") then some (odd_rows, (tt, tt)) else none

list_object_versions-stuck_example :
    (versions_loop meta_codec odd_rows []
        (255 ∷ [])
        []
        1000
        100
        (start_versions [] [] odd_rows)
        []
        []
        []
      ≡ none)
    × (list_object_versions memory meta_codec docs [] (255 ∷ []) [] [] 1000 odd_key ≡ ok none)
unfolding odd_key versions_of bytes_eq version_key index_of has_prefix
list_object_versions-stuck_example =
    list_object_versions-stuck memory meta_codec odd_key docs [] (97 ∷ []) [] (97 ∷ []) (98 ∷ [])
      (codes "v1") (1 ∷ 1 ∷ codes "v1") [] 255 1000 100 [] refl
      (omega arith, (omega arith, (omega arith, tt))) refl refl (omega arith)

walk_lem_example : walk memory meta_codec docs (codes "a/") 1 three_objects 5 [] ≡ ok (take 2 shown)
unfolding three_objects objects_of bytes_eq bytes_lt has_prefix
walk_lem_example =
    walk_lem memory meta_codec docs (codes "a/") 1 three_objects memory-Laws rows 5 [] refl
      rows-Decode (refl, (refl, (refl, tt))) refl (omega arith)
