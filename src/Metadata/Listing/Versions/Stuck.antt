-- ===== src/Metadata/Listing/Versions/Stuck.antt =====
-- A listing of ListObjectVersions that does not end.
use go_s.Prelude.{
  is_empty, ℕ, zero, suc, ◌<◌, ◌≡◌, refl, ap, ◌∙◌, Bytes, ok, true, false, not, ◌&&◌, leb, arith,
  List, [], ◌∷◌, ◌++◌, none, some, has_prefix, has_prefix-append, append-of-has_prefix,
  bytes_eq_refl, bytes_lt, bytes_lt-of-has_prefix, index_of, take, drop, length, sym,
}
use go_s.Bolt.{Bolt, Codec, Entries, seek}
use go_s.Storage.{ObjectMeta}
use go_s.Metadata.Names.{versions_of, version_key, NoNul}
use go_s.Metadata.Listing.{common_prefix}
use go_s.Metadata.Listing.RolledUp.{common_prefix_under}
use go_s.Metadata.Listing.Versions.Jumps.{has_prefix_trans}
use go_s.Metadata.Listing.Versions.{
  next, bump_last, roll_up_versions, key_turn, versions_turn, versions_loop, start_versions,
  list_object_versions,
}

-- Where the last byte of a prefix is 255, raising it wraps round: what begins with the prefix stands
-- above the result.
not-lt-bump_last :
    (pre more : Bytes) → bytes_lt ((pre ++ 255 ∷ []) ++ more) (bump_last (pre ++ 255 ∷ [])) ≡ false
unfolding bytes_lt bump_last
not-lt-bump_last [] [] = refl
not-lt-bump_last [] (x ∷ more) = refl
not-lt-bump_last (y ∷ []) more = ground arith
not-lt-bump_last (y ∷ z ∷ pre) more = ground (arith, not-lt-bump_last (z ∷ pre) more)

seek-bump_last :
    (pre k v : Bytes) (es : Entries)
    → has_prefix k (pre ++ 255 ∷ []) ≡ true
    → seek (bump_last (pre ++ 255 ∷ [])) ((k, v) ∷ es) ≡ (k, v) ∷ es
seek-bump_last pre k v es h =
    let p = pre ++ 255 ∷ [] in
    let low : bytes_lt k (bump_last p) ≡ false =
      ap (λ t. bytes_lt t (bump_last p)) (append-of-has_prefix k p h)
      ∙ not-lt-bump_last pre (drop (length p) k) in
    rw low

index_of-version_key :
    (key vid : Bytes) → NoNul key → index_of (version_key key vid) (0 ∷ []) ≡ some (length key)
unfolding version_key index_of has_prefix
index_of-version_key [] vid n = ground arith
index_of-version_key (x ∷ key) vid n = ground (arith, index_of-version_key key vid n.1)

take-version_key : (key vid : Bytes) → take (length key) (version_key key vid) ≡ key
unfolding version_key
take-version_key [] vid = refl
take-version_key (x ∷ key) vid = ap (λ s. x ∷ s) (take-version_key key vid)

has_prefix-version_row : (key vid : Bytes) → has_prefix (version_key key vid) key ≡ true
unfolding version_key
has_prefix-version_row key vid = has_prefix-append key (0 ∷ vid)

module _ (C : Codec ObjectMeta) (pfx delimiter pre key vid v : Bytes) (max_keys : ℕ)
    (es : Entries) where
  abbrev prefix : Bytes
  prefix = pre ++ 255 ∷ []

  abbrev all_rows : Entries
  all_rows = (version_key key vid, v) ∷ es

  -- At the first row the cursor seeks past the prefix, and comes back to this row.
  stays :
      (prefixes prefixes' : List Bytes) (marker : Bytes)
      → NoNul key
      → has_prefix (version_key key vid) prefix ≡ true
      → has_prefix key pfx ≡ true
      → common_prefix pfx delimiter key ≡ some prefix
      → roll_up_versions C all_rows pfx delimiter [] max_keys prefix [] prefixes marker
        ≡ next (seek (bump_last prefix) all_rows) [] prefixes' marker
      → versions_turn C all_rows pfx delimiter [] max_keys
          (version_key key vid)
          v
          es
          []
          prefixes
          marker
        ≡ next all_rows [] prefixes' marker
  unfolding versions_turn key_turn
  stays prefixes prefixes' marker n under x c r =
      let g : not (is_empty pfx) && not (has_prefix key pfx) ≡ false = ground arith in
      let split_key : versions_turn C all_rows pfx delimiter [] max_keys (version_key key vid) v es
            [] prefixes marker
          ≡ key_turn C all_rows pfx delimiter [] max_keys (take (length key) (version_key key vid))
              all_rows [] prefixes marker =
        rw (index_of-version_key key vid n, versions_turn) refl in
      split_key
      ∙ ap (λ k. key_turn C all_rows pfx delimiter [] max_keys k all_rows [] prefixes marker)
          (take-version_key key vid)
      ∙ rw (g, key_turn, c, r)
          (ap (λ rows. next rows [] prefixes' marker)
            (seek-bump_last pre (version_key key vid) v es under))

  -- Once the prefix is met, the loop goes round for ever.
  stuck :
      (fuel : ℕ) (marker : Bytes)
      → NoNul key
      → has_prefix (version_key key vid) prefix ≡ true
      → has_prefix key pfx ≡ true
      → common_prefix pfx delimiter key ≡ some prefix
      → versions_loop C all_rows pfx delimiter [] max_keys fuel all_rows [] (prefix ∷ []) marker
        ≡ none
  unfolding versions_loop roll_up_versions
  stuck zero marker n under x c = refl
  stuck (suc fuel) marker n under x c =
      let again = stuck fuel marker n under x c in
      let turn =
        stays (prefix ∷ []) (prefix ∷ []) marker n under x c
          (rw (bytes_eq_refl prefix, roll_up_versions) refl) in
      rw (turn, versions_loop) again

  never_ends :
      (fuel : ℕ) (marker : Bytes)
      → NoNul key
      → has_prefix (version_key key vid) prefix ≡ true
      → has_prefix key pfx ≡ true
      → common_prefix pfx delimiter key ≡ some prefix
      → 1 < max_keys
      → versions_loop C all_rows pfx delimiter [] max_keys fuel all_rows [] [] marker ≡ none
  unfolding versions_loop roll_up_versions
  never_ends zero marker n under x c m = refl
  never_ends (suc fuel) marker n under x c m =
      let few : leb max_keys 1 ≡ false = ground (arith, m) in
      let turn = stays [] (prefix ∷ []) marker n under x c (rw (few, roll_up_versions) refl) in
      rw (turn, versions_loop) (stuck fuel marker n under x c)

  starts : has_prefix (version_key key vid) pfx ≡ true → start_versions pfx [] all_rows ≡ all_rows
  unfolding start_versions
  starts h = ground (arith, bytes_lt-of-has_prefix (version_key key vid) pfx h)

-- A ListObjectVersions without a key marker does not end, whatever fuel its loop is given, if the
-- first row of the bucket's versions belongs to a key under a common prefix whose last byte is 255
-- and a page has room for more than one entry: raising that byte wraps round to 0, and the Seek past
-- the prefix comes back to the same row. The prefix is that of the listing with a text after it that
-- ends where the delimiter first does; the key begins with it and holds no byte 0.
pub list_object_versions-stuck :
    (B : Bolt) (C : Codec ObjectMeta) (db : B.Db)
    (bucket pfx front ds pre more vid v marker : Bytes) (d max_keys fuel : ℕ) (es : Entries)
    → B.bucket db (versions_of bucket)
      ≡ some ((version_key ((pfx ++ (front ++ d ∷ ds)) ++ more) vid, v) ∷ es)
    → NoNul ((pfx ++ (front ++ d ∷ ds)) ++ more)
    → index_of (front ++ d ∷ ds) (d ∷ ds) ≡ some (length front)
    → pfx ++ (front ++ d ∷ ds) ≡ pre ++ 255 ∷ []
    → 1 < max_keys
    → let rows = (version_key ((pfx ++ (front ++ d ∷ ds)) ++ more) vid, v) ∷ es in
      (versions_loop C rows pfx (d ∷ ds) [] max_keys fuel (start_versions pfx [] rows) [] [] marker
        ≡ none)
      × (list_object_versions B C bucket pfx (d ∷ ds) [] marker max_keys db ≡ ok none)
unfolding list_object_versions
list_object_versions-stuck B C db bucket pfx front ds pre more vid v marker d max_keys fuel es e n
      first wraps m =
    (loops fuel, rw (e, list_object_versions) (ap (ok) (loops (length rows))))
  where
    p : Bytes
    p = pfx ++ (front ++ d ∷ ds)

    key : Bytes
    key = p ++ more

    rows : Entries
    rows = (version_key key vid, v) ∷ es

    in_listing : has_prefix key pfx ≡ true
    in_listing =
        has_prefix_trans key p pfx (has_prefix-append p more)
          (has_prefix-append pfx (front ++ d ∷ ds))

    row_under : has_prefix (version_key key vid) key ≡ true
    row_under = has_prefix-version_row key vid

    under : has_prefix (version_key key vid) (pre ++ 255 ∷ []) ≡ true
    under =
        ap (has_prefix (version_key key vid)) (sym wraps)
        ∙ has_prefix_trans (version_key key vid) key p row_under (has_prefix-append p more)

    rolled : common_prefix pfx (d ∷ ds) key ≡ some (pre ++ 255 ∷ [])
    rolled = common_prefix_under pfx front ds more d first ∙ ap (λ s. some s) wraps

    loops :
        (fuel : ℕ)
        → versions_loop C rows pfx
            (d ∷ ds)
            []
            max_keys
            fuel
            (start_versions pfx [] rows)
            []
            []
            marker
          ≡ none
    loops fuel =
        ap (λ (at : Entries). versions_loop C rows pfx (d ∷ ds) [] max_keys fuel at [] [] marker)
          (starts C pfx (d ∷ ds) pre key vid v max_keys es
            (has_prefix_trans (version_key key vid) key pfx row_under in_listing))
        ∙ never_ends C pfx (d ∷ ds) pre key vid v max_keys es fuel marker n under in_listing rolled
            m
