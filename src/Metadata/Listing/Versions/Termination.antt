-- ===== src/Metadata/Listing/Versions/Termination.antt =====
-- The loop of ListObjectVersions ends: each turn leaves the cursor before fewer rows.
use mathlib.Core.List.{append_assoc}
use mathlib.Core.Path.{subst}
use go_s.Prelude.{
  is_empty, ℕ, zero, suc, ◌+◌, ◌≤◌, ◌≡◌, refl, Bytes, ok, Bool, true, not, ◌&&◌, arith, Bool-cases,
  Option-cases, inl, inr, List, [], ◌∷◌, ◌++◌, some, has_prefix, bytes_lt, bytes_lt_trans, bytes_eq,
  any, leb, index_of, length, take, from_first, sym, ap, ◌⊎◌,
}
use go_s.Bolt.{Bolt, Laws, Codec, Entries, IsSorted, IsAbove, seek}
use go_s.Storage.{ObjectMeta, ObjectInfo}
use go_s.Metadata.Names.{versions_of, version_prefix}
use go_s.Metadata.Listing.{common_prefix, info_of}
use go_s.Metadata.Listing.Bounds.{prefix_holds}
use go_s.Metadata.Listing.Versions.{
  VersionsPage, VersionsTurn, done, next, bump_last, emit, roll_up_versions, key_turn,
  versions_turn, versions_loop, start_versions, list_object_versions,
}
use go_s.Metadata.Listing.Versions.Jumps.{
  EndsBelow, lt-bump_last, has_prefix-take, has_prefix_trans, take-index_of, common_prefix_lem,
}

-- The rows from some row on.
abbrev IsTail : Entries → Entries → Type 0
IsTail all rest = (front : Entries) × (all ≡ front ++ rest)

IsTail-from_first : (p : Bytes × Bytes → Bool) (es : Entries) → IsTail es (from_first p es)
IsTail-from_first p [] = ([], refl)
IsTail-from_first p (e ∷ es) = elim (Bool-cases (p e)) [
  | inl t ↦ ([], rw t)
  | inr f ↦ let (front, h) = IsTail-from_first p es in (e ∷ front, rw f (ap (λ t. e ∷ t) h))
]

IsTail-trans : (a b c : Entries) → IsTail a b → IsTail b c → IsTail a c
IsTail-trans a b c (f, h) (g, k) = (f ++ g, rw (h, k) (sym (append_assoc f g c)))

length-from_first : (p : Bytes × Bytes → Bool) (es : Entries) → length (from_first p es) ≤ length es
length-from_first p [] = omega arith
length-from_first p (e ∷ es) = ground (arith, length-from_first p es)

-- In sorted rows, a key stands below those after it.
below_at :
    (j : Bytes) (front : Entries) (k v : Bytes) (es : Entries)
    → IsAbove j (front ++ (k, v) ∷ es)
    → bytes_lt j k ≡ true
below_at j [] k v es a = a.0
below_at j (e ∷ front) k v es a = below_at j front k v es a.1

-- A Seek to a key above the one under the cursor moves the cursor on.
seek_past :
    (q : Bytes) (front : Entries) (k v : Bytes) (es : Entries)
    → IsSorted (front ++ (k, v) ∷ es)
    → bytes_lt k q ≡ true
    → length (seek q (front ++ (k, v) ∷ es)) ≤ length es
seek_past q [] k v es s h = rw h (length-from_first (λ e. not (bytes_lt e.0 q)) es)
seek_past q ((j, w) ∷ front) k v es s h =
    let a = bytes_lt_trans j k q (below_at j front k v es s.0) h in
    rw a (seek_past q front k v es s.1 h)

-- A turn that does not end the loop leaves the cursor at rows of the bucket, at most `es`.
abbrev Advances : Entries → Entries → VersionsTurn → Type 0
Advances all es (done page) = Unit {0}
Advances all es (next rest objects prefixes marker) = IsTail all rest × (length rest ≤ length es)

module _ (C : Codec ObjectMeta) (all : Entries) (pfx delimiter key_marker : Bytes)
    (max_keys : ℕ) where
  Advances-emit :
      (key : Bytes) (es rest : Entries) (prefixes : List Bytes) (ms : List ObjectMeta)
      (objects : List ObjectInfo) (marker : Bytes)
      → IsTail all rest
      → length rest ≤ length es
      → Advances all es
          (emit C all pfx delimiter key_marker max_keys key rest prefixes ms objects marker)
  unfolding emit
  Advances-emit key es rest prefixes [] objects marker t h = (t, h)
  Advances-emit key es rest prefixes (m ∷ ms) objects marker t h =
      elim (Bool-cases (bytes_eq key_marker key && not (is_empty marker))) [
        | inl e ↦ rw (e, emit, Advances) (Advances-emit key es rest prefixes ms objects _ t h)
        | inr e ↦
            elim (Bool-cases
              (leb max_keys (length (objects ++ info_of key m ∷ []) + length prefixes))) [
                | inl f ↦ rw (e, f, emit, Advances) tt
                | inr f ↦
                    rw (e, f, emit, Advances) (Advances-emit key es rest prefixes ms _ marker t h)
              ]
      ]

  Advances-roll_up :
      (p : Bytes) (es : Entries) (objects : List ObjectInfo) (prefixes : List Bytes)
      (marker : Bytes)
      → length (seek (bump_last p) all) ≤ length es
      → Advances all es
          (roll_up_versions C all pfx delimiter key_marker max_keys p objects prefixes marker)
  unfolding roll_up_versions
  Advances-roll_up p es objects prefixes marker h =
      let t = IsTail-from_first (λ e. not (bytes_lt e.0 (bump_last p))) all in
      elim (Bool-cases (any (bytes_eq p) prefixes)) [
        | inl e ↦ rw e (t, h)
        | inr e ↦ elim (Bool-cases (leb max_keys (length objects + length (prefixes ++ p ∷ [])))) [
          | inl f ↦ rw (e, f) tt
          | inr f ↦ rw (e, f) (t, h)
        ]
      ]

  Advances-key :
      (key k v : Bytes) (es : Entries) (objects : List ObjectInfo) (prefixes : List Bytes)
      (marker : Bytes)
      → (is_empty delimiter ≡ true) ⊎ EndsBelow delimiter
      → IsSorted all
      → IsTail all ((k, v) ∷ es)
      → has_prefix k key ≡ true
      → has_prefix k (version_prefix key) ≡ true
      → Advances all es (
          key_turn C all pfx delimiter key_marker max_keys key
            ((k, v) ∷ es)
            objects
            prefixes
            marker)
  unfolding key_turn
  Advances-key key k v es objects prefixes marker b s (front, t) hk hv =
      elim (Bool-cases (not (is_empty pfx) && not (has_prefix key pfx))) [
        | inl e ↦ rw (e, key_turn, Advances) tt
        | inr e ↦ elim (Option-cases (common_prefix pfx delimiter key)) [
          | inl n ↦
              let from =
                from_first (λ e. not (has_prefix e.0 (version_prefix key))) ((k, v) ∷ es) in
              let here =
                IsTail-from_first (λ e. not (has_prefix e.0 (version_prefix key))) ((k, v) ∷ es) in
              let less : length from ≤ length es =
                rw hv (length-from_first (λ e. not (has_prefix e.0 (version_prefix key))) es) in
              rw (e, n, key_turn)
                (Advances-emit key es from prefixes _ objects marker
                  (IsTail-trans all ((k, v) ∷ es) from (front, t) here) less)
          | inr (p, n) ↦
              let (below, hp) =
                common_prefix_lem pfx delimiter key p b (prefix_holds key pfx e) n in
              let up = lt-bump_last k p below (has_prefix_trans k key p hk hp) in
              let less : length (seek (bump_last p) all) ≤ length es =
                rw t (seek_past (bump_last p) front k v es (rw t at s) up) in
              rw (e, n, key_turn) (Advances-roll_up p es objects prefixes marker less)
        ]
      ]

  Advances-turn :
      (k v : Bytes) (es : Entries) (objects : List ObjectInfo) (prefixes : List Bytes)
      (marker : Bytes)
      → (is_empty delimiter ≡ true) ⊎ EndsBelow delimiter
      → IsSorted all
      → IsTail all ((k, v) ∷ es)
      → Advances all es
          (versions_turn C all pfx delimiter key_marker max_keys k v es objects prefixes marker)
  unfolding versions_turn version_prefix
  Advances-turn k v es objects prefixes marker b s t = elim (Option-cases (index_of k (0 ∷ []))) [
    | inl n ↦
        rw (n, versions_turn, Advances)
          (IsTail-trans all ((k, v) ∷ es) es t ((k, v) ∷ [], refl), omega arith)
    | inr (i, n) ↦
        rw (n, versions_turn)
          (Advances-key (take i k) k v es objects prefixes marker b s t (has_prefix-take i k) (
            subst (λ p. has_prefix k p ≡ true) (take-index_of k (0 ∷ []) i n)
              (has_prefix-take _ k)))
  ]

  loop_ends :
      (fuel : ℕ) (rest : Entries) (objects : List ObjectInfo) (prefixes : List Bytes)
      (marker : Bytes)
      → (is_empty delimiter ≡ true) ⊎ EndsBelow delimiter
      → IsSorted all
      → IsTail all rest
      → length rest ≤ fuel
      → (page : VersionsPage) × (versions_loop C all pfx delimiter key_marker max_keys fuel rest
            objects prefixes marker
          ≡ some page)
  unfolding versions_loop
  loop_ends fuel [] objects prefixes marker b s t h = (_, refl)
  loop_ends zero ((k, v) ∷ es) objects prefixes marker b s t h = absurd (omega arith)
  loop_ends (suc fuel) ((k, v) ∷ es) objects prefixes marker b s t h =
      after (versions_turn C all pfx delimiter key_marker max_keys k v es objects prefixes marker)
        (Advances-turn k v es objects prefixes marker b s t)
        (λ rest o p m u l. loop_ends fuel rest o p m b s u l)
    where
      after :
          (turn : VersionsTurn)
          → Advances all es turn
          → ((rest : Entries) (o : List ObjectInfo) (p : List Bytes) (m : Bytes)
              → IsTail all rest
              → length rest ≤ fuel
              → (page : VersionsPage) × (versions_loop C all pfx delimiter key_marker max_keys fuel
                    rest o p m
                  ≡ some page))
          → (page : VersionsPage) × ((elim turn [
            | done page ↦ some page
            | next rest o p m ↦
                versions_loop C all pfx delimiter key_marker max_keys fuel rest o p m
          ])
              ≡ some page)
      after (done page) a rec = (page, refl)
      after (next rest o p m) (u, l) rec = rec rest o p m u (omega (arith, l, h))

start_lem :
    (pfx key_marker : Bytes) (es : Entries)
    → IsTail es (start_versions pfx key_marker es)
      × (length (start_versions pfx key_marker es) ≤ length es)
unfolding start_versions
start_lem [] [] es = (([], refl), omega arith)
start_lem (x ∷ pfx) [] es = (
  IsTail-from_first (λ e. not (bytes_lt e.0 (x ∷ pfx))) es,
  length-from_first (λ e. not (bytes_lt e.0 (x ∷ pfx))) es,
)
start_lem pfx (x ∷ marker) es = (
  IsTail-from_first (λ e. not (bytes_lt e.0 (x ∷ marker))) es,
  length-from_first (λ e. not (bytes_lt e.0 (x ∷ marker))) es,
)

-- ListObjectVersions of a bucket with a version table ends, without a delimiter or with one whose
-- last byte is below 255: the number of rows in the table is fuel enough for its loop, from any
-- markers.
pub list_object_versions_total :
    (B : Bolt) (L : Laws B) (C : Codec ObjectMeta) (db : B.Db)
    (bucket pfx delimiter key_marker version_id_marker : Bytes) (max_keys : ℕ) (es : Entries)
    → B.bucket db (versions_of bucket) ≡ some es
    → (is_empty delimiter ≡ true) ⊎ EndsBelow delimiter
    → (page : VersionsPage) × (list_object_versions B C bucket pfx delimiter key_marker
          version_id_marker max_keys db
        ≡ ok (some page))
unfolding list_object_versions
list_object_versions_total B L C db bucket pfx delimiter key_marker vid max_keys es e b =
    let (t, h) = start_lem pfx key_marker es in
    let (page, p) =
      loop_ends C es pfx delimiter key_marker max_keys (length es)
        (start_versions pfx key_marker es) [] [] vid b
        (L.bucket_sorted db (versions_of bucket) es e) t h in
    (page, rw (e, list_object_versions) (rw p))
