-- ===== src/Metadata/Listing/Gaps.antt =====
-- Pages of ListObjects that do not go past a common prefix.
use go_s.Prelude.{
  ℕ, zero, suc, ◌≡◌, refl, ap, ◌∙◌, Bytes, Result, true, false, arith, Bool-cases, inl, inr,
  is_empty, [], ◌∷◌, ◌++◌, some, has_prefix, has_prefix-append, append-of-has_prefix, bytes_eq,
  bytes_eq_iff, bytes_lt, bytes_lt_trans, bytes_lt_irrefl, bytes_lt_total, bytes_lt-past-prefix,
  index_of, length, drop, ok, err,
}
use go_s.Bolt.{
  Bolt, Laws, Codec, Entries, IsSorted, IsAbove, IsAbove-trans, lookup, lookup-of-IsAbove, seek,
}
use go_s.Storage.{ObjectMeta}
use go_s.Metadata.Listing.RolledUp.{common_prefix_under}
use go_s.Metadata.Listing.Versions.Jumps.{has_prefix_trans}
use go_s.Metadata.Names.{objects_of}
use go_s.Metadata.Listing.{
  Page, list_objects, list_loop, list_turn, roll_up, common_prefix, start_at, skip_marker,
}

-- Entries that hold a key begin at that key or below it.
abbrev StartsBy : Bytes → Entries → Type 0
StartsBy j es =
    (k : Bytes) × (v : Bytes) × (rest : Entries) × (es ≡ (k, v) ∷ rest) × (bytes_lt j k ≡ false)

StartsBy-lookup : (j w : Bytes) (es : Entries) → IsSorted es → lookup j es ≡ some w → StartsBy j es
unfolding lookup
StartsBy-lookup j w [] s h = cc
StartsBy-lookup j w ((k, v) ∷ es) s h = (k, v, es, refl, not_below)
  where
    not_below : bytes_lt j k ≡ false
    not_below = elim (Bool-cases (bytes_lt j k)) [
      | inr e ↦ e
      | inl e ↦ ground (
        arith,
        bytes_eq_iff j k,
        bytes_lt_irrefl k,
        lookup-of-IsAbove j es (IsAbove-trans j k es e s.0),
      )
    ]

-- With a row above the marker, the walk starts at that row or below it.
StartsBy-marker :
    (marker j w : Bytes) (es : Entries)
    → IsSorted es
    → lookup j es ≡ some w
    → bytes_lt marker j ≡ true
    → StartsBy j (skip_marker marker (seek marker es))
unfolding lookup skip_marker
StartsBy-marker marker j w [] s h b = cc
StartsBy-marker marker j w ((k, v) ∷ es) s h b = elim (Bool-cases (bytes_lt k marker)) [
  | inl e ↦
      let later : lookup j es ≡ some w =
        ground (arith, bytes_eq_iff j k, bytes_lt_trans k marker k e, bytes_lt_irrefl k) in
      rw e (StartsBy-marker marker j w es s.1 later b)
  | inr e ↦ elim (Bool-cases (bytes_eq k marker)) [
    | inl q ↦
        let later : lookup j es ≡ some w =
          ground (arith, bytes_eq_iff j k, bytes_eq_iff k marker, bytes_lt_irrefl k) in
        rw (e, q, skip_marker) (StartsBy-lookup j w es s.1 later)
    | inr q ↦ rw (e, q, skip_marker) (StartsBy-lookup j w ((k, v) ∷ es) s h)
  ]
]

-- The walk from a key on starts at that key or above it.
StartsBy-from :
    (p k v : Bytes) (es rest : Entries)
    → IsSorted es
    → skip_marker p (seek p es) ≡ (k, v) ∷ rest
    → bytes_lt k p ≡ false
unfolding skip_marker
StartsBy-from p k v [] rest s h = cc
StartsBy-from p k v ((i, w) ∷ es) rest s h = elim (Bool-cases (bytes_lt i p)) [
  | inl e ↦ StartsBy-from p k v es rest s.1 (rw e at h)
  | inr e ↦ elim (Bool-cases (bytes_eq i p)) [
    | inr q ↦
        let same : (i, w) ∷ es ≡ (k, v) ∷ rest = rw (e, q, skip_marker) at h in
        let named : i ≡ k = ap (λ xs. first_key xs) same in rw⁻¹ named e
    | inl q ↦ after es s.0 ((bytes_eq_iff i p).0 q) (rw (e, q, skip_marker) at h)
  ]
]
  where
    first_key : Entries → Bytes
    first_key [] = []
    first_key ((j, x) ∷ xs) = j

    after : (xs : Entries) → IsAbove i xs → i ≡ p → xs ≡ (k, v) ∷ rest → bytes_lt k p ≡ false
    after [] a z q = cc
    after ((j, x) ∷ xs) a z q = elim (Bool-cases (bytes_lt k p)) [
      | inr e ↦ e
      | inl e ↦
          let named : j ≡ k = ap (λ ys. first_key ys) q in
          cc (bytes_lt_trans p k p (cc (a.0, named, z)) e, bytes_lt_irrefl p)
    ]

-- The walk from a common prefix on, with a row under it, starts at a row under it.
starts_under :
    (p j w : Bytes) (es : Entries)
    → IsSorted es
    → lookup j es ≡ some w
    → has_prefix j p ≡ true
    → bytes_lt p j ≡ true
    → (k : Bytes) × (v : Bytes) × (rest : Entries) × (skip_marker p (seek p es) ≡ (k, v) ∷ rest)
      × (has_prefix k p ≡ true)
starts_under p j w es s h under above =
    let (k, v, rest, starts, near) = StartsBy-marker p j w es s h above in
    let from = StartsBy-from p k v es rest s starts in (k, v, rest, starts, has k near from)
  where
    has : (k : Bytes) → bytes_lt j k ≡ false → bytes_lt k p ≡ false → has_prefix k p ≡ true
    has k near from = elim (Bool-cases (has_prefix k p)) [
      | inl e ↦ e
      | inr e ↦ ground (
        arith,
        bytes_lt-past-prefix k j p under from e,
        bytes_lt_total j k near,
        bytes_eq_iff j k,
      )
    ]

is_empty-append : (pfx front ds : Bytes) (d : ℕ) → is_empty (pfx ++ (front ++ d ∷ ds)) ≡ false
is_empty-append [] [] ds d = refl
is_empty-append [] (x ∷ front) ds d = refl
is_empty-append (x ∷ pfx) front ds d = refl

-- The page that a client gets that has gone on `n` times from a marker, at the next marker of each
-- page.
abbrev pub nth_page :
    (B : Bolt) → Codec ObjectMeta → Bytes → Bytes → Bytes → ℕ → B.Db → ℕ → Bytes → Result Page
nth_page B C bucket pfx delimiter max_keys db zero marker =
    list_objects B C bucket pfx delimiter marker max_keys db
nth_page B C bucket pfx delimiter max_keys db (suc n) marker =
    elim (list_objects B C bucket pfx delimiter marker max_keys db) [
      | err e ↦ err e
      | ok page ↦ nth_page B C bucket pfx delimiter max_keys db n page.next_marker
    ]

one_page :
    (B : Bolt) (L : Laws B) (C : Codec ObjectMeta) (db : B.Db) (bucket pfx front ds j w : Bytes)
    (d : ℕ) (es : Entries)
    → B.bucket db (objects_of bucket) ≡ some es
    → lookup j es ≡ some w
    → has_prefix j (pfx ++ (front ++ d ∷ ds)) ≡ true
    → bytes_lt (pfx ++ (front ++ d ∷ ds)) j ≡ true
    → index_of (front ++ d ∷ ds) (d ∷ ds) ≡ some (length front)
    → list_objects B C bucket pfx (d ∷ ds) (pfx ++ (front ++ d ∷ ds)) 1 db
      ≡ ok (record {
        objects = [];
        common_prefixes = (pfx ++ (front ++ d ∷ ds)) ∷ [];
        next_marker = pfx ++ (front ++ d ∷ ds);
      })
unfolding list_objects list_loop list_turn roll_up start_at
one_page B L C db bucket pfx front ds j w d es e h under above first =
    let p = pfx ++ (front ++ d ∷ ds) in
    let (k, v, rest, starts, has) =
      starts_under p j w es (L.bucket_sorted db (objects_of bucket) es e) h under above in
    let parts = append-of-has_prefix k p has in
    let rolled : common_prefix pfx (d ∷ ds) k ≡ some p =
      ap (common_prefix pfx (d ∷ ds)) parts
      ∙ common_prefix_under pfx front ds (drop (length p) k) d first in
    let in_listing : has_prefix k pfx ≡ true =
      has_prefix_trans k p pfx has (has_prefix-append pfx (front ++ d ∷ ds)) in
    let given : is_empty p ≡ false = is_empty-append pfx front ds d in
    rw (list_objects, e, start_at, given, starts, list_loop, list_turn, in_listing, rolled)
      (ground arith)

-- Pages of one row never go past a common prefix that a row stands under: from that prefix as the
-- marker, however often a client goes on at the next marker, it gets the page that holds this
-- prefix alone and names it as the next marker. The prefix is that of the listing with a text after it
-- that ends where the delimiter first does, and the row's key begins with it and is not it.
pub list_objects-stuck :
    (B : Bolt) (L : Laws B) (C : Codec ObjectMeta) (db : B.Db) (bucket pfx front ds j w : Bytes)
    (d n : ℕ) (es : Entries)
    → B.bucket db (objects_of bucket) ≡ some es
    → lookup j es ≡ some w
    → has_prefix j (pfx ++ (front ++ d ∷ ds)) ≡ true
    → bytes_lt (pfx ++ (front ++ d ∷ ds)) j ≡ true
    → index_of (front ++ d ∷ ds) (d ∷ ds) ≡ some (length front)
    → nth_page B C bucket pfx (d ∷ ds) 1 db n (pfx ++ (front ++ d ∷ ds))
      ≡ ok (record {
        objects = [];
        common_prefixes = (pfx ++ (front ++ d ∷ ds)) ∷ [];
        next_marker = pfx ++ (front ++ d ∷ ds);
      })
list_objects-stuck B L C db bucket pfx front ds j w d n es e h under above first = pages n
  where
    p : Bytes
    p = pfx ++ (front ++ d ∷ ds)

    page :
        list_objects B C bucket pfx (d ∷ ds) p 1 db
        ≡ ok (record { objects = []; common_prefixes = p ∷ []; next_marker = p })
    page = one_page B L C db bucket pfx front ds j w d es e h under above first

    pages :
        (n : ℕ)
        → nth_page B C bucket pfx (d ∷ ds) 1 db n p
          ≡ ok (record { objects = []; common_prefixes = p ∷ []; next_marker = p })
    pages zero = page
    pages (suc n) = rw (nth_page, page) (pages n)
