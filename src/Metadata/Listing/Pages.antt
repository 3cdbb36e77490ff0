-- ===== src/Metadata/Listing/Pages.antt =====
-- What ListObjects returns without a delimiter: the first rows with the prefix above the marker, and a
-- marker at which the next page goes on.
use mathlib.Core.List.{append-nil, append_assoc}
use go_s.Prelude.{
  ℕ, zero, suc, ◌+◌, ◌≡◌, refl, Bytes, true, false, not, ◌||◌, if◌then◌else◌, arith, Bool-cases,
  inl, inr, is_empty, List, [], ◌∷◌, ◌++◌, Option, some, none, has_prefix, take_while, All,
  All-from_first, ok, length, take, leb, ◌==◌, length-append, bytes_lt, ◌∙◌, ap,
}
use go_s.Bolt.{Bolt, Laws, Codec, Entries, seek}
use go_s.Storage.{ObjectMeta, ObjectInfo}
use go_s.Metadata.Names.{objects_of}
use go_s.Metadata.Listing.{
  Page, done, next, info_of, list_loop, list_turn, skip_marker, list_objects, start_at,
}
use go_s.Metadata.Listing.Start.{wanted, walked-wanted}

-- The number of rows of a full page.
abbrev pub page_size : ℕ → ℕ
page_size zero = 1
page_size (suc n) = suc n

-- The key of the last row of a full page, or none if the rows do not fill it.
abbrev pub next_of : ℕ → List ObjectInfo → Bytes
next_of r [] = []
next_of zero (x ∷ xs) = []
next_of (suc zero) (x ∷ xs) = x.key
next_of (suc (suc r)) (x ∷ xs) = next_of (suc r) xs

module _ (C : Codec ObjectMeta) where
  abbrev pub Decodes : Bytes × Bytes → Type 0
  Decodes e = (m : ObjectMeta) × (C.unmarshal e.1 ≡ some m)

  abbrev pub info_row : Bytes → Option ObjectMeta → List ObjectInfo
  info_row k none = []
  info_row k (some m) = info_of k m ∷ []

  -- What the listing shows of the rows that decode.
  abbrev pub infos : Entries → List ObjectInfo
  infos [] = []
  infos ((k, v) ∷ es) = info_row k (C.unmarshal v) ++ infos es

  abbrev pub page_of : ℕ → List ObjectInfo → Page
  page_of n rows = record {
    objects = take n rows;
    common_prefixes = [];
    next_marker = next_of n rows;
  }

  full_lem :
      (max_keys room n : ℕ)
      → n + suc room ≡ page_size max_keys
      → leb max_keys (n + 1 + 0) ≡ (room == 0)
  full_lem zero room n h = ground arith
  full_lem (suc m) room n h = ground arith

  -- One turn on a row with the prefix: it is added, and ends the page if it is the last to fit.
  turn_add :
      (pfx k v : Bytes) (max_keys room : ℕ) (objects : List ObjectInfo) (m : ObjectMeta)
      → has_prefix k pfx ≡ true
      → C.unmarshal v ≡ some m
      → length objects + suc room ≡ page_size max_keys
      → list_turn C pfx [] max_keys k v objects [] ≡ (
          if room == 0
          then done (record {
            objects = objects ++ info_of k m ∷ [];
            common_prefixes = [];
            next_marker = k;
          })
          else next (objects ++ info_of k m ∷ []) [])
  unfolding list_turn
  turn_add pfx k v max_keys room objects m e u h =
      ground
        (arith, length-append objects (info_of k m ∷ []), full_lem max_keys room (length objects) h)

  turn_break :
      (p : ℕ) (ps k v : Bytes) (max_keys : ℕ) (objects : List ObjectInfo)
      → has_prefix k (p ∷ ps) ≡ false
      → list_turn C (p ∷ ps) [] max_keys k v objects []
        ≡ done (record { objects = objects; common_prefixes = []; next_marker = [] })
  unfolding list_turn
  turn_break p ps k v max_keys objects e = rw (e, list_turn)

  abbrev prefixed : Bytes → Entries → Entries
  prefixed pfx = take_while (λ e. has_prefix e.0 pfx)

  abbrev rest_of : ℕ → List ObjectInfo → Entries → Bytes → Page
  rest_of room objects es pfx = record {
    objects = objects ++ take (suc room) (infos (prefixed pfx es));
    common_prefixes = [];
    next_marker = next_of (suc room) (infos (prefixed pfx es));
  }

  list_loop_add :
      (pfx : Bytes) (max_keys room : ℕ) (k v : Bytes) (es : Entries) (objects : List ObjectInfo)
      (m : ObjectMeta)
      → has_prefix k pfx ≡ true
      → C.unmarshal v ≡ some m
      → length objects + suc room ≡ page_size max_keys
      → ((r : ℕ)
          → room ≡ suc r
          → list_loop C pfx [] max_keys es (objects ++ info_of k m ∷ []) []
            ≡ ok (rest_of r (objects ++ info_of k m ∷ []) es pfx))
      → list_loop C pfx [] max_keys ((k, v) ∷ es) objects []
        ≡ ok (rest_of room objects ((k, v) ∷ es) pfx)
  unfolding list_loop
  list_loop_add pfx max_keys zero k v es objects m e u h ih =
      rw (turn_add pfx k v max_keys zero objects m e u h, list_loop) (rw (e, u))
  list_loop_add pfx max_keys (suc r) k v es objects m e u h ih =
      let more : (suc r == 0) ≡ false = ground arith in
      rw (turn_add pfx k v max_keys (suc r) objects m e u h, more, list_loop)
        (rw (ih r refl) (rw (e, u, append_assoc)))

  -- The bound after one more object.
  one_more :
      (objects : List ObjectInfo) (x : ObjectInfo) (room r n : ℕ)
      → length objects + suc room ≡ n
      → room ≡ suc r
      → length (objects ++ x ∷ []) + suc r ≡ n
  one_more objects x room r n h e = omega (arith, length-append objects (x ∷ []))

  list_loop_lem :
      (pfx : Bytes) (max_keys room : ℕ) (es : Entries) (objects : List ObjectInfo)
      → All Decodes es
      → length objects + suc room ≡ page_size max_keys
      → list_loop C pfx [] max_keys es objects [] ≡ ok (rest_of room objects es pfx)
  unfolding list_loop has_prefix
  list_loop_lem pfx max_keys room [] objects d h = rw append-nil
  list_loop_lem [] max_keys room ((k, v) ∷ es) objects d h =
      let (m, u) = d.0 in
      list_loop_add [] max_keys room k v es objects m refl u h (λ r e.
        list_loop_lem [] max_keys r es (objects ++ info_of k m ∷ []) d.1
          (one_more objects (info_of k m) room r (page_size max_keys) h e))
  list_loop_lem (p ∷ ps) max_keys room ((k, v) ∷ es) objects d h =
      elim (Bool-cases (has_prefix k (p ∷ ps))) [
        | inr e ↦ rw (list_loop, turn_break p ps k v max_keys objects e) (rw (e, append-nil))
        | inl e ↦
            let (m, u) = d.0 in
            list_loop_add (p ∷ ps) max_keys room k v es objects m e u h (λ r q.
              list_loop_lem (p ∷ ps) max_keys r es (objects ++ info_of k m ∷ []) d.1
                (one_more objects (info_of k m) room r (page_size max_keys) h q))
      ]

module _ (C : Codec ObjectMeta) (pfx marker : Bytes) where
  All-skip_marker : (es : Entries) → All (Decodes C) es → All (Decodes C) (skip_marker marker es)
  unfolding skip_marker
  All-skip_marker [] d = d
  All-skip_marker ((k, v) ∷ es) d = ground arith

All-start_at :
    (C : Codec ObjectMeta) (pfx marker : Bytes) (es : Entries)
    → All (Decodes C) es
    → All (Decodes C) (start_at pfx marker es)
unfolding start_at
All-start_at C [] [] es d = d
All-start_at C (p ∷ ps) [] es d = All-from_first (Decodes C) _ es d
All-start_at C pfx (m ∷ ms) es d =
    All-skip_marker C pfx (m ∷ ms) (seek (m ∷ ms) es) (All-from_first (Decodes C) _ es d)

-- The first page from the start of a walk.
first_page :
    (C : Codec ObjectMeta) (pfx : Bytes) (max_keys : ℕ) (es : Entries)
    → All (Decodes C) es
    → list_loop C pfx [] max_keys es [] []
      ≡ ok (page_of C (page_size max_keys) (infos C (take_while (λ e. has_prefix e.0 pfx) es)))
first_page C pfx zero es d = list_loop_lem C pfx zero 0 es [] d (omega arith)
first_page C pfx (suc n) es d = list_loop_lem C pfx (suc n) n es [] d (omega arith)

module _ (C : Codec ObjectMeta) (pfx marker : Bytes) where
  -- Without a delimiter, over rows that decode, and with no marker or one at the prefix or above,
  -- ListObjects returns the first rows, up to the page size, of those that have the prefix and stand
  -- above the marker, in order, with no common prefix; its next marker is the key of the last one if
  -- they fill the page, and empty otherwise.
  pub list_objects_lem :
      (B : Bolt) (L : Laws B) (db : B.Db) (bucket : Bytes) (max_keys : ℕ) (es : Entries)
      → B.bucket db (objects_of bucket) ≡ some es
      → All (Decodes C) es
      → (is_empty marker || not (bytes_lt marker pfx)) ≡ true
      → list_objects B C bucket pfx [] marker max_keys db
        ≡ ok (page_of C (page_size max_keys) (infos C (wanted pfx marker es)))
  unfolding list_objects
  list_objects_lem B L db bucket max_keys es e d h =
      let s = L.bucket_sorted db (objects_of bucket) es e in
      rw (list_objects, e)
        (first_page C pfx max_keys (start_at pfx marker es) (All-start_at C pfx marker es d)
          ∙ ap (λ w. ok (page_of C (page_size max_keys) (infos C w)))
              (walked-wanted pfx marker es s h))
