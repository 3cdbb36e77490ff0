-- ===== src/Local/Listing/Walk.antt =====
-- Following the continuation tokens of ListObjectsV2 to the end.
use go_s.Prelude.{
  ℕ, zero, suc, ◌<◌, ◌≡◌, refl, ap, Bytes, Result, ok, true, false, not, ◌||◌, ◌>>=◌, arith,
  Bool-cases, inl, inr, is_empty, List, [], ◌∷◌, ◌++◌, some, All, length, take, drop, bytes_lt,
  bytes_lt-of-has_prefix,
}
use go_s.Bolt.{Bolt, Laws, Codec, Entries}
use go_s.Storage.{ObjectMeta, ObjectInfo}
use go_s.Metadata.Names.{objects_of}
use go_s.Metadata.Listing.Start.{passes, wanted}
use go_s.Metadata.Listing.Pages.{Decodes, infos, next_of, page_of, page_size, list_objects_lem}
use go_s.Metadata.Listing.Continuation.{wanted-next, next_of-passes}
use go_s.Local.Listing.{list_result_v2, list_objects_v2}

-- A key that is not empty, which the database takes no other of.
abbrev pub HasKey : ObjectInfo → Type 0
HasKey o = is_empty o.key ≡ false

empty_is {ℓ} : {A : Type ℓ} (xs : List A) → is_empty xs ≡ true → xs ≡ []
empty_is [] h = refl
empty_is (x ∷ xs) h = cc

take-short :
    (n : ℕ) (rows : List ObjectInfo)
    → All HasKey rows
    → next_of (suc n) rows ≡ []
    → take (suc n) rows ≡ rows
take-short n [] a h = refl
take-short zero (x ∷ xs) a h = absurd (ground arith)
take-short (suc n) (x ∷ xs) a h = ap (λ t. x ∷ t) (take-short n xs a.1 h)

take-drop : (n : ℕ) (rows : List ObjectInfo) → take n rows ++ drop n rows ≡ rows
take-drop zero rows = refl
take-drop (suc n) [] = refl
take-drop (suc n) (x ∷ xs) = ap (λ t. x ∷ t) (take-drop n xs)

length-drop_le : (n : ℕ) (rows : List ObjectInfo) → length (drop n rows) < suc (length rows)
length-drop_le zero rows = omega arith
length-drop_le (suc n) [] = omega arith
length-drop_le (suc n) (x ∷ xs) = omega (arith, length-drop_le n xs)

-- A page that names a next marker is not empty, so that fewer rows are left.
fewer_left :
    (n : ℕ) (rows : List ObjectInfo)
    → is_empty (next_of (suc n) rows) ≡ false
    → length (drop (suc n) rows) < length rows
fewer_left n [] h = cc
fewer_left n (x ∷ xs) h = length-drop_le n xs

-- The same of a page of ListObjects.
last_page :
    (m : ℕ) (rows : List ObjectInfo)
    → All HasKey rows
    → is_empty (next_of (page_size m) rows) ≡ true
    → take (page_size m) rows ≡ rows
last_page zero rows a h = take-short 0 rows a (empty_is (next_of 1 rows) h)
last_page (suc m) rows a h = take-short m rows a (empty_is (next_of (suc m) rows) h)

more_pages :
    (m : ℕ) (rows : List ObjectInfo)
    → is_empty (next_of (page_size m) rows) ≡ false
    → length (drop (page_size m) rows) < length rows
more_pages zero rows h = fewer_left 0 rows h
more_pages (suc m) rows h = fewer_left m rows h

module _ (C : Codec ObjectMeta) where
  infos-HasKey :
      (pfx marker : Bytes) (es : Entries)
      → All (Decodes C) es
      → All (λ e. is_empty e.0 ≡ false) es
      → All HasKey (infos C (wanted pfx marker es))
  infos-HasKey pfx marker [] d a = tt
  infos-HasKey pfx marker ((k, v) ∷ es) d a =
      let (m, u) = d.0 in
      let rest = infos-HasKey pfx marker es d.1 a.1 in
      elim (Bool-cases (passes pfx marker k)) [ inl e ↦ rw (e, u) (a.0, rest) | inr e ↦ rw e rest ]

module _ (B : Bolt) (C : Codec ObjectMeta) (bucket pfx : Bytes) (max_keys : ℕ) (db : B.Db) where
  -- A client that asks for page after page, each with the token of the one before.
  unfoldable pub walk : ℕ → Bytes → Result (List ObjectInfo)
  unfolding list_objects_v2
  walk zero token = ok []
  walk (suc fuel) token = list_objects_v2 B C bucket pfx [] token max_keys db >>= λ page.
      elim page.is_truncated [
        | false ↦ ok page.contents
        | true ↦ walk fuel page.next_continuation_token >>= λ rest. ok (page.contents ++ rest)
      ]

  -- A client that follows the continuation tokens of ListObjectsV2 comes to an end and has seen
  -- every object that has the prefix and stands above the token it began with, once and in order.
  -- It asks without a delimiter, over rows that decode and whose keys are not empty, from a token
  -- that is empty or not below the prefix, and needs no more pages than there are such objects, and
  -- one.
  pub walk_lem :
      (L : Laws B) (es : Entries) (fuel : ℕ) (token : Bytes)
      → B.bucket db (objects_of bucket) ≡ some es
      → All (Decodes C) es
      → All (λ e. is_empty e.0 ≡ false) es
      → (is_empty token || not (bytes_lt token pfx)) ≡ true
      → length (infos C (wanted pfx token es)) < fuel
      → walk fuel token ≡ ok (infos C (wanted pfx token es))
  unfolding walk
  walk_lem L es zero token e d a g h = absurd (omega arith)
  walk_lem L es (suc fuel) token e d a g h =
      let rows = infos C (wanted pfx token es) in
      let size = page_size max_keys in
      let k = next_of size rows in
      let first : list_objects_v2 B C bucket pfx [] token max_keys db
          ≡ ok (list_result_v2 (page_of C size rows)) =
        rw (list_objects_v2, list_objects_lem C pfx token B L db bucket max_keys es e d g) in
      elim (Bool-cases (is_empty k)) [
        | inl x ↦
            rw (first, x)
              (ap (λ t. ok t) (last_page max_keys rows (infos-HasKey C pfx token es d a) x))
        | inr x ↦
            let here = next_of-passes C (passes pfx token) k size es d x refl in
            let in_range : (is_empty k || not (bytes_lt k pfx)) ≡ true =
              ground (arith, here, bytes_lt-of-has_prefix k pfx) in
            let left =
              wanted-next C pfx token size k es (L.bucket_sorted db (objects_of bucket) es e) d x
                refl in
            let few : length (infos C (wanted pfx k es)) < fuel =
              rw left (omega (arith, more_pages max_keys rows x, h)) in
            let rec = walk_lem L es fuel k e d a in_range few in
            rw (first, x) (rw (rec, left) (ap (λ t. ok t) (take-drop size rows)))
      ]
