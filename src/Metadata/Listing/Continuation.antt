-- ===== src/Metadata/Listing/Continuation.antt =====
-- The pages of ListObjects without a delimiter follow one another: what is wanted above the marker
-- that a full page returns is what that page left over.
use mathlib.Core.Path.{subst}
use go_s.Prelude.{
  ℕ, zero, suc, ◌≡◌, refl, Bytes, Bool, true, false, not, ◌||◌, arith, Bool-cases, inl, inr,
  is_empty, [], ◌∷◌, some, keep, All, take, drop, bytes_lt, bytes_lt_trans, bytes_lt_irrefl,
  bytes_lt-of-has_prefix, ok-injective, sym, ap, ok, ◌∙◌,
}
use go_s.Bolt.{Bolt, Laws, Codec, Entries, IsSorted, IsAbove}
use go_s.Storage.{ObjectMeta}
use go_s.Metadata.Names.{objects_of}
use go_s.Metadata.Listing.{Page, list_objects}
use go_s.Metadata.Listing.Start.{passes, wanted}
use go_s.Metadata.Listing.Pages.{Decodes, infos, next_of, page_of, page_size, list_objects_lem}

module _ (C : Codec ObjectMeta) (q : Bytes → Bool) where
  -- The marker of a full page is the key of one of the rows.
  next_of-above :
      (j k : Bytes) (n : ℕ) (es : Entries)
      → All (Decodes C) es
      → IsAbove j es
      → is_empty k ≡ false
      → next_of n (infos C (keep (λ e. q e.0) es)) ≡ k
      → bytes_lt j k ≡ true
  next_of-above j k n [] d a x h = ground arith
  next_of-above j k zero ((i, v) ∷ es) d a x h = elim (Bool-cases (q i)) [
    | inr e ↦ next_of-above j k zero es d.1 a.1 x (rw e at h)
    | inl e ↦ let (m, u) = d.0 in let h' : [] ≡ k = rw (e, u) at h in ground (arith, h')
  ]
  next_of-above j k (suc zero) ((i, v) ∷ es) d a x h = elim (Bool-cases (q i)) [
    | inr e ↦ next_of-above j k (suc zero) es d.1 a.1 x (rw e at h)
    | inl e ↦ let (m, u) = d.0 in let h' : i ≡ k = rw (e, u) at h in rw (← h') a.0
  ]
  next_of-above j k (suc (suc n)) ((i, v) ∷ es) d a x h = elim (Bool-cases (q i)) [
    | inr e ↦ next_of-above j k (suc (suc n)) es d.1 a.1 x (rw e at h)
    | inl e ↦ let (m, u) = d.0 in next_of-above j k (suc n) es d.1 a.1 x (rw (e, u) at h)
  ]

  -- That row passes.
  pub next_of-passes :
      (k : Bytes) (n : ℕ) (es : Entries)
      → All (Decodes C) es
      → is_empty k ≡ false
      → next_of n (infos C (keep (λ e. q e.0) es)) ≡ k
      → q k ≡ true
  next_of-passes k n [] d x h = ground arith
  next_of-passes k zero ((i, v) ∷ es) d x h = elim (Bool-cases (q i)) [
    | inr e ↦ next_of-passes k zero es d.1 x (rw e at h)
    | inl e ↦ let (m, u) = d.0 in let h' : [] ≡ k = rw (e, u) at h in ground (arith, h')
  ]
  next_of-passes k (suc zero) ((i, v) ∷ es) d x h = elim (Bool-cases (q i)) [
    | inr e ↦ next_of-passes k (suc zero) es d.1 x (rw e at h)
    | inl e ↦ let (m, u) = d.0 in let h' : i ≡ k = rw (e, u) at h in rw (← h') e
  ]
  next_of-passes k (suc (suc n)) ((i, v) ∷ es) d x h = elim (Bool-cases (q i)) [
    | inr e ↦ next_of-passes k (suc (suc n)) es d.1 x (rw e at h)
    | inl e ↦ let (m, u) = d.0 in next_of-passes k (suc n) es d.1 x (rw (e, u) at h)
  ]

module _ (C : Codec ObjectMeta) (pfx marker : Bytes) where
  same_above :
      (j : Bytes) (es : Entries)
      → passes pfx marker j ≡ true
      → is_empty j ≡ false
      → IsAbove j es
      → wanted pfx j es ≡ wanted pfx marker es
  same_above j [] p x a = refl
  same_above j ((i, v) ∷ es) p x a =
      ground (arith, bytes_lt_trans marker j i, same_above j es p x a.1)

  -- A row below a marker does not pass above it.
  not_above : (j k : Bytes) → is_empty k ≡ false → bytes_lt j k ≡ true → passes pfx k j ≡ false
  not_above j k x h = elim (Bool-cases (bytes_lt k j)) [
    | inl e ↦ cc (bytes_lt_trans j k j h e, bytes_lt_irrefl j)
    | inr e ↦ ground (arith, e)
  ]

  self_not_above : (j : Bytes) → is_empty j ≡ false → passes pfx j j ≡ false
  self_not_above j x = ground (arith, bytes_lt_irrefl j)

  pub wanted-next :
      (n : ℕ) (k : Bytes) (es : Entries)
      → IsSorted es
      → All (Decodes C) es
      → is_empty k ≡ false
      → next_of n (infos C (wanted pfx marker es)) ≡ k
      → infos C (wanted pfx k es) ≡ drop n (infos C (wanted pfx marker es))
  wanted-next n k [] s d x h = ground arith
  wanted-next zero k ((j, v) ∷ es) s d x h = elim (Bool-cases (passes pfx marker j)) [
    | inr e ↦
        rw
          (
            e,
            not_above j k x (next_of-above C (passes pfx marker) j k zero es d.1 s.0 x (rw e at h)),
          )
          (wanted-next zero k es s.1 d.1 x (rw e at h))
    | inl e ↦ let (m, u) = d.0 in let h' : [] ≡ k = rw (e, u) at h in ground (arith, h')
  ]
  wanted-next (suc zero) k ((j, v) ∷ es) s d x h = elim (Bool-cases (passes pfx marker j)) [
    | inr e ↦
        rw
          (
            e,
            not_above j k x
                (next_of-above C (passes pfx marker) j k (suc zero) es d.1 s.0 x (rw e at h)),
          )
          (wanted-next (suc zero) k es s.1 d.1 x (rw e at h))
    | inl e ↦
        let (m, u) = d.0 in
        let h' : j ≡ k = rw (e, u) at h in
        let xj = rw (← h') at x in
        subst
          (λ k.
            infos C (wanted pfx k ((j, v) ∷ es))
            ≡ drop 1 (infos C (wanted pfx marker ((j, v) ∷ es))))
          h' (rw (e, u, self_not_above j xj) (ap (infos C) (same_above j es e xj s.0)))
  ]
  wanted-next (suc (suc n)) k ((j, v) ∷ es) s d x h = elim (Bool-cases (passes pfx marker j)) [
    | inr e ↦
        rw
          (
            e,
            not_above j k x
                (next_of-above C (passes pfx marker) j k (suc (suc n)) es d.1 s.0 x (rw e at h)),
          )
          (wanted-next (suc (suc n)) k es s.1 d.1 x (rw e at h))
    | inl e ↦
        let (m, u) = d.0 in
        rw
          (
            e,
            u,
            not_above j k x
                (next_of-above C (passes pfx marker) j k (suc n) es d.1 s.0 x (rw (e, u) at h)),
          )
          (wanted-next (suc n) k es s.1 d.1 x (rw (e, u) at h))
  ]

  -- Without a delimiter, over rows that decode, and with no marker or one at the prefix or above:
  -- when ListObjects returns a page with a next marker, the call with that marker returns the page
  -- that follows, with the rows that come right after those of the first page among all that were
  -- asked for. So no row is lost or shown twice.
  pub list_objects-continue :
      (B : Bolt) (L : Laws B) (db : B.Db) (bucket : Bytes) (max_keys : ℕ) (es : Entries)
      (page : Page)
      → B.bucket db (objects_of bucket) ≡ some es
      → All (Decodes C) es
      → (is_empty marker || not (bytes_lt marker pfx)) ≡ true
      → list_objects B C bucket pfx [] marker max_keys db ≡ ok page
      → is_empty page.next_marker ≡ false
      → (page.objects ≡ take (page_size max_keys) (infos C (wanted pfx marker es)))
        × (list_objects B C bucket pfx [] page.next_marker max_keys db
            ≡ ok (
                page_of C
                  (page_size max_keys)
                  (drop (page_size max_keys) (infos C (wanted pfx marker es)))))
  list_objects-continue B L db bucket max_keys es page e d g h x =
      let first = list_objects_lem C pfx marker B L db bucket max_keys es e d g in
      let same = ok-injective (sym h ∙ first) in
      let size = page_size max_keys in
      let k = page.next_marker in
      let at_k : next_of size (infos C (wanted pfx marker es)) ≡ k =
        sym (ap (λ (p : Page). p.next_marker) same) in
      let here = next_of-passes C (passes pfx marker) k size es d x at_k in
      let s = L.bucket_sorted db (objects_of bucket) es e in
      let in_range : (is_empty k || not (bytes_lt k pfx)) ≡ true =
        ground (arith, here, bytes_lt-of-has_prefix k pfx) in
      (
        ap (λ (p : Page). p.objects) same,
        list_objects_lem C pfx k B L db bucket max_keys es e d in_range
            ∙ ap (λ rows. ok (page_of C size rows)) (wanted-next size k es s d x at_k),
      )
