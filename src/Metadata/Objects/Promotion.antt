-- ===== src/Metadata/Objects/Promotion.antt =====
-- DeleteObject of one version: the version goes, and the newest one that is left becomes the latest.
use go_s.Prelude.{
  ℕ, ◌≤◌, Bytes, Option, none, some, ◌≡◌, ◌⊎◌, refl, if◌then◌else◌, bytes_eq_refl, arith,
  Option-cases, Bool-cases, inl, inr, ltb, [], ◌∷◌, All,
}
use go_s.Bolt.{Codec, Entries, lookup, IsSorted}
use go_s.Bolt.Scan.{lookup-later}
use go_s.Storage.{ObjectMeta}
use go_s.Metadata.Objects.{newest, newer}

module _ (C : Codec ObjectMeta) where
  -- No row decodes to metadata that is newer than `m`.
  abbrev pub NoneNewer : ObjectMeta → Entries → Type 0
  NoneNewer m =
      All (λ e. (n : ObjectMeta) → C.unmarshal e.1 ≡ some n → n.last_modified ≤ m.last_modified)

  newer-eq-some :
      (best o : Option ObjectMeta) (m : ObjectMeta)
      → newer C best o ≡ some m
      → (best ≡ some m) ⊎ (o ≡ some m)
  newer-eq-some best none m h = inl h
  newer-eq-some none (some n) m h = inr h
  newer-eq-some (some b) (some n) m h = elim (Bool-cases (ltb b.last_modified n.last_modified)) [
    | inl e ↦ inr (rw e at h)
    | inr e ↦ inl (rw e at h)
  ]

  -- A bound on the newer of two is a bound on both.
  newer_bound :
      (best o : Option ObjectMeta) (t : ℕ)
      → ((b : ObjectMeta) → newer C best o ≡ some b → b.last_modified ≤ t)
      → ((b : ObjectMeta) → best ≡ some b → b.last_modified ≤ t)
        × ((n : ObjectMeta) → o ≡ some n → n.last_modified ≤ t)
  newer_bound best none t h = (h, λ n e. cc)
  newer_bound none (some n) t h = (λ b e. cc, h)
  newer_bound (some b) (some n) t h = elim (Bool-cases (ltb b.last_modified n.last_modified)) [
    | inl e ↦
        let fact = h n (rw e) in (λ b' p. ground (arith, fact, e), λ n' p. ground (arith, fact))
    | inr e ↦
        let fact = h b (rw e) in (λ b' p. ground (arith, fact), λ n' p. ground (arith, fact, e))
  ]

  newest-le :
      (best : Option ObjectMeta) (es : Entries) (m : ObjectMeta)
      → newest C best es ≡ some m
      → ((b : ObjectMeta) → best ≡ some b → b.last_modified ≤ m.last_modified) × NoneNewer m es
  unfolding newest
  newest-le best [] m h = (λ b p. ground arith, tt)
  newest-le best ((k, v) ∷ es) m h =
      let (bound, rest) = newest-le (newer C best (C.unmarshal v)) es m h in
      let (left, right) = newer_bound best (C.unmarshal v) m.last_modified bound in
      (left, (right, rest))

  -- What `newest` finds is the metadata of a row.
  newest-lookup :
      (best : Option ObjectMeta) (es : Entries) (m : ObjectMeta)
      → IsSorted es
      → newest C best es ≡ some m
      → (best ≡ some m)
        ⊎ ((k : Bytes) × (v : Bytes) × (lookup k es ≡ some v) × (C.unmarshal v ≡ some m))
  unfolding newest lookup
  newest-lookup best [] m s h = inl h
  newest-lookup best ((i, w) ∷ es) m s h =
      elim (newest-lookup (newer C best (C.unmarshal w)) es m s.1 h) [
        | inl p ↦ from_newer (newer-eq-some best (C.unmarshal w) m p)
        | inr found ↦
            inr (found.0, found.1, lookup-later i w found.0 found.1 es s.0 found.2, found.3)
      ]
    where
      from_newer :
          (best ≡ some m) ⊎ (C.unmarshal w ≡ some m)
          → (best ≡ some m)
            ⊎ ((k : Bytes) × (v : Bytes) × (lookup k ((i, w) ∷ es) ≡ some v)
                × (C.unmarshal v ≡ some m))
      from_newer (inl p) = inl p
      from_newer (inr p) = inr (i, w, (rw (bytes_eq_refl i, lookup)), p)

  newer-some :
      (b : ObjectMeta) (o : Option ObjectMeta) → (m : ObjectMeta) × (newer C (some b) o ≡ some m)
  newer-some b none = (b, refl)
  newer-some b (some n) = (if ltb b.last_modified n.last_modified then n else b, ground arith)

  newest-some : (b : ObjectMeta) (es : Entries) → (m : ObjectMeta) × (newest C (some b) es ≡ some m)
  unfolding newest
  newest-some b [] = (b, refl)
  newest-some b ((k, v) ∷ es) =
      let (m, e) = newer-some b (C.unmarshal v) in let (r, p) = newest-some m es in (r, rw e p)

  -- No row decodes.
  abbrev pub NoneDecodes : Entries → Type 0
  NoneDecodes = All (λ e. C.unmarshal e.1 ≡ none)

  newest-none : (es : Entries) → newest C none es ≡ none → NoneDecodes es
  unfolding newest
  newest-none [] h = tt
  newest-none ((k, v) ∷ es) h = elim (Option-cases (C.unmarshal v)) [
    | inl e ↦ (e, newest-none es (rw e at h))
    | inr (m, e) ↦ let h' : newest C (some m) es ≡ none = rw e at h in cc (h', (newest-some m es).1)
  ]

  -- What the search of DeleteObject finds among the remaining rows of a key.
  abbrev pub IsNewest : Entries → Option ObjectMeta → Type 0
  IsNewest es none = NoneDecodes es
  IsNewest es (some m) =
      ((k : Bytes) × (v : Bytes) × (lookup k es ≡ some v) × (C.unmarshal v ≡ some m))
      × NoneNewer m es

  -- The search through sorted rows finds the metadata of one of them, such that no row holds newer
  -- metadata, or finds nothing, and then no row decodes.
  pub newest-IsNewest : (es : Entries) → IsSorted es → IsNewest es (newest C none es)
  newest-IsNewest es s = split (newest C none es) refl
    where
      of_row :
          (m : ObjectMeta)
          → ((none ≡ some m)
              ⊎ ((k : Bytes) × (v : Bytes) × (lookup k es ≡ some v) × (C.unmarshal v ≡ some m)))
          → (k : Bytes) × (v : Bytes) × (lookup k es ≡ some v) × (C.unmarshal v ≡ some m)
      of_row m (inl e) = cc
      of_row m (inr r) = r

      split : (o : Option ObjectMeta) → newest C none es ≡ o → IsNewest es o
      split none h = newest-none es h
      split (some m) h = (of_row m (newest-lookup none es m s h), (newest-le none es m h).1)
