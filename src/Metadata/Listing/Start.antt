-- ===== src/Metadata/Listing/Start.antt =====
-- Where the cursor of ListObjects starts and where its loop breaks: the keys between them are those
-- with the prefix above the marker.
use mathlib.Core.Path.{subst}
use go_s.Prelude.{
  Bytes, ◌≡◌, refl, Bool, true, false, not, ◌&&◌, ◌||◌, bytes_eq, bytes_lt, arith, Bool-cases, inl,
  inr, is_empty, [], ◌∷◌, bytes_eq_iff, has_prefix, take_while, keep, All, bytes_lt-past-prefix,
  bytes_lt_trans, bytes_lt_irrefl, bytes_lt_total, bytes_lt-of-has_prefix,
}
use go_s.Bolt.{Entries, IsSorted, IsAbove, IsAbove-trans, seek}
use go_s.Metadata.Listing.{start_at, skip_marker}

-- Whether a key has the prefix and stands above the marker, if there is one.
abbrev pub passes : Bytes → Bytes → Bytes → Bool
passes pfx marker key = has_prefix key pfx && (is_empty marker || bytes_lt marker key)

-- The rows that a listing is about.
abbrev pub wanted : Bytes → Bytes → Entries → Entries
wanted pfx marker = keep (λ e. passes pfx marker e.0)

-- The rows that the loop walks over before it breaks.
abbrev pub walked : Bytes → Bytes → Entries → Entries
walked pfx marker es = take_while (λ e. has_prefix e.0 pfx) (start_at pfx marker es)

module _ (pfx : Bytes) where
  -- Above a key that is past the prefix nothing has it.
  keep-past-prefix :
      (r : Bytes → Bool) (k : Bytes) (es : Entries)
      → bytes_lt k pfx ≡ false
      → has_prefix k pfx ≡ false
      → IsAbove k es
      → keep (λ e. has_prefix e.0 pfx && r e.0) es ≡ []
  keep-past-prefix r k [] b h a = refl
  keep-past-prefix r k ((j, w) ∷ es) b h a = elim (Bool-cases (has_prefix j pfx)) [
    | inl e ↦ cc (bytes_lt-past-prefix k j pfx e b h, a.0)
    | inr e ↦ rw e (keep-past-prefix r k es b h a.1)
  ]

  -- From a key at the prefix or above on, the rows with the prefix come first.
  take_while-keep :
      (r : Bytes → Bool) (es : Entries)
      → IsSorted es
      → All (λ e. bytes_lt e.0 pfx ≡ false) es
      → All (λ e. r e.0 ≡ true) es
      → take_while (λ e. has_prefix e.0 pfx) es ≡ keep (λ e. has_prefix e.0 pfx && r e.0) es
  take_while-keep r [] s f q = refl
  take_while-keep r ((k, v) ∷ es) s f q = elim (Bool-cases (has_prefix k pfx)) [
    | inl e ↦ ground (arith, e, q.0, take_while-keep r es s.1 f.1 q.1)
    | inr e ↦ ground (arith, e, keep-past-prefix r k es f.0 e s.0)
  ]

  from-above :
      (k : Bytes) (es : Entries)
      → bytes_lt k pfx ≡ false
      → IsAbove k es
      → All (λ e. bytes_lt e.0 pfx ≡ false) es
  from-above k [] b a = tt
  from-above k ((j, w) ∷ es) b a = (below, from-above k es b a.1)
    where
      below : bytes_lt j pfx ≡ false
      below = elim (Bool-cases (bytes_lt j pfx)) [
        | inl e ↦ cc (bytes_lt_trans k j pfx a.0 e, b)
        | inr e ↦ e
      ]

  scan-keep :
      (r : Bytes → Bool) (es : Entries)
      → IsSorted es
      → All (λ e. r e.0 ≡ true) es
      → take_while (λ e. has_prefix e.0 pfx) (seek pfx es)
        ≡ keep (λ e. has_prefix e.0 pfx && r e.0) es
  scan-keep r [] s q = refl
  scan-keep r ((k, v) ∷ es) s q = elim (Bool-cases (bytes_lt k pfx)) [
    | inl e ↦ ground (arith, e, bytes_lt-of-has_prefix k pfx, scan-keep r es s.1 q.1)
    | inr e ↦ ground (arith, e, take_while-keep r ((k, v) ∷ es) s (e, from-above k es e s.0) q)
  ]

  -- With a marker at the prefix or above.
  marker-keep :
      (marker : Bytes) (es : Entries)
      → IsSorted es
      → bytes_lt marker pfx ≡ false
      → take_while (λ e. has_prefix e.0 pfx) (skip_marker marker (seek marker es))
        ≡ keep (λ e. has_prefix e.0 pfx && bytes_lt marker e.0) es
  unfolding skip_marker
  marker-keep marker [] s b = refl
  marker-keep marker ((k, v) ∷ es) s b = elim (Bool-cases (bytes_lt k marker)) [
    | inl e ↦
        ground
          (arith, e, bytes_lt_trans k marker k e, bytes_lt_irrefl k, marker-keep marker es s.1 b)
    | inr e ↦ elim (Bool-cases (bytes_eq k marker)) [
      | inl q ↦
          let same = (bytes_eq_iff k marker).0 q in
          let above = subst (λ x. IsAbove x es) same s.0 in
          ground (
            arith,
            e,
            q,
            same,
            bytes_lt_irrefl k,
            take_while-keep (bytes_lt marker) es s.1 (from-above marker es b above) above,
          )
      | inr q ↦
          let above = bytes_lt_total k marker e q in
          ground (
            arith,
            e,
            q,
            take_while-keep (bytes_lt marker) ((k, v) ∷ es) s
                (from-above marker ((k, v) ∷ es) b (above, IsAbove-trans marker k es above s.0))
                (above, IsAbove-trans marker k es above s.0),
          )
    ]
  ]

All-true : (es : Entries) → All (λ (e : Bytes × Bytes). true ≡ true) es
All-true [] = tt
All-true (e ∷ es) = (refl, All-true es)

-- In sorted rows, without a marker or with one at the prefix or above, the loop walks over the wanted
-- rows.
pub walked-wanted :
    (pfx marker : Bytes) (es : Entries)
    → IsSorted es
    → (is_empty marker || not (bytes_lt marker pfx)) ≡ true
    → walked pfx marker es ≡ wanted pfx marker es
unfolding start_at has_prefix
walked-wanted [] [] es s h = take_while-keep [] (λ k. true) es s (from_nothing es) (All-true es)
  where
    from_nothing : (es : Entries) → All (λ e. bytes_lt e.0 [] ≡ false) es
    from_nothing [] = tt
    from_nothing (e ∷ es) = (bytes_lt-of-has_prefix e.0 [] refl, from_nothing es)
walked-wanted (p ∷ ps) [] es s h = scan-keep (p ∷ ps) (λ k. true) es s (All-true es)
walked-wanted pfx (m ∷ ms) es s h = marker-keep pfx (m ∷ ms) es s (ground arith)
