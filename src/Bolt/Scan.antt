-- ===== src/Bolt/Scan.antt =====
-- What a cursor loop over a prefix meets: the rows of the keys with that prefix, and no others.
use go_s.Prelude.{
  bytes_lt_irrefl, All, Bytes, List, none, some, [], ◌∷◌, ◌≡◌, refl, arith, true, false, bytes_eq,
  bytes_lt, bytes_eq_iff, has_prefix, take_while, any, if◌then◌else◌, Bool-cases, inl, inr,
  bytes_lt-of-has_prefix, bytes_lt-past-prefix, bytes_lt_trans,
}
use go_s.Bolt.Contents.{Entries, lookup, IsAbove, IsSorted}
use go_s.Bolt.Defs.{seek, scan}

-- A key that does not stand above `k` is not among entries above `k`.
pub lookup-not-above :
    (k j : Bytes) (es : Entries) → IsAbove k es → bytes_lt k j ≡ false → lookup j es ≡ none
unfolding lookup
lookup-not-above k j [] a h = refl
lookup-not-above k j ((i, w) ∷ es) a h =
    ground (arith, bytes_eq_iff j i, lookup-not-above k j es a.1 h)

lookup-take_while :
    (p j : Bytes) (es : Entries)
    → has_prefix j p ≡ false
    → lookup j (take_while (λ e. has_prefix e.0 p) es) ≡ none
unfolding lookup
lookup-take_while p j [] h = refl
lookup-take_while p j ((i, w) ∷ es) h = ground (arith, bytes_eq_iff j i, lookup-take_while p j es h)

-- Every key stands at `p` or above.
abbrev IsFrom : Bytes → Entries → Type 0
IsFrom p = All (λ e. bytes_lt e.0 p ≡ false)

IsFrom-of-IsAbove : (p k : Bytes) (es : Entries) → bytes_lt k p ≡ false → IsAbove k es → IsFrom p es
IsFrom-of-IsAbove p k [] b a = tt
IsFrom-of-IsAbove p k ((i, w) ∷ es) b a = (below, IsFrom-of-IsAbove p k es b a.1)
  where
    below : bytes_lt i p ≡ false
    below = elim (Bool-cases (bytes_lt i p)) [
      | inl e ↦ cc (bytes_lt_trans k i p a.0 e, b)
      | inr e ↦ e
    ]

-- In entries that stand at `p` or above, those with the prefix come first.
lookup-prefixed :
    (p j : Bytes) (es : Entries)
    → IsSorted es
    → IsFrom p es
    → has_prefix j p ≡ true
    → lookup j (take_while (λ e. has_prefix e.0 p) es) ≡ lookup j es
unfolding lookup
lookup-prefixed p j [] s f h = refl
lookup-prefixed p j ((i, w) ∷ es) s f h = ground (
  arith,
  bytes_eq_iff j i,
  lookup-prefixed p j es s.1 f.1 h,
  bytes_lt-past-prefix i j p h f.0,
  lookup-not-above i j es s.0,
)

-- The rows that the loop meets are those of the keys with the prefix.
pub lookup-scan :
    (p j : Bytes) (es : Entries)
    → IsSorted es
    → lookup j (scan p es) ≡ (if has_prefix j p then lookup j es else none)
unfolding scan lookup
lookup-scan p j [] s = ground arith
lookup-scan p j ((i, w) ∷ es) s = elim (Bool-cases (has_prefix j p)) [
  | inr e ↦ rw e (lookup-take_while p j (seek p ((i, w) ∷ es)) e)
  | inl e ↦ elim (Bool-cases (bytes_lt i p)) [
    | inl b ↦ ground (arith, bytes_lt-of-has_prefix j p, bytes_eq_iff j i, lookup-scan p j es s.1)
    | inr b ↦
        ground (arith, lookup-prefixed p j ((i, w) ∷ es) s (b, IsFrom-of-IsAbove p i es b s.0) e)
  ]
]

-- What a loop over a prefix goes through has the prefix.
pub any-prefixed :
    (p j : Bytes) (ks : List Bytes)
    → any (bytes_eq j) (take_while (λ k. has_prefix k p) ks) ≡ true
    → has_prefix j p ≡ true
any-prefixed p j [] h = cc
any-prefixed p j (k ∷ ks) h = ground (arith, bytes_eq_iff j k, any-prefixed p j ks)

pub scan-nil : (p : Bytes) → scan p [] ≡ []
unfolding scan
scan-nil p = refl

-- The first entry of a loop over a prefix is the one that Seek is at.
pub scan-cons :
    (p k v : Bytes) (es rest : Entries)
    → scan p es ≡ (k, v) ∷ rest
    → (has_prefix k p ≡ true) × ((more : Entries) × (seek p es ≡ (k, v) ∷ more))
unfolding scan
scan-cons p k v es rest h = first (seek p es) h
  where
    first :
        (xs : Entries)
        → take_while (λ e. has_prefix e.0 p) xs ≡ (k, v) ∷ rest
        → (has_prefix k p ≡ true) × ((more : Entries) × (xs ≡ (k, v) ∷ more))
    first [] h = cc
    first ((i, w) ∷ xs) h = elim (Bool-cases (has_prefix i p)) [
      | inl e ↦
          let same : (i, w) ∷ take_while (λ e. has_prefix e.0 p) xs ≡ (k, v) ∷ rest = rw e at h in
          ((cc (same, e)), (xs, cc same))
      | inr e ↦ cc (rw e at h)
    ]

-- In sorted entries a row of the rest is not hidden by the first.
pub lookup-later :
    (i w k v : Bytes) (es : Entries)
    → IsAbove i es
    → lookup k es ≡ some v
    → lookup k ((i, w) ∷ es) ≡ some v
unfolding lookup
lookup-later i w k v es a h = elim (Bool-cases (bytes_lt i k)) [
  | inr e ↦ cc (lookup-not-above i k es a e)
  | inl e ↦ ground (arith, bytes_eq_iff k i, bytes_lt_irrefl i)
]

-- Rows of the scan are rows of the entries, and the scan is sorted.
IsAbove-take_while :
    (p i : Bytes) (es : Entries) → IsAbove i es → IsAbove i (take_while (λ e. has_prefix e.0 p) es)
IsAbove-take_while p i [] a = tt
IsAbove-take_while p i ((j, w) ∷ es) a = ground (arith, IsAbove-take_while p i es)

IsSorted-take_while :
    (p : Bytes) (es : Entries) → IsSorted es → IsSorted (take_while (λ e. has_prefix e.0 p) es)
IsSorted-take_while p [] s = tt
IsSorted-take_while p ((j, w) ∷ es) s =
    ground (arith, IsAbove-take_while p j es, IsSorted-take_while p es)

IsSorted-seek : (p : Bytes) (es : Entries) → IsSorted es → IsSorted (seek p es)
IsSorted-seek p [] s = tt
IsSorted-seek p ((j, w) ∷ es) s = ground (arith, IsSorted-seek p es)

pub IsSorted-scan : (p : Bytes) (es : Entries) → IsSorted es → IsSorted (scan p es)
unfolding scan
IsSorted-scan p es s = IsSorted-take_while p (seek p es) (IsSorted-seek p es s)
