-- ===== src/Metadata/Listing/RolledUp.antt =====
-- The common prefix of the keys that begin with one: it does not change with what comes after it.
use mathlib.Core.List.{append_assoc}
use go_s.Prelude.{
  ℕ, ◌+◌, ◌≤◌, Bytes, some, [], ◌∷◌, ◌++◌, ◌≡◌, refl, true, List, take, drop, length, length-append,
  has_prefix, index_of, arith, Bool-cases, Option-cases, inl, inr,
}
use go_s.Metadata.Listing.{common_prefix}

has_prefix-append-more :
    (s t sep : Bytes) → length sep ≤ length s → has_prefix (s ++ t) sep ≡ has_prefix s sep
unfolding has_prefix
has_prefix-append-more s t [] h = refl
has_prefix-append-more [] t (y ∷ sep) h = absurd (omega arith)
has_prefix-append-more (x ∷ s) t (y ∷ sep) h =
    ground (arith, has_prefix-append-more s t sep (omega arith))

has_prefix-length : (s sep : Bytes) → has_prefix s sep ≡ true → length sep ≤ length s
unfolding has_prefix
has_prefix-length s [] h = omega arith
has_prefix-length [] (y ∷ sep) h = cc
has_prefix-length (x ∷ s) (y ∷ sep) h = ground (arith, has_prefix-length s sep)

index_of-length : (s sep : Bytes) (i : ℕ) → index_of s sep ≡ some i → length sep ≤ length s
unfolding index_of
index_of-length [] sep i h = elim (Bool-cases (has_prefix [] sep)) [
  | inl e ↦ has_prefix-length [] sep e
  | inr e ↦ absurd (ground arith)
]
index_of-length (x ∷ s) sep i h = elim (Bool-cases (has_prefix (x ∷ s) sep)) [
  | inl e ↦ has_prefix-length (x ∷ s) sep e
  | inr e ↦ elim (Option-cases (index_of s sep)) [
    | inl n ↦ absurd (ground arith)
    | inr (j, n) ↦ let l = index_of-length s sep j n in omega (arith, l)
  ]
]

-- The first place of a separator stays the first when more text follows.
index_of-append :
    (s t sep : Bytes) (i : ℕ) → index_of s sep ≡ some i → index_of (s ++ t) sep ≡ some i
unfolding index_of has_prefix
index_of-append [] [] sep i h = h
index_of-append [] (y ∷ t) [] i h = h
index_of-append [] (y ∷ t) (z ∷ sep) i h = cc
index_of-append (x ∷ s) t sep i h =
    let l = index_of-length (x ∷ s) sep i h in
    elim (Bool-cases (has_prefix (x ∷ s) sep)) [
      | inl e ↦ ground (arith, e, has_prefix-append-more (x ∷ s) t sep l)
      | inr e ↦ elim (Option-cases (index_of s sep)) [
        | inl n ↦ absurd (ground arith)
        | inr (j, n) ↦
            ground
              (arith, e, n, has_prefix-append-more (x ∷ s) t sep l, index_of-append s t sep j n)
      ]
    ]

drop-append {ℓ} : {A : Type ℓ} (xs ys : List A) → drop (length xs) (xs ++ ys) ≡ ys
drop-append [] ys = refl
drop-append (x ∷ xs) ys = drop-append xs ys

take-append {ℓ} : {A : Type ℓ} (xs ys : List A) → take (length xs) (xs ++ ys) ≡ xs
take-append [] ys = refl
take-append (x ∷ xs) ys = rw (take-append xs ys)

pub common_prefix_under :
    (pfx front ds more : Bytes) (d : ℕ)
    → index_of (front ++ d ∷ ds) (d ∷ ds) ≡ some (length front)
    → common_prefix pfx (d ∷ ds) ((pfx ++ (front ++ d ∷ ds)) ++ more)
      ≡ some (pfx ++ (front ++ d ∷ ds))
unfolding common_prefix
common_prefix_under pfx front ds more d h =
    let l : length front + length (d ∷ ds) ≡ length (front ++ d ∷ ds) =
      omega (arith, length-append {0} front (d ∷ ds)) in
    rw (append_assoc pfx (front ++ d ∷ ds) more) (
      rw (common_prefix, drop-append pfx ((front ++ d ∷ ds) ++ more))
        (rw (index_of-append (front ++ d ∷ ds) more (d ∷ ds) (length front) h) (
          rw (drop-append pfx ((front ++ d ∷ ds) ++ more), l)
            (rw (take-append (front ++ d ∷ ds) more)))))
