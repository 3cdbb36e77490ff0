-- ===== src/Metadata/Listing/Versions/Jumps.antt =====
-- Where the Seek past a common prefix of ListObjectVersions lands: above every key with that prefix,
-- where the last byte of the prefix is below 255.
use mathlib.Core.Path.{subst}
use go_s.Prelude.{
  is_empty, ◌⊎◌, ℕ, zero, suc, ◌+◌, ◌<◌, ◌≡◌, refl, Bytes, true, arith, Bool-cases, Option-cases,
  inl, inr, [], ◌∷◌, ◌++◌, some, has_prefix, bytes_lt, index_of, length, take, drop,
  append-of-has_prefix, sym, ap, ◌∙◌,
}
use go_s.Metadata.Listing.{common_prefix}
use go_s.Metadata.Listing.Versions.{bump_last}

-- A text that is not empty and whose last byte is below 255.
abbrev pub EndsBelow : Bytes → Type 0
EndsBelow [] = ⊥
EndsBelow (x ∷ []) = x < 255
EndsBelow (x ∷ y ∷ s) = EndsBelow (y ∷ s)

EndsBelow-append : (s t : Bytes) → EndsBelow t → EndsBelow (s ++ t)
EndsBelow-append [] t h = h
EndsBelow-append (x ∷ []) [] h = absurd h
EndsBelow-append (x ∷ []) (y ∷ t) h = h
EndsBelow-append (x ∷ y ∷ s) t h = EndsBelow-append (y ∷ s) t h

pub lt-bump_last :
    (k p : Bytes) → EndsBelow p → has_prefix k p ≡ true → bytes_lt k (bump_last p) ≡ true
unfolding bump_last bytes_lt has_prefix
lt-bump_last k [] b h = absurd b
lt-bump_last [] (x ∷ []) b h = cc
lt-bump_last [] (x ∷ y ∷ p) b h = cc
lt-bump_last (z ∷ k) (x ∷ []) b h = ground arith
lt-bump_last (z ∷ k) (x ∷ y ∷ p) b h = ground (arith, lt-bump_last k (y ∷ p) b)

pub has_prefix-take : (n : ℕ) (s : Bytes) → has_prefix s (take n s) ≡ true
unfolding has_prefix
has_prefix-take zero s = refl
has_prefix-take (suc n) [] = refl
has_prefix-take (suc n) (x ∷ s) = ground (arith, has_prefix-take n s)

pub has_prefix_trans :
    (s t u : Bytes) → has_prefix s t ≡ true → has_prefix t u ≡ true → has_prefix s u ≡ true
unfolding has_prefix
has_prefix_trans s t [] h k = refl
has_prefix_trans s [] (z ∷ u) h k = cc
has_prefix_trans [] (y ∷ t) (z ∷ u) h k = cc
has_prefix_trans (x ∷ s) (y ∷ t) (z ∷ u) h k = ground (arith, has_prefix_trans s t u)

has_prefix-append-append : (p s t : Bytes) → has_prefix (p ++ s) (p ++ t) ≡ has_prefix s t
unfolding has_prefix
has_prefix-append-append [] s t = refl
has_prefix-append-append (x ∷ p) s t = ground (arith, has_prefix-append-append p s t)

take_whole : (s p : Bytes) → has_prefix s p ≡ true → take (length p) s ≡ p
unfolding has_prefix
take_whole s [] h = refl
take_whole [] (y ∷ p) h = cc
take_whole (x ∷ s) (y ∷ p) h = ground (arith, take_whole s p)

-- Up to the end of the first separator: what stands before it, and it.
pub take-index_of :
    (s sep : Bytes) (i : ℕ) → index_of s sep ≡ some i → take (i + length sep) s ≡ take i s ++ sep
unfolding index_of
take-index_of [] sep i h = elim (Bool-cases (has_prefix [] sep)) [
  | inl e ↦
      let z : i ≡ 0 = ground arith in
      let w : i + length sep ≡ length sep = omega arith in rw w (rw z (take_whole [] sep e))
  | inr e ↦ absurd (ground arith)
]
take-index_of (x ∷ s) sep i h = elim (Bool-cases (has_prefix (x ∷ s) sep)) [
  | inl e ↦
      let z : i ≡ 0 = ground arith in
      let w : i + length sep ≡ length sep = omega arith in rw w (rw z (take_whole (x ∷ s) sep e))
  | inr e ↦ elim (Option-cases (index_of s sep)) [
    | inl n ↦ absurd (ground arith)
    | inr (j, n) ↦
        let z : i ≡ suc j = ground arith in
        let w : i + length sep ≡ suc (j + length sep) = omega arith in
        rw w (rw z (ap (λ t. x ∷ t) (take-index_of s sep j n)))
  ]
]

-- A common prefix of a key is a prefix of it, and ends as the delimiter does.
pub common_prefix_lem :
    (pfx delimiter key p : Bytes)
    → (is_empty delimiter ≡ true) ⊎ EndsBelow delimiter
    → has_prefix key pfx ≡ true
    → common_prefix pfx delimiter key ≡ some p
    → EndsBelow p × (has_prefix key p ≡ true)
unfolding common_prefix
common_prefix_lem pfx [] key p b h e = cc
common_prefix_lem pfx (d ∷ ds) key p (inl b) h e = cc
common_prefix_lem pfx (d ∷ ds) key p (inr b) h e =
    elim (Option-cases (index_of (drop (length pfx) key) (d ∷ ds))) [
      | inl n ↦ absurd (ground arith)
      | inr (idx, n) ↦
          let rem = drop (length pfx) key in
          let q : p ≡ pfx ++ take (idx + length (d ∷ ds)) rem = ground arith in
          let t = take-index_of rem (d ∷ ds) idx n in
          (
            rw (q, t) (EndsBelow-append pfx _ (EndsBelow-append (take idx rem) (d ∷ ds) b)),
            rw q (
                subst (λ t. has_prefix t (pfx ++ take (idx + length (d ∷ ds)) rem) ≡ true)
                  (sym (append-of-has_prefix key pfx h))
                  (has_prefix-append-append pfx rem _ ∙ has_prefix-take _ rem)),
          )
    ]
