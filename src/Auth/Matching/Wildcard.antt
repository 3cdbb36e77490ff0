-- ===== src/Auth/Matching/Wildcard.antt =====
-- What the patterns of a policy match: a text of their own, or, with a star at the end, every text
-- that begins with what stands before the star.
use mathlib.Core.Path.{subst}
use go_s.Prelude.{
  ℕ, ◌-◌, Bytes, ◌≡◌, ◌↔◌, ◌⊎◌, refl, sym, true, bytes_eq, bytes_eq_iff, bytes_eq_refl, has_prefix,
  has_suffix, trim_suffix, has_prefix-append, append-of-has_prefix, List, [], ◌∷◌, ◌++◌, length,
  take, drop, length-append, arith, Bool-cases, inl, inr, zero, suc,
}
use go_s.Auth.Matching.{star, match_wildcard}

-- A pattern matches a text.
abbrev pub Matches : Bytes → Bytes → Type 0
Matches pattern value =
    (pattern ≡ value)
    ⊎ ((front : Bytes) × (rest : Bytes) × (pattern ≡ front ++ star) × (value ≡ front ++ rest))

take-append-drop {ℓ} : {A : Type ℓ} (n : ℕ) (xs : List A) → take n xs ++ drop n xs ≡ xs
take-append-drop zero xs = refl
take-append-drop (suc n) [] = refl
take-append-drop (suc n) (x ∷ xs) = rw (take-append-drop n xs)

-- The parts of a pattern that ends in a star.
pub has_suffix-split : (s t : Bytes) → has_suffix s t ≡ true → s ≡ trim_suffix s t ++ t
unfolding trim_suffix has_suffix
has_suffix-split s t h =
    ground (
      arith,
      take-append-drop (length s - length t) s,
      bytes_eq_iff (drop (length s - length t) s) t,
    )

take-append {ℓ} : {A : Type ℓ} (xs ys : List A) → take (length xs) (xs ++ ys) ≡ xs
take-append [] ys = refl
take-append (x ∷ xs) ys = rw (take-append xs ys)

drop-append {ℓ} : {A : Type ℓ} (xs ys : List A) → drop (length xs) (xs ++ ys) ≡ ys
drop-append [] ys = refl
drop-append (x ∷ xs) ys = drop-append xs ys

front_length : (s t : Bytes) → length (s ++ t) - length t ≡ length s
front_length s t = omega (arith, length-append s t)

pub has_suffix-append : (s t : Bytes) → has_suffix (s ++ t) t ≡ true
unfolding has_suffix
has_suffix-append s t =
    rw (front_length s t, drop-append s t, has_suffix)
      (ground (arith, length-append s t, bytes_eq_refl t))

pub trim_suffix-append : (s t : Bytes) → trim_suffix (s ++ t) t ≡ s
unfolding trim_suffix
trim_suffix-append s t =
    rw (has_suffix-append s t, trim_suffix) (rw (front_length s t, take-append s t))

-- A text that ends in a star begins with what stands before the star.
has_prefix-trim : (s t : Bytes) → has_suffix s t ≡ true → has_prefix s (trim_suffix s t) ≡ true
has_prefix-trim s t h =
    subst (λ x. has_prefix x (trim_suffix s t) ≡ true) (sym (has_suffix-split s t h))
      (has_prefix-append (trim_suffix s t) t)

-- The matcher answers true exactly on the pattern itself and, for a pattern that ends in a star, on
-- the texts that begin with what stands before the star.
pub match_wildcard_iff :
    (pattern value : Bytes) → (match_wildcard pattern value ≡ true) ↔ Matches pattern value
unfolding match_wildcard
match_wildcard_iff pattern value = (sound, complete)
  where
    sound : match_wildcard pattern value ≡ true → Matches pattern value
    sound h = elim (Bool-cases (bytes_eq pattern star)) [
      | inl e ↦ inr ([], value, (bytes_eq_iff pattern star).0 e, refl)
      | inr e ↦ elim (Bool-cases (has_suffix pattern star)) [
        | inl s ↦ inr (
          trim_suffix pattern star,
          drop (length (trim_suffix pattern star)) value,
          has_suffix-split pattern star s,
          append-of-has_prefix value (trim_suffix pattern star) (rw (e, s, match_wildcard) at h),
        )
        | inr s ↦ inl ((bytes_eq_iff pattern value).0 (rw (e, s, match_wildcard) at h))
      ]
    ]

    same : match_wildcard value value ≡ true
    same = ground (arith, has_prefix-trim value star, bytes_eq_refl value)

    complete : Matches pattern value → match_wildcard pattern value ≡ true
    complete (inl e) = rw e same
    complete (inr (front, rest, p, v)) =
        rw (p, v)
          (ground (
            arith,
            has_suffix-append front star,
            trim_suffix-append front star,
            has_prefix-append front rest,
          ))
