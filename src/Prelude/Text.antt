-- ===== src/Prelude/Text.antt =====
-- Go strings and byte slices as lists of bytes: equality, the byte order, and the functions of the
-- package strings that the program calls.
use Prim.Native.Nat.{ℕ, suc, ◌-◌}
use Prim.Native.Char.{code}
use Prim.Native.String.{String}
use mathlib.Core.Path.{◌≡◌, refl}
use mathlib.Core.Logic.{◌↔◌}
use mathlib.Core.Bool.{Bool, true, false}
use mathlib.Core.Option
use mathlib.Core.Option.{Option, none, some}
use mathlib.Core.List.{List, [], ◌∷◌, ◌++◌}
use native.Mathlib.Omega.{arith}
use go_s.Prelude.Tests.{ltb, ◌==◌, if◌then◌else◌}
use go_s.Prelude.Lists.{length, take, drop}

abbrev pub Bytes : Type 0
Bytes = List ℕ

-- The bytes of an ASCII text.
abbrev pub codes : String → Bytes
codes String.[] = []
codes (String.◌∷◌ c s) = code c ∷ codes s

unfoldable pub bytes_eq : Bytes → Bytes → Bool
bytes_eq [] [] = true
bytes_eq [] (y ∷ ys) = false
bytes_eq (x ∷ xs) [] = false
bytes_eq (x ∷ xs) (y ∷ ys) = let rest = bytes_eq xs ys in if x == y then rest else false

pub bytes_eq_refl : (s : Bytes) → bytes_eq s s ≡ true
unfolding bytes_eq
bytes_eq_refl [] = refl
bytes_eq_refl (x ∷ xs) = ground (arith, bytes_eq_refl xs)

bytes_eq→eq : (s t : Bytes) → bytes_eq s t ≡ true → s ≡ t
unfolding bytes_eq
bytes_eq→eq [] [] h = refl
bytes_eq→eq [] (y ∷ ys) h = cc
bytes_eq→eq (x ∷ xs) [] h = cc
bytes_eq→eq (x ∷ xs) (y ∷ ys) h = ground (arith, bytes_eq→eq xs ys)

pub bytes_eq_iff : (s t : Bytes) → (bytes_eq s t ≡ true) ↔ (s ≡ t)
bytes_eq_iff s t = (bytes_eq→eq s t, λ e. rw e (bytes_eq_refl t))

-- bytes.Compare(s, t) < 0
unfoldable pub bytes_lt : Bytes → Bytes → Bool
bytes_lt s [] = false
bytes_lt [] (y ∷ ys) = true
bytes_lt (x ∷ xs) (y ∷ ys) =
    let rest = bytes_lt xs ys in if ltb x y then true else if x == y then rest else false

pub bytes_lt_irrefl : (s : Bytes) → bytes_lt s s ≡ false
unfolding bytes_lt
bytes_lt_irrefl [] = refl
bytes_lt_irrefl (x ∷ xs) = ground (arith, bytes_lt_irrefl xs)

pub bytes_lt_trans :
    (s t u : Bytes) → bytes_lt s t ≡ true → bytes_lt t u ≡ true → bytes_lt s u ≡ true
unfolding bytes_lt
bytes_lt_trans s [] u h k = cc
bytes_lt_trans s (y ∷ t) [] h k = cc
bytes_lt_trans [] (y ∷ t) (z ∷ u) h k = refl
bytes_lt_trans (x ∷ s) (y ∷ t) (z ∷ u) h k = ground (arith, bytes_lt_trans s t u)

pub bytes_lt_total :
    (s t : Bytes) → bytes_lt s t ≡ false → bytes_eq s t ≡ false → bytes_lt t s ≡ true
unfolding bytes_lt bytes_eq
bytes_lt_total [] [] h k = cc
bytes_lt_total [] (y ∷ t) h k = cc
bytes_lt_total (x ∷ s) [] h k = refl
bytes_lt_total (x ∷ s) (y ∷ t) h k = ground (arith, bytes_lt_total s t)

-- strings.HasPrefix(s, p)
unfoldable pub has_prefix : Bytes → Bytes → Bool
has_prefix s [] = true
has_prefix [] (y ∷ p) = false
has_prefix (x ∷ s) (y ∷ p) = let rest = has_prefix s p in if x == y then rest else false

pub has_prefix-append : (p s : Bytes) → has_prefix (p ++ s) p ≡ true
unfolding has_prefix
has_prefix-append [] s = refl
has_prefix-append (x ∷ p) s = ground (arith, has_prefix-append p s)

pub append-of-has_prefix : (s p : Bytes) → has_prefix s p ≡ true → s ≡ p ++ drop (length p) s
unfolding has_prefix
append-of-has_prefix s [] h = refl
append-of-has_prefix [] (y ∷ p) h = cc
append-of-has_prefix (x ∷ s) (y ∷ p) h = ground (arith, append-of-has_prefix s p)

-- strings.HasSuffix(s, t)
unfoldable pub has_suffix : Bytes → Bytes → Bool
unfolding bytes_eq
has_suffix s t =
    if ltb (length s) (length t) then false else bytes_eq (drop (length s - length t) s) t

-- strings.TrimSuffix(s, t)
unfoldable pub trim_suffix : Bytes → Bytes → Bytes
unfolding has_suffix
trim_suffix s t = if has_suffix s t then take (length s - length t) s else s

-- strings.Index(s, sep); `none` is -1.
unfoldable pub index_of : Bytes → Bytes → Option ℕ
unfolding has_prefix
index_of [] sep = if has_prefix [] sep then some 0 else none
index_of (x ∷ s) sep =
    let rest = Option.map suc (index_of s sep) in if has_prefix (x ∷ s) sep then some 0 else rest

-- The words so far with one more byte in front.
add_byte : ℕ → ℕ → List Bytes → List Bytes
add_byte sep x [] = []
add_byte sep x (w ∷ ws) = if x == sep then [] ∷ w ∷ ws else (x ∷ w) ∷ ws

-- strings.Split(s, sep) for a separator of one byte.
unfoldable pub split : ℕ → Bytes → List Bytes
unfolding add_byte
split sep [] = [] ∷ []
split sep (x ∷ s) = add_byte sep x (split sep s)

-- A common front cancels.
pub bytes_eq-append : (p s t : Bytes) → bytes_eq (p ++ s) (p ++ t) ≡ bytes_eq s t
unfolding bytes_eq
bytes_eq-append [] s t = refl
bytes_eq-append (x ∷ p) s t = ground (arith, bytes_eq-append p s t)

-- A text with the prefix `p` does not stand below `p`.
pub bytes_lt-of-has_prefix : (s p : Bytes) → has_prefix s p ≡ true → bytes_lt s p ≡ false
unfolding bytes_lt has_prefix
bytes_lt-of-has_prefix s [] h = refl
bytes_lt-of-has_prefix [] (y ∷ p) h = cc
bytes_lt-of-has_prefix (x ∷ s) (y ∷ p) h = ground (arith, bytes_lt-of-has_prefix s p)

-- The texts with a prefix stand together in the order: one at or above `p` without the prefix is
-- above all of them.
pub bytes_lt-past-prefix :
    (s t p : Bytes)
    → has_prefix t p ≡ true
    → bytes_lt s p ≡ false
    → has_prefix s p ≡ false
    → bytes_lt s t ≡ false
unfolding bytes_lt has_prefix
bytes_lt-past-prefix s t [] h a b = cc
bytes_lt-past-prefix [] t (y ∷ p) h a b = cc
bytes_lt-past-prefix (x ∷ s) [] (y ∷ p) h a b = cc
bytes_lt-past-prefix (x ∷ s) (z ∷ t) (y ∷ p) h a b = ground (arith, bytes_lt-past-prefix s t p)

split-cons : (sep : ℕ) (s : Bytes) → (w : Bytes) × (ws : List Bytes) × (split sep s ≡ w ∷ ws)
unfolding split
split-cons sep [] = ([], [], refl)
split-cons sep (x ∷ s) =
    let (w, ws, e) = split-cons sep s in
    (if x == sep then [] else x ∷ w, if x == sep then w ∷ ws else ws, ground (arith, e))

-- The parts of two texts with a separator between them.
pub split-append : (sep : ℕ) (s t : Bytes) → split sep (s ++ sep ∷ t) ≡ split sep s ++ split sep t
unfolding split
split-append sep [] t = let (w, ws, e) = split-cons sep t in ground (arith, e)
split-append sep (x ∷ s) t =
    let (w, ws, e) = split-cons sep s in ground (arith, e, split-append sep s t)
