-- ===== src/Local/Chunks/Endings.antt =====
-- The reads of a chunk that the source ends within.

use go_s.Prelude.{
  ℕ, ◌+◌, ◌-◌, ◌<◌, Bytes, Bool, some, none, [], ◌∷◌, ◌≡◌, refl, true, false, not, ◌&&◌, ◌==◌, leb,
  is_empty, length, take, drop, arith,
}
use go_s.Local.Chunks.{end_of_file, give, again, chunk_round, round, least, gets_end}
use go_s.Local.Chunks.Rounds.{within}

least_shorter : (size left n : ℕ) → n < left → least size (least left n) ≡ least size n
least_shorter size left n h = ground (arith, h)

-- The reads of what is there of a chunk all go past the buffer of bufio.
abbrev pub is_direct : ℕ → ℕ → Bytes → Bool
is_direct size count part = not (is_empty part) && (leb 4096 size && leb (length part + 4096) count)

module _ (joined : Bool) where
  -- A read of the rest of a source that ends before its chunk.
  pub short_round :
      (size left x : ℕ) (xs : Bytes)
      → length (x ∷ xs) < left
      → gets_end size left (within joined (x ∷ xs) end_of_file (some left) false) ≡ false
      → let n = least size (length (x ∷ xs)) in
        round size (within joined (x ∷ xs) end_of_file (some left) false)
        ≡ give
            (take n (x ∷ xs))
            (within joined (drop n (x ∷ xs)) end_of_file (some (left - n)) false)
  unfolding round chunk_round
  short_round size left x xs h g =
      let z : (left == 0) ≡ false = ground (arith, h) in
      rw (z, g) (rw (least_shorter size left (length (x ∷ xs)) h) refl)

  -- A read that takes the last bytes and gets the end with them.
  pub last_round :
      (size left x : ℕ) (xs : Bytes)
      → length (x ∷ xs) < left
      → gets_end size left (within joined (x ∷ xs) end_of_file (some left) false) ≡ true
      → let n = least size (length (x ∷ xs)) in
        round size (within joined (x ∷ xs) end_of_file (some left) false)
        ≡ again (within joined (drop n (x ∷ xs)) end_of_file none true)
  unfolding round chunk_round
  last_round size left x xs h g =
      let z : (left == 0) ≡ false = ground (arith, h) in
      rw (z, g) (rw (least_shorter size left (length (x ∷ xs)) h) refl)

  pub end_round :
      (size left : ℕ)
      → 0 < left
      → round size (within joined [] end_of_file (some left) false)
        ≡ again (within joined [] end_of_file none true)
  unfolding round chunk_round
  end_round size left h = let z : (left == 0) ≡ false = ground (arith, h) in rw z refl

  -- What a read gets that gets the end: all that is left.
  pub gets_end_all :
      (size left x : ℕ) (xs : Bytes)
      → length (x ∷ xs) < left
      → gets_end size left (within joined (x ∷ xs) end_of_file (some left) false) ≡ true
      → (joined ≡ true) × (least size (length (x ∷ xs)) ≡ length (x ∷ xs))
  unfolding gets_end
  gets_end_all size left x xs h g = ground (arith, g, h)

  -- A direct read that gets all that is left gets the end.
  pub gets_end_direct :
      (size left x : ℕ) (xs : Bytes)
      → length (x ∷ xs) < left
      → gets_end size left (within joined (x ∷ xs) end_of_file (some left) false) ≡ false
      → joined ≡ true
      → is_direct size left (x ∷ xs) ≡ true
      → least size (length (x ∷ xs)) < length (x ∷ xs)
  unfolding gets_end
  gets_end_direct size left x xs h g j d = ground (arith, g, h, j, d)
