-- ===== src/Local/Chunks/Rounds.antt =====
-- The rounds of the reader of signed chunks, one by one.

use go_s.Prelude.{
  ℕ, zero, suc, ◌≤◌, ◌<◌, Bytes, Option, none, some, List, [], ◌∷◌, ◌++◌, ◌≡◌, refl, ap, Bool, true,
  false, ◌==◌, ltb, length, take, drop, length-append, length-drop, cut-append, arith, ◌≢◌, All,
}
use go_s.Local.Chunks.{
  Stop, Reader, Round, give, give_last, gets_end, stop, again, line, read_line, new_reader,
  header_round, trail_round, chunk_round, round, copy, stopped_already, least,
}

-- A header is one line that the reader's buffer holds.
abbrev pub IsLine : Bytes → Type 0
IsLine text = All (λ c. c ≢ b'\n') text × (length text < 4096)

abbrev pub within : Bool → Bytes → Stop → Option ℕ → Bool → Reader
within joined rest tail chunk chunk_eof = record (new_reader joined rest tail) {
  chunk = chunk;
  chunk_eof = chunk_eof;
}

pub read_line_lem :
    (text after : Bytes) (tail : Stop)
    → IsLine text
    → read_line (text ++ b'\n' ∷ after) tail ≡ line text after
unfolding read_line
read_line_lem text after tail (n, l) =
    rw (cut-append b'\n' text after n, read_line) (ground (arith, l))

ltb_two : (n : ℕ) → ltb (suc (suc n)) 2 ≡ false
ltb_two n = ground arith

pub trail_round_lem :
    (joined : Bool) (rest : Bytes) (tail : Stop)
    → trail_round (within joined (b'\r' ∷ b'\n' ∷ rest) tail none true)
      ≡ header_round (within joined rest tail none false)
unfolding trail_round
trail_round_lem joined rest tail = rw (ltb_two (length rest)) refl

pub copy_next :
    (fuel size : ℕ) (r : Reader) (got : Bytes) (w : Round)
    → stopped_already r ≡ none
    → round size r ≡ w
    → copy (suc fuel) size r got ≡ (elim w [
      | give bytes r' ↦ copy fuel size r' (got ++ bytes)
      | give_last bytes e r' ↦ some (got ++ bytes, e)
      | stop e r' ↦ some (got, e)
      | again r' ↦ copy fuel size r' got
    ])
unfolding copy
copy_next fuel size r got w s e = rw (s, copy) (rw (e, copy) refl)

-- A chunk that is read to its end.
pub ended :
    (joined : Bool) (fuel size : ℕ) (rest : Bytes) (tail : Stop) (got : Bytes)
    → copy (suc fuel) size (within joined rest tail (some 0) false) got
      ≡ copy fuel size (within joined rest tail none true) got
unfolding round chunk_round
ended joined fuel size rest tail got =
    copy_next fuel size (within joined rest tail (some 0) false) got
      (again (within joined rest tail none true)) refl refl

pub take-drop {ℓ} : {A : Type ℓ} (n : ℕ) (xs : List A) → take n xs ++ drop n xs ≡ xs
take-drop zero xs = refl
take-drop (suc n) [] = refl
take-drop (suc n) (x ∷ xs) = ap (λ ys. x ∷ ys) (take-drop n xs)

-- A read within a chunk stays within it.
take-append {ℓ} :
    {A : Type ℓ} (n : ℕ) (xs ys : List A) → n ≤ length xs → take n (xs ++ ys) ≡ take n xs
take-append zero xs ys h = refl
take-append (suc n) [] ys h = absurd (omega arith)
take-append (suc n) (x ∷ xs) ys h = ap (λ zs. x ∷ zs) (take-append n xs ys (omega arith))

drop-append {ℓ} :
    {A : Type ℓ} (n : ℕ) (xs ys : List A) → n ≤ length xs → drop n (xs ++ ys) ≡ drop n xs ++ ys
drop-append zero xs ys h = refl
drop-append (suc n) [] ys h = absurd (omega arith)
drop-append (suc n) (x ∷ xs) ys h = drop-append n xs ys (omega arith)

least-append :
    (size : ℕ) (xs ys : Bytes)
    → least size (least (length xs) (length (xs ++ ys))) ≡ least size (length xs)
least-append size xs ys = ground (arith, length-append {0} xs ys)

-- A read of a chunk that the source goes on after does not get the end of the source.
gets_end-more :
    (joined : Bool) (size : ℕ) (xs more : Bytes) (tail : Stop)
    → 0 < length more
    → gets_end size (length xs) (within joined (xs ++ more) tail (some (length xs)) false) ≡ false
unfolding gets_end
gets_end-more joined size xs more tail h = ground (arith, length-append {0} xs more)

-- A read of a chunk that is not at its end.
pub chunk_round_lem :
    (joined : Bool) (size x : ℕ) (xs more : Bytes) (tail : Stop)
    → 0 < length more
    → let n = least size (length (x ∷ xs)) in
      round size (within joined ((x ∷ xs) ++ more) tail (some (length (x ∷ xs))) false)
      ≡ give
          (take n (x ∷ xs))
          (within joined (drop n (x ∷ xs) ++ more) tail (some (length (drop n (x ∷ xs)))) false)
unfolding round chunk_round
chunk_round_lem joined size x xs more tail m =
    let s = x ∷ xs in
    let n = least size (length s) in
    let b : n ≤ length s = ground arith in
    let z : (suc (length xs) == 0) ≡ false = ground arith in
    rw (z, gets_end-more joined size s more tail m)
      (rw (least-append size s more, take-append n s more b, drop-append n s more b)
        (rw (length-drop {0} n s) refl))
