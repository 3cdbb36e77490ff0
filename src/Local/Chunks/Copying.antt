-- ===== src/Local/Chunks/Copying.antt =====
-- What io.Copy gets from the reader of signed chunks.
use mathlib.Core.Path.{subst}
use go_s.Prelude.{
  take, ◌-◌, length-drop, ℕ, zero, suc, ◌+◌, ◌*◌, ◌≤◌, ◌<◌, Bytes, Option, none, some, [], ◌∷◌,
  ◌++◌, ◌≡◌, refl, ap, inl, inr, Bool, true, false, ◌==◌, if◌then◌else◌, ltb, length, drop,
  length-append, is_empty, is_some, cut, cut-eq-some, arith, Bool-cases, Option-cases,
}
use go_s.Local.Chunks.{
  Stop, end_of_file, broken, Reader, Round, give, give_last, stop, again, taken, gets_end, Line,
  line, no_line, read_line, header_round, trail_round, chunk_round, round, stopped_already, copy,
  parse_header, chunk_end, least, failed, short_read,
}

-- How many rounds the reader can go at most.
abbrev pub rounds : Reader → ℕ
rounds r = 2 * length r.rest + (if is_some r.chunk then 1 else 0)

-- A round that does not end the copying has used up some of the rounds.
abbrev Falls : ℕ → Round → Type 0
Falls n (give bytes r) = rounds r < n
Falls n (give_last bytes e r) = Unit {0}
Falls n (stop e r) = Unit {0}
Falls n (again r) = rounds r < n

read_line-shorter :
    (rest : Bytes) (tail : Stop) (text after : Bytes)
    → read_line rest tail ≡ line text after
    → length after < length rest
unfolding read_line
read_line-shorter rest tail text after h = elim (Option-cases (cut b'\n' rest)) [
  | inl n ↦ absurd (ground (arith, n))
  | inr ((a, b), n) ↦
      let e = ap (λ (s : Bytes). length s) (cut-eq-some b'\n' rest a b n) in
      let l = length-append {0} a (b'\n' ∷ b) in ground (arith, n, e, l)
]

header_round-Falls : (n : ℕ) (r : Reader) → 2 * length r.rest ≤ n → Falls n (header_round r)
unfolding header_round
header_round-Falls n r h = by (read_line r.rest r.tail) refl
  where
    counted :
        (text after : Bytes)
        → read_line r.rest r.tail ≡ line text after
        → (o : Option (Option ℕ))
        → Falls n (elim o [
          | none ↦ failed broken r
          | some none ↦ stop end_of_file (record r { rest = after; eof = true })
          | some (some count) ↦ again (record r { rest = after; chunk = some count })
        ])
    counted text after e none = tt
    counted text after e (some none) = tt
    counted text after e (some (some count)) =
        omega (arith, read_line-shorter r.rest r.tail text after e)

    by :
        (l : Line)
        → read_line r.rest r.tail ≡ l
        → Falls n (elim l [
          | no_line e ↦ failed e r
          | line text after ↦ elim (parse_header text) [
            | none ↦ failed broken r
            | some none ↦ stop end_of_file (record r { rest = after; eof = true })
            | some (some count) ↦ again (record r { rest = after; chunk = some count })
          ]
        ])
    by (no_line e) p = tt
    by (line text after) p = counted text after p (parse_header text)

trail_round-Falls : (r : Reader) → r.chunk ≡ none → Falls (rounds r) (trail_round r)
unfolding trail_round
trail_round-Falls r c = by r.chunk_eof (ltb (length r.rest) 2)
  where
    enough : 2 * length r.rest ≤ rounds r
    enough = omega arith

    by :
        (a b : Bool)
        → Falls (rounds r) (
            if a
            then if b
              then failed (short_read r.rest r.tail) r
              else header_round (record r { rest = drop 2 r.rest; chunk_eof = false })
            else header_round r)
    by true true = tt
    by true false =
        header_round-Falls (rounds r) (record r { rest = drop 2 r.rest; chunk_eof = false })
          (omega (arith, length-drop {0} 2 r.rest))
    by false b = header_round-Falls (rounds r) r enough

length_pos : (s : Bytes) → is_empty s ≡ false → 0 < length s
length_pos [] h = cc
length_pos (x ∷ s) h = omega arith

at_end :
    (n : ℕ) (r : Reader)
    → rounds (chunk_end r) < n
    → (tail : Stop)
    → Falls n (elim tail [ end_of_file ↦ again (chunk_end r) | broken ↦ failed broken r ])
at_end n r h end_of_file = h
at_end n r h broken = tt

taken-Falls :
    (n : ℕ) (b : Bool) (bytes : Bytes) (r : Reader)
    → rounds r < n
    → 2 * length r.rest + 1 ≤ n
    → Falls n (taken b bytes r)
taken-Falls n false bytes r h k = h
taken-Falls n true bytes r h k = ends r.tail
  where
    ends :
        (t : Stop)
        → Falls n (elim t [
          | end_of_file ↦ again (chunk_end r)
          | broken ↦ give_last bytes broken (record r { read_err = some broken })
        ])
    ends end_of_file = omega arith
    ends broken = tt

chunk_round-Falls :
    (size left : ℕ) (r : Reader)
    → 0 < size
    → r.chunk ≡ some left
    → Falls (rounds r) (chunk_round size left r)
unfolding chunk_round
chunk_round-Falls size left r pos c = elim (Bool-cases (left == 0)) [
  | inl e ↦ rw e ends
  | inr e ↦ rw e (elim (Bool-cases (is_empty r.rest)) [
    | inl i ↦ rw i (at_end (rounds r) r ends r.tail)
    | inr i ↦
        let n = least size (least left (length r.rest)) in
        let l = length-drop {0} n r.rest in
        let p = length_pos r.rest i in
        let q : 0 < n = ground (arith, e, p) in
        let r' : Reader = record r { rest = drop n r.rest; chunk = some (left - n) } in
        let f : rounds r' < rounds r = rw c (omega (arith, l, p, q)) in
        rw i (
          taken-Falls (rounds r) (gets_end size left r) (take n r.rest) r' f
            (omega (arith, l, p, q)))
  ])
]
  where
    ends : rounds (chunk_end r) < rounds r
    ends = rw c (omega arith)

round-Falls : (size : ℕ) (r : Reader) → 0 < size → Falls (rounds r) (round size r)
unfolding round
round-Falls size r pos = by r.chunk refl
  where
    by :
        (o : Option ℕ)
        → r.chunk ≡ o
        → Falls (rounds r) (elim o [ some left ↦ chunk_round size left r | none ↦ trail_round r ])
    by none c = trail_round-Falls r c
    by (some left) c = chunk_round-Falls size left r pos c

-- Copying from the reader of signed chunks ends, whatever the source holds and ends with, where the
-- buffer is not empty: it takes at most two rounds for each byte of the source, one for a chunk that is
-- begun, and a last one.
pub copy_total :
    (fuel size : ℕ) (r : Reader) (got : Bytes)
    → 0 < size
    → rounds r < fuel
    → (end : Bytes × Stop) × (copy fuel size r got ≡ some end)
unfolding copy
copy_total zero size r got pos h = elim h [ ]
copy_total (suc fuel) size r got pos h =
    by (stopped_already r) (round size r) refl (λ r' g f. copy_total fuel size r' g pos f)
  where
    by :
        (o : Option Stop) (w : Round)
        → round size r ≡ w
        → ((r' : Reader) (g : Bytes)
            → rounds r' < fuel
            → (end : Bytes × Stop) × (copy fuel size r' g ≡ some end))
        → (end : Bytes × Stop) × ((elim o [
          | some e ↦ some (got, e)
          | none ↦ elim w [
            | give bytes r' ↦ copy fuel size r' (got ++ bytes)
            | give_last bytes e r' ↦ some (got ++ bytes, e)
            | stop e r' ↦ some (got, e)
            | again r' ↦ copy fuel size r' got
          ]
        ])
            ≡ some end)
    by (some e) w p ih = ((got, e), refl)
    by none (give bytes r') p ih =
        let f : rounds r' < rounds r = subst (Falls (rounds r)) p (round-Falls size r pos) in
        ih r' (got ++ bytes) (omega arith)
    by none (give_last bytes e r') p ih = ((got ++ bytes, e), refl)
    by none (stop e r') p ih = ((got, e), refl)
    by none (again r') p ih =
        let f : rounds r' < rounds r = subst (Falls (rounds r)) p (round-Falls size r pos) in
        ih r' got (omega arith)
