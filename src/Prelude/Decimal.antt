-- ===== src/Prelude/Decimal.antt =====
-- Numbers in decimal: fmt's %d, and ParseInt and Atoi of the package strconv.
use Prim.Native.Nat.{ℕ, zero, suc, ◌+◌, ◌-◌, ◌*◌, ◌/◌, ◌%◌, ◌^◌, ◌<◌}
use mathlib.Core.Path.{◌≡◌, refl, ap, ◌∙◌}
use mathlib.Core.Logic.{inl, inr, ◌≢◌}
use mathlib.Core.Bool.{true, false, ◌&&◌}
use mathlib.Core.Option.{Option, none, some}
use mathlib.Core.List.{[], ◌∷◌, ◌++◌}
use native.Mathlib.Omega.{arith}
use go_s.Prelude.Tests.{if◌then◌else◌, ltb, leb, ◌==◌, Bool-cases, Option-cases, lt→ltb}
use go_s.Prelude.Text.{Bytes}
use go_s.Prelude.Int.{ℤ, pos, negsuc}

-- The decimal digits of a number below 10 ^ fuel; 19 are enough for an int.
unfoldable pub decimal : ℕ → ℕ → Bytes
decimal zero n = []
decimal (suc fuel) n =
    let front = decimal fuel (n / 10) in
    if ltb n 10 then (48 + n) ∷ [] else front ++ (48 + n % 10) ∷ []

abbrev pub digit_value : ℕ → Option ℕ
digit_value c = if leb b'0' c && leb c b'9' then some (c - b'0') else none

-- The number that a text of digits writes after one that is read already.
unfoldable pub parse_digits : ℕ → Bytes → Option ℕ
parse_digits n [] = some n
parse_digits n (c ∷ s) = elim (digit_value c) [ none ↦ none | some d ↦ parse_digits (n * 10 + d) s ]

abbrev pub digits_of : Bytes → Option ℕ
digits_of [] = none
digits_of (c ∷ s) = parse_digits 0 (c ∷ s)

abbrev pub not_above : ℕ → Option ℕ → Option ℤ
not_above limit none = none
not_above limit (some n) = if ltb n limit then some (pos n) else none

abbrev pub negated : Option ℕ → Option ℤ
negated none = none
negated (some zero) = some (pos 0)
negated (some (suc n)) = if ltb n (2 ^ 63) then some (negsuc n) else none

-- strconv.ParseInt(s, 10, 64) and, where an int has 64 bits, strconv.Atoi(s)
unfoldable pub parse_int : Bytes → Option ℤ
unfolding parse_digits
parse_int [] = none
parse_int (c ∷ s) =
    if c == b'-'
    then negated (digits_of s)
    else if c == b'+'
    then not_above (2 ^ 63) (digits_of s)
    else not_above (2 ^ 63) (digits_of (c ∷ s))

parse_digits-append :
    (n m : ℕ) (s t : Bytes) → parse_digits n s ≡ some m → parse_digits n (s ++ t) ≡ parse_digits m t
unfolding parse_digits
parse_digits-append n m [] t h = ground (arith, h)
parse_digits-append n m (c ∷ s) t h = elim (Option-cases (digit_value c)) [
  | inl e ↦ absurd (ground (arith, e, h))
  | inr (d, e) ↦
      let r : parse_digits (n * 10 + d) s ≡ some m = rw (e, parse_digits) at h in
      rw (e, parse_digits) (parse_digits-append (n * 10 + d) m s t r)
]

abbrev pub pow10 : ℕ → ℕ
pow10 zero = 1
pow10 (suc n) = 10 * pow10 n

digit_value-digit : (d : ℕ) → d < 10 → digit_value (48 + d) ≡ some d
digit_value-digit d h = ground arith

parse_digit : (m d : ℕ) → d < 10 → parse_digits m ((48 + d) ∷ []) ≡ some (m * 10 + d)
unfolding parse_digits
parse_digit m d h = rw (digit_value-digit d h, parse_digits) refl

-- A number that has at most as many digits as the fuel is read as it was written.
pub parse_digits-decimal :
    (fuel n : ℕ) → n < pow10 (suc fuel) → parse_digits 0 (decimal (suc fuel) n) ≡ some n
unfolding decimal
parse_digits-decimal zero n h =
    let e : ltb n 10 ≡ true = ground (arith, h) in
    rw e (parse_digit 0 n (omega arith) ∙ ap (λ k. some k) (omega arith))
parse_digits-decimal (suc fuel) n h = elim (Bool-cases (ltb n 10)) [
  | inl e ↦ rw e (parse_digit 0 n (ground (arith, e)) ∙ ap (λ k. some k) (omega arith))
  | inr e ↦
      let front = decimal (suc fuel) (n / 10) in
      let last = (48 + n % 10) ∷ [] in
      rw e (
        parse_digits-append 0 (n / 10) front last (parse_digits-decimal fuel (n / 10) (omega arith))
        ∙ parse_digit (n / 10) (n % 10) (omega arith)
        ∙ ap (λ k. some k) (omega arith))
]

not_sign : (c d : ℕ) → digit_value c ≡ some d → ((c == b'-') ≡ false) × ((c == b'+') ≡ false)
not_sign c d h = ground (arith, h)

-- A text of digits begins with no sign.
parse_int-digits :
    (s : Bytes) (n : ℕ)
    → s ≢ []
    → parse_digits 0 s ≡ some n
    → n < 2 ^ 63
    → parse_int s ≡ some (pos n)
unfolding parse_int parse_digits
parse_int-digits [] n e h b = absurd (e refl)
parse_int-digits (c ∷ s) n e h b = elim (Option-cases (digit_value c)) [
  | inl v ↦ let x : none ≡ some n = rw (v, parse_digits) at h in absurd (cc)
  | inr (d, v) ↦ let (m, p) = not_sign c d v in rw (m, p) (rw h (rw (lt→ltb n (2 ^ 63) b) refl))
]

decimal-ne : (fuel n : ℕ) → decimal (suc fuel) n ≢ []
unfolding decimal
decimal-ne fuel n h = elim (Bool-cases (ltb n 10)) [
  | inl e ↦ let x : (48 + n) ∷ [] ≡ [] = rw e at h in cc
  | inr e ↦ append-ne (decimal fuel (n / 10)) (rw e at h)
]
  where
    append-ne : (s : Bytes) → s ++ (48 + n % 10) ∷ [] ≡ [] → ⊥
    append-ne [] h = cc
    append-ne (x ∷ s) h = cc

-- An int64 that is not negative is read as fmt writes it.
pub parse_int-decimal : (n : ℕ) → n < 2 ^ 63 → parse_int (decimal 19 n) ≡ some (pos n)
parse_int-decimal n h =
    parse_int-digits (decimal 19 n) n (decimal-ne 18 n)
      (parse_digits-decimal 18 n (omega (arith, h))) h
