-- ===== src/Prelude/Cuts.antt =====
-- The text before and after a separator, as strings.SplitN and strings.Cut find it.
use Prim.Native.Nat.{ℕ}
use mathlib.Core.Path.{◌≡◌}
use mathlib.Core.Logic.{◌≢◌, inl, inr}
use mathlib.Core.Option.{Option, none, some}
use mathlib.Core.List.{[], ◌∷◌, ◌++◌}
use native.Mathlib.Omega.{arith}
use go_s.Prelude.Tests.{◌==◌, if◌then◌else◌, Bool-cases, Option-cases}
use go_s.Prelude.Lists.{All}
use go_s.Prelude.Text.{Bytes}

abbrev pub with_front : ℕ → Option (Bytes × Bytes) → Option (Bytes × Bytes)
with_front x none = none
with_front x (some (front, rest)) = some (x ∷ front, rest)

-- What stands before and after the first separator.
unfoldable pub cut : ℕ → Bytes → Option (Bytes × Bytes)
cut sep [] = none
cut sep (x ∷ s) = let more = with_front x (cut sep s) in if x == sep then some ([], s) else more

pub cut-append :
    (sep : ℕ) (s t : Bytes) → All (λ c. c ≢ sep) s → cut sep (s ++ sep ∷ t) ≡ some (s, t)
unfolding cut
cut-append sep [] t h = ground arith
cut-append sep (x ∷ s) t h = ground (arith, cut-append sep s t h.1)

pub cut-eq-some : (sep : ℕ) (s a b : Bytes) → cut sep s ≡ some (a, b) → s ≡ a ++ sep ∷ b
unfolding cut
cut-eq-some sep [] a b h = cc
cut-eq-some sep (x ∷ s) a b h = elim (Bool-cases (x == sep)) [
  | inl e ↦ ground arith
  | inr e ↦ elim (Option-cases (cut sep s)) [
    | inl n ↦ absurd (ground arith)
    | inr ((f, r), n) ↦ let rec = cut-eq-some sep s f r n in ground arith
  ]
]
