-- ===== src/Prelude/Words.antt =====
-- White space in Go strings, and the words between it. White space outside ASCII counts as text.
use Prim.Native.Nat.{ℕ}
use mathlib.Core.Path.{◌≡◌, refl}
use mathlib.Core.Bool.{Bool, false, not, ◌&&◌, ◌||◌}
use mathlib.Core.List.{List, [], ◌∷◌, ◌++◌, map}
use native.Mathlib.Omega.{arith}
use go_s.Prelude.Tests.{leb, ◌==◌, if◌then◌else◌}
use go_s.Prelude.Lists.{keep, is_empty, All}
use go_s.Prelude.Text.{Bytes, split}

abbrev pub is_space : ℕ → Bool
is_space c = c == b' ' || (leb 9 c && leb c 13)

unfoldable pub skip_spaces : Bytes → Bytes
skip_spaces [] = []
skip_spaces (c ∷ s) = let rest = skip_spaces s in if is_space c then rest else c ∷ s

unfoldable pub drop_last_spaces : Bytes → Bytes
drop_last_spaces [] = []
drop_last_spaces (c ∷ s) =
    let rest = drop_last_spaces s in if is_space c && is_empty rest then [] else c ∷ rest

-- strings.TrimSpace
unfoldable pub trim_space : Bytes → Bytes
unfolding skip_spaces drop_last_spaces
trim_space s = drop_last_spaces (skip_spaces s)

-- strings.Fields
unfoldable pub fields : Bytes → List Bytes
fields s = keep (λ w. not (is_empty w)) (split b' ' (map (λ c. if is_space c then b' ' else c) s))

-- strings.Join
unfoldable pub join_with : Bytes → List Bytes → Bytes
join_with sep [] = []
join_with sep (w ∷ []) = w
join_with sep (w ∷ v ∷ ws) = w ++ (sep ++ join_with sep (v ∷ ws))

-- strings.ReplaceAll(s, old, new) for an old text of one byte
unfoldable pub replace_byte : ℕ → Bytes → Bytes → Bytes
replace_byte old new [] = []
replace_byte old new (c ∷ s) = (if c == old then new else c ∷ []) ++ replace_byte old new s

-- Text with no white space in it is one word.
split-word :
    (s : Bytes)
    → All (λ c. is_space c ≡ false) s
    → split b' ' (map (λ c. if is_space c then b' ' else c) s) ≡ s ∷ []
unfolding split
split-word [] h = refl
split-word (c ∷ s) h = ground (arith, h.0, split-word s h.1)

pub fields-word :
    (c : ℕ) (s : Bytes)
    → All (λ c. is_space c ≡ false) (c ∷ s)
    → join_with (b' ' ∷ []) (fields (c ∷ s)) ≡ c ∷ s
unfolding fields join_with
fields-word c s h = rw (split-word (c ∷ s) h) refl
