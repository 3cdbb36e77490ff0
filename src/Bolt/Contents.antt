-- ===== src/Bolt/Contents.antt =====
-- The contents of one bucket of the database as a cursor walks them: keys with their values, in
-- the byte order of the keys.
use go_s.Prelude.{
  Bytes, true, Option, none, some, List, [], ◌∷◌, ◌≡◌, refl, arith, bytes_eq, bytes_lt,
  bytes_eq_iff, bytes_lt_irrefl, bytes_lt_trans, bytes_lt_total, All, if◌then◌else◌, Bool-cases,
  inl, inr,
}

abbrev pub Entries : Type 0
Entries = List (Bytes × Bytes)

unfoldable pub lookup : Bytes → Entries → Option Bytes
lookup k [] = none
lookup k ((j, v) ∷ es) = let rest = lookup k es in if bytes_eq k j then some v else rest

-- A put: the value of a key is replaced, or a new key comes in at its place in the order.
unfoldable pub insert : Bytes → Bytes → Entries → Entries
insert k v [] = (k, v) ∷ []
insert k v ((j, w) ∷ es) =
    let rest = insert k v es in
    if bytes_eq k j
    then (k, v) ∷ es
    else if bytes_lt k j
    then (k, v) ∷ (j, w) ∷ es
    else (j, w) ∷ rest

unfoldable pub remove : Bytes → Entries → Entries
remove k [] = []
remove k ((j, w) ∷ es) = let rest = remove k es in if bytes_eq k j then rest else (j, w) ∷ rest

abbrev pub keys : Entries → List Bytes
keys [] = []
keys ((k, v) ∷ es) = k ∷ keys es

pub lookup-insert :
    (j k : Bytes) (v : Bytes) (es : Entries)
    → lookup j (insert k v es) ≡ (if bytes_eq j k then some v else lookup j es)
unfolding lookup insert
lookup-insert j k v [] = refl
lookup-insert j k v ((i, w) ∷ es) =
    ground (arith, bytes_eq_iff j k, bytes_eq_iff k i, bytes_eq_iff j i, lookup-insert j k v es)

pub lookup-remove :
    (j k : Bytes) (es : Entries)
    → lookup j (remove k es) ≡ (if bytes_eq j k then none else lookup j es)
unfolding lookup remove
lookup-remove j k [] = ground arith
lookup-remove j k ((i, w) ∷ es) =
    ground (arith, bytes_eq_iff j k, bytes_eq_iff k i, bytes_eq_iff j i, lookup-remove j k es)

-- Every key of the entries stands above `k`.
abbrev pub IsAbove : Bytes → Entries → Type 0
IsAbove k = All (λ e. bytes_lt k e.0 ≡ true)

abbrev pub IsSorted : Entries → Type 0
IsSorted [] = Unit {0}
IsSorted ((k, v) ∷ es) = IsAbove k es × IsSorted es

pub IsAbove-trans : (j k : Bytes) (es : Entries) → bytes_lt j k ≡ true → IsAbove k es → IsAbove j es
IsAbove-trans j k [] h a = tt
IsAbove-trans j k ((i, w) ∷ es) h a = (bytes_lt_trans j k i h a.0, IsAbove-trans j k es h a.1)

IsAbove-insert :
    (i k v : Bytes) (es : Entries) → bytes_lt i k ≡ true → IsAbove i es → IsAbove i (insert k v es)
unfolding insert
IsAbove-insert i k v [] h a = (h, tt)
IsAbove-insert i k v ((j, w) ∷ es) h a = ground (arith, IsAbove-insert i k v es)

pub insert-IsSorted : (k v : Bytes) (es : Entries) → IsSorted es → IsSorted (insert k v es)
unfolding insert
insert-IsSorted k v [] s = (tt, tt)
insert-IsSorted k v ((j, w) ∷ es) s = ground (
  arith,
  bytes_eq_iff k j,
  bytes_lt_total k j,
  IsAbove-trans k j es,
  IsAbove-insert j k v es,
  insert-IsSorted k v es,
)

IsAbove-remove : (i k : Bytes) (es : Entries) → IsAbove i es → IsAbove i (remove k es)
unfolding remove
IsAbove-remove i k [] a = tt
IsAbove-remove i k ((j, w) ∷ es) a = ground (arith, IsAbove-remove i k es)

pub remove-IsSorted : (k : Bytes) (es : Entries) → IsSorted es → IsSorted (remove k es)
unfolding remove
remove-IsSorted k [] s = tt
remove-IsSorted k ((j, w) ∷ es) s = ground (arith, IsAbove-remove j k es, remove-IsSorted k es)

-- A key that stands below all the others is not among them.
pub lookup-of-IsAbove : (k : Bytes) (es : Entries) → IsAbove k es → lookup k es ≡ none
unfolding lookup
lookup-of-IsAbove k [] a = refl
lookup-of-IsAbove k ((j, w) ∷ es) a = elim (Bool-cases (bytes_eq k j)) [
  | inl e ↦ let same : k ≡ j = (bytes_eq_iff k j).0 e in cc (bytes_lt_irrefl k, a.0, same)
  | inr e ↦ rw e (lookup-of-IsAbove k es a.1)
]
