-- ===== src/Local/Chunks/CutOff.antt =====
-- A body in signed chunks that ends within a chunk.

use go_s.Prelude.{ℕ, ◌≤◌, ◌<◌, Bytes, Bool, List, some, [], ◌++◌, ◌≡◌, true, false, length}
use go_s.Local.Chunks.{end_of_file, copy}
use go_s.Local.Chunks.Rounds.{within}
use go_s.Local.Chunks.Endings.{is_direct}

-- What can be lost of a chunk that is cut off, by whether the source returns its last bytes together
-- with its end, and whether this surely loses some.
abbrev pub IsLost : Bool → Bool → ℕ → Bytes → Type 0
IsLost false sure size lost = lost ≡ []
IsLost true false size lost = length lost ≤ size
IsLost true true size lost = (0 < length lost) × (length lost ≤ size)

module _ (joined : Bool) where
  -- How the copying of a chunk ends that is cut off.
  abbrev Ends : ℕ → ℕ → ℕ → Bytes → Bytes → Type 0
  Ends fuel size left rest got =
      (kept : Bytes) × (lost : Bytes) × (rest ≡ kept ++ lost)
      × (copy fuel size (within joined rest end_of_file (some left) false) got
          ≡ some (got ++ kept, end_of_file))
      × IsLost joined (is_direct size left rest) size lost
