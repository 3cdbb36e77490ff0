-- ===== src/Prelude.antt =====
-- The names that the other modules share: the libraries', passed on, and those of the children.
mod Tests
mod Lists
mod Text
mod Cuts
mod Errors
mod Int
mod Hex
mod Words
mod Decimal
pub use Tests.*
pub use Lists.*
unfoldable pub use Text.{bytes_eq, bytes_lt, has_prefix, has_suffix, index_of, trim_suffix, split}
pub use Text.*
unfoldable pub use Cuts.{cut}
pub use Cuts.*
pub use Errors.*
pub use Int.*
unfoldable pub use Hex.{hex_encode, hex_decode}
pub use Hex.*
unfoldable pub use Words.{skip_spaces, trim_space, fields, join_with, replace_byte}
pub use Words.*
unfoldable pub use Decimal.{decimal, parse_digits, parse_int}
pub use Decimal.*
pub use Prim.Native.Nat.{ℕ, zero, suc, ◌+◌, ◌-◌, ◌*◌, ◌/◌, ◌%◌, ◌^◌, ◌≤◌, ◌<◌}
pub use Prim.Native.String.{String}
pub use mathlib.Core.Path.{◌≡◌, refl, sym, ap, ◌∙◌}
pub use mathlib.Core.Logic.{◌≢◌, ◌↔◌, ◌⊎◌, inl, inr}
pub use mathlib.Core.Bool.{Bool, true, false, not, ◌&&◌, ◌||◌}
pub use mathlib.Core.Option.{Option, none, some}
pub use mathlib.Core.List.{List, [], ◌∷◌, ◌++◌, map}
pub use native.Mathlib.Omega.{arith}
