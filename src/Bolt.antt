-- ===== src/Bolt.antt =====
-- go.etcd.io/bbolt and encoding/json, which the metadata store calls and this repository does not
-- hold: a database of named buckets, each a map from keys to values that a cursor walks in byte
-- order. The operations are parameters, and `Laws` states what their documentation promises.
mod Contents
mod Defs
pub mod Scan
pub mod Handles
pub mod Sample
unfoldable pub use Contents.{Entries, lookup, insert, remove, keys, IsAbove, IsSorted}
pub use Contents.{lookup-insert, lookup-remove, IsAbove-trans, lookup-of-IsAbove, remove-IsSorted}
unfoldable pub use Defs.{decode, scan}
pub use Defs.*
