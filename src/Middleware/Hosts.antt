-- ===== src/Middleware/Hosts.antt =====
-- internal/middleware/vhost.go: the bucket that a host stands for.
pub mod Rewriting
use mathlib.Core.Option
use go_s.Prelude.{
  ℕ, Bytes, codes, Result, ok, err, Option, none, some, List, [], ◌∷◌, ◌++◌, Bool, true, false, not,
  ◌&&◌, if◌then◌else◌, ◌==◌, is_empty, has_prefix, has_suffix, trim_suffix,
}

-- What stands before the last colon.
unfoldable pub before_last_colon : Bytes → Option Bytes
before_last_colon [] = none
before_last_colon (c ∷ s) = elim (before_last_colon s) [
  | none ↦ if c == b':' then some [] else none
  | some front ↦ some (c ∷ front)
]

abbrev pub without_port : Bytes → Bytes
without_port host = elim (before_last_colon host) [ none ↦ host | some front ↦ front ]

-- The path that the next handler sees, and the values that are put into the context.
pub record Routed : Type 0 where
  pub path : Bytes
  pub custom_domain : Option Bytes

abbrev pub or_empty : Result Bytes → Bytes
or_empty (ok b) = b
or_empty (err e) = []

abbrev pub rewritten : Bytes → Bytes → Option Bytes → Routed
rewritten bucket path domain = record {
  path = b'/' ∷ (bucket ++ (if has_prefix path (codes "/") then path else b'/' ∷ path));
  custom_domain = domain;
}

-- The routing once the port is cut off. `get_custom_domain` is the metadata store's.
unfoldable pub route_host : (Bytes → Result Bytes) → Bytes → Bytes → Bytes → Routed
route_host get_custom_domain base_domain host path =
    let suffix = b'.' ∷ base_domain in
    let bucket : Bytes =
      if not (is_empty base_domain) && has_suffix host suffix
      then trim_suffix host suffix
      else [] in
    if not (is_empty bucket)
    then rewritten bucket path none
    else (let found = or_empty (get_custom_domain host) in
        if is_empty found
        then record { path = path; custom_domain = none }
        else rewritten found path (some host))

unfoldable pub custom_domain : (Bytes → Result Bytes) → Bytes → Bytes → Bytes → Routed
unfolding route_host before_last_colon
custom_domain get_custom_domain base_domain full_host path =
    route_host get_custom_domain base_domain (without_port full_host) path
