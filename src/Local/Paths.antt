-- ===== src/Local/Paths.antt =====
-- safePath of internal/storage/local/local.go, over the functions Join and Clean of the package
-- path/filepath on a system with the separator "/".
pub mod Escape
use go_s.Prelude.{
  Bytes, codes, Result, ok, err, path_traversal, List, [], ◌∷◌, ◌++◌, Bool, true, false, not, ◌&&◌,
  ◌||◌, if◌then◌else◌, bytes_eq, has_prefix, is_empty, split, keep,
}

-- One segment of a path against those before it, the last of them first.
unfoldable pub add_segment : Bool → Bytes → List Bytes → List Bytes
add_segment rooted seg [] =
    if is_empty seg || bytes_eq seg (codes ".")
    then []
    else if bytes_eq seg (codes "..") && rooted
    then []
    else seg ∷ []
add_segment rooted seg (top ∷ stack) =
    if is_empty seg || bytes_eq seg (codes ".")
    then top ∷ stack
    else if not (bytes_eq seg (codes ".."))
    then seg ∷ top ∷ stack
    else if bytes_eq top (codes "..")
    then seg ∷ top ∷ stack
    else stack

unfoldable pub add_segments : Bool → List Bytes → List Bytes → List Bytes
add_segments rooted [] stack = stack
add_segments rooted (seg ∷ segs) stack = add_segments rooted segs (add_segment rooted seg stack)

-- The segments of a stack, with a separator between them.
unfoldable pub join_stack : List Bytes → Bytes
join_stack [] = []
join_stack (seg ∷ []) = seg
join_stack (seg ∷ next ∷ stack) = join_stack (next ∷ stack) ++ b'/' ∷ seg

abbrev pub is_rooted : Bytes → Bool
is_rooted path = has_prefix path (codes "/")

abbrev pub print_path : Bool → List Bytes → Bytes
print_path true stack = b'/' ∷ join_stack stack
print_path false [] = codes "."
print_path false (seg ∷ stack) = join_stack (seg ∷ stack)

-- filepath.Clean
unfoldable pub clean : Bytes → Bytes
unfolding join_stack
clean path = print_path (is_rooted path) (add_segments (is_rooted path) (split b'/' path) [])

unfoldable pub join_texts : List Bytes → Bytes
join_texts [] = []
join_texts (e ∷ []) = e
join_texts (e ∷ f ∷ es) = e ++ b'/' ∷ join_texts (f ∷ es)

-- filepath.Join: empty elements are passed over.
unfoldable pub join_path : List Bytes → Bytes
unfolding join_texts
join_path elems =
    let path = join_texts (keep (λ e. not (is_empty e)) elems) in
    if is_empty path then [] else clean path

unfoldable pub safe_path : Bytes → Bytes → Bytes → Bytes → Result Bytes
unfolding join_path clean
safe_path data_dir bucket key version_suffix =
    let p = clean (
      join_path
        (data_dir ∷ codes "buckets" ∷ bucket ∷ codes "objects" ∷ (key ++ version_suffix) ∷ [])) in
    let base = clean data_dir in
    if not (has_prefix p (base ++ codes "/")) && not (bytes_eq p base)
    then err path_traversal
    else ok p
