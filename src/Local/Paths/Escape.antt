-- ===== src/Local/Paths/Escape.antt =====
-- What safePath does not keep apart: the files of two buckets.
use mathlib.Core.List.{append_assoc}
use go_s.Prelude.{
  ℕ, ◌==◌, path_traversal, split-append, Bytes, codes, Result, ok, err, List, [], ◌∷◌, ◌++◌, Bool,
  true, false, not, ◌&&◌, if◌then◌else◌, ◌≡◌, refl, sym, ◌∙◌, ap, bytes_eq, has_prefix, is_empty,
  split,
}
use go_s.Local.Paths.{
  print_path, add_segment, add_segments, clean, join_path, join_texts, safe_path,
}

-- A segment that names a file or directory: not empty, no separator in it, neither "." nor "..".
pub record IsName (s : Bytes) : Type 0 where
  pub nonempty : is_empty s ≡ false
  pub whole : split b'/' s ≡ s ∷ []
  pub not_here : bytes_eq s (codes ".") ≡ false
  pub not_up : bytes_eq s (codes "..") ≡ false

add_segments-append :
    (rooted : Bool) (xs ys stack : List Bytes)
    → add_segments rooted (xs ++ ys) stack ≡ add_segments rooted ys (add_segments rooted xs stack)
unfolding add_segments
add_segments-append rooted [] ys stack = refl
add_segments-append rooted (x ∷ xs) ys stack =
    add_segments-append rooted xs ys (add_segment rooted x stack)

-- A name and the way up from it leave the stack as it was.
add_segment-up :
    (rooted : Bool) (s : Bytes) (stack : List Bytes)
    → IsName s
    → add_segment rooted (codes "..") (add_segment rooted s stack) ≡ stack
unfolding add_segment bytes_eq
add_segment-up rooted s [] n = rw (n.nonempty, n.not_here, n.not_up, add_segment) (rw n.not_up)
add_segment-up rooted s (t ∷ stack) n =
    rw (n.nonempty, n.not_here, n.not_up, add_segment) (rw n.not_up)

-- The way from the directory of one bucket to the key of another.
abbrev pub detour : Bytes → Bytes → Bytes
detour bucket key = codes "../../" ++ (bucket ++ (codes "/objects/" ++ key))

split-name : (s t : Bytes) → split b'/' s ≡ s ∷ [] → split b'/' (s ++ b'/' ∷ t) ≡ s ∷ split b'/' t
split-name s t h = split-append b'/' s t ∙ ap (λ p. p ++ split b'/' t) h

-- What Join makes of the directory, the bucket and a key.
path_text : Bytes → Bytes → Bytes → Bytes
path_text d bucket key =
    d ++ b'/' ∷ (codes "buckets" ++ b'/' ∷ (bucket ++ b'/' ∷ (codes "objects" ++ b'/' ∷ key)))

split-path_text :
    (d bucket key : Bytes)
    → IsName bucket
    → split b'/' (path_text d bucket key)
      ≡ split b'/' d ++ codes "buckets" ∷ bucket ∷ codes "objects" ∷ split b'/' key
unfolding path_text split
split-path_text d bucket key n =
    let rest = codes "objects" ++ b'/' ∷ key in
    split-append b'/' d (codes "buckets" ++ b'/' ∷ (bucket ++ b'/' ∷ rest))
    ∙ ap (λ p. split b'/' d ++ p)
        (split-name (codes "buckets") (bucket ++ b'/' ∷ rest) refl
          ∙ ap (λ p. codes "buckets" ∷ p)
              (split-name bucket rest n.whole
                ∙ ap (λ p. bucket ∷ p) (split-name (codes "objects") key refl)))

detour-append :
    (other key v : Bytes)
    → detour other key ++ v
      ≡ codes ".."
        ++ b'/' ∷ (codes ".." ++ b'/' ∷ (other ++ b'/' ∷ (codes "objects" ++ b'/' ∷ (key ++ v))))
detour-append other key v =
    ap (λ t. codes "../../" ++ t) (append_assoc other (codes "/objects/" ++ key) v)

split-detour :
    (other key v : Bytes)
    → IsName other
    → split b'/' (detour other key ++ v)
      ≡ codes ".." ∷ codes ".." ∷ other ∷ codes "objects" ∷ split b'/' (key ++ v)
unfolding split
split-detour other key v n =
    let rest = codes "objects" ++ b'/' ∷ (key ++ v) in
    ap (split b'/') (detour-append other key v)
    ∙ split-name (codes "..") (codes ".." ++ b'/' ∷ (other ++ b'/' ∷ rest)) refl
    ∙ ap (λ p. codes ".." ∷ p)
        (split-name (codes "..") (other ++ b'/' ∷ rest) refl
          ∙ ap (λ p. codes ".." ∷ p)
              (split-name other rest n.whole
                ∙ ap (λ p. other ∷ p) (split-name (codes "objects") (key ++ v) refl)))

objects-IsName : IsName (codes "objects")
unfolding split bytes_eq
objects-IsName = record { nonempty = refl; whole = refl; not_here = refl; not_up = refl }

same_stack :
    (rooted : Bool) (d b other key v : Bytes)
    → IsName b
    → IsName other
    → add_segments rooted (split b'/' (path_text d b (detour other key ++ v))) []
      ≡ add_segments rooted (split b'/' (path_text d other (key ++ v))) []
unfolding add_segments
same_stack rooted d b other key v nb nother =
    let front = add_segment rooted (codes "buckets") (add_segments rooted (split b'/' d) []) in
    let last = split b'/' (key ++ v) in
    let at = λ (s : List Bytes).
      add_segments rooted last
        (add_segment rooted (codes "objects") (add_segment rooted other s)) in
    ap (λ p. add_segments rooted p [])
      (split-path_text d b (detour other key ++ v) nb
        ∙ ap (λ p. split b'/' d ++ codes "buckets" ∷ b ∷ codes "objects" ∷ p)
            (split-detour other key v nother))
    ∙ add_segments-append rooted (split b'/' d)
        (codes "buckets"
          ∷ b
          ∷ codes "objects"
          ∷ codes ".."
          ∷ codes ".."
          ∷ other
          ∷ codes "objects"
          ∷ last)
        []
    ∙ ap (λ s. at (add_segment rooted (codes "..") s))
        (add_segment-up rooted (codes "objects") (add_segment rooted b front) objects-IsName)
    ∙ ap at (add_segment-up rooted b front nb)
    ∙ sym (
        add_segments-append rooted (split b'/' d) (codes "buckets" ∷ other ∷ codes "objects" ∷ last)
          [])
    ∙ ap (λ p. add_segments rooted p []) (sym (split-path_text d other (key ++ v) nother))

join_lem :
    (d bucket key : Bytes)
    → is_empty d ≡ false
    → is_empty bucket ≡ false
    → is_empty key ≡ false
    → join_path (d ∷ codes "buckets" ∷ bucket ∷ codes "objects" ∷ key ∷ [])
      ≡ clean (path_text d bucket key)
unfolding join_path join_texts path_text
join_lem [] bucket key hd hb hk = cc
join_lem (x ∷ d) bucket key hd hb hk = rw (hb, hk)

clean_same :
    (x : ℕ) (d b other key v : Bytes)
    → IsName b
    → IsName other
    → clean (path_text (x ∷ d) b (detour other key ++ v))
      ≡ clean (path_text (x ∷ d) other (key ++ v))
unfolding clean path_text has_prefix
clean_same x d b other key v nb nother =
    let rooted = if x == b'/' then true else false in
    ap (print_path rooted) (same_stack rooted (x ∷ d) b other key v nb nother)

join_same :
    (d b other key v : Bytes)
    → IsName b
    → IsName other
    → is_empty d ≡ false
    → is_empty (key ++ v) ≡ false
    → join_path (d ∷ codes "buckets" ∷ b ∷ codes "objects" ∷ (detour other key ++ v) ∷ [])
      ≡ join_path (d ∷ codes "buckets" ∷ other ∷ codes "objects" ∷ (key ++ v) ∷ [])
join_same [] b other key v nb nother hd hk = cc
join_same (x ∷ d) b other key v nb nother hd hk =
    join_lem (x ∷ d) b (detour other key ++ v) refl nb.nonempty refl
    ∙ clean_same x d b other key v nb nother
    ∙ sym (join_lem (x ∷ d) other (key ++ v) refl nother.nonempty hk)

-- Whether a path is in the data directory.
checked : Bytes → Bytes → Result Bytes
checked d joined =
    if not (has_prefix (clean joined) (clean d ++ codes "/"))
      && not (bytes_eq (clean joined) (clean d))
    then err path_traversal
    else ok (clean joined)

-- The paths of a detour and of the key that it leads to are the same: a key of one bucket names the
-- file of any key of any other bucket. The names of the buckets are plain, the data directory and the
-- key with its version are not empty.
pub safe_path-detour :
    (data_dir bucket other key version_suffix : Bytes)
    → IsName bucket
    → IsName other
    → is_empty data_dir ≡ false
    → is_empty (key ++ version_suffix) ≡ false
    → safe_path data_dir bucket (detour other key) version_suffix
      ≡ safe_path data_dir other key version_suffix
unfolding safe_path checked
safe_path-detour d b other k v nb nother hd hk =
    ap (checked d) (join_same d b other k v nb nother hd hk)
