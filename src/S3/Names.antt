-- ===== src/S3/Names.antt =====
-- internal/s3/bucket_name.go, IsValidStorageClass of internal/s3/types.go and internal/auth/acl.go.
use go_s.Prelude.{
  ℕ, Bytes, codes, Result, ok, err, invalid_bucket_name, List, [], ◌∷◌, Bool, false, not, ◌&&◌,
  ◌||◌, if◌then◌else◌, ltb, ◌==◌, length, has_prefix, has_suffix, bytes_eq, index_of, is_some,
}

-- The tests IsUpper, IsLower and IsDigit of the package unicode on a rune. The runes of a text are those
-- that a `range` loop over it gives.
pub record Unicode : Type 0 where
  pub is_upper : ℕ → Bool
  pub is_lower : ℕ → Bool
  pub is_digit : ℕ → Bool
  pub runes : Bytes → List ℕ

abbrev pub is_name_rune : Unicode → ℕ → Bool
is_name_rune U c = not (U.is_upper c) && (U.is_lower c || U.is_digit c || c == b'-' || c == b'.')

unfoldable pub check_runes : Unicode → List ℕ → Result (Unit {0})
check_runes U [] = ok tt
check_runes U (c ∷ cs) =
    let rest = check_runes U cs in if is_name_rune U c then rest else err invalid_bucket_name

unfoldable pub validate_bucket_name : Unicode → Bytes → Result (Unit {0})
unfolding check_runes index_of has_prefix has_suffix
validate_bucket_name U name =
    if ltb (length name) 3 || ltb 63 (length name)
    then err invalid_bucket_name
    else if is_some (index_of name (codes ".."))
    then err invalid_bucket_name
    else if has_prefix name (codes "-") || has_suffix name (codes "-")
    then err invalid_bucket_name
    else check_runes U (U.runes name)

abbrev pub one_of : Bytes → List Bytes → Bool
one_of s [] = false
one_of s (t ∷ ts) = let rest = one_of s ts in bytes_eq s t || rest

unfoldable pub is_valid_storage_class : Bytes → Bool
unfolding bytes_eq
is_valid_storage_class sc = one_of sc (
    codes "STANDARD"
    ∷ codes "REDUCED_REDUNDANCY"
    ∷ codes "STANDARD_IA"
    ∷ codes "ONEZONE_IA"
    ∷ codes "INTELLIGENT_TIERING"
    ∷ codes "GLACIER"
    ∷ codes "DEEP_ARCHIVE"
    ∷ [])

-- ParseACL, on the header x-amz-acl
unfoldable pub parse_acl : Bytes → Bytes
unfolding bytes_eq
parse_acl acl =
    if one_of acl
      (codes "public-read" ∷ codes "public-read-write" ∷ codes "authenticated-read" ∷ [])
    then acl
    else codes "private"

unfoldable pub is_public_read : Bytes → Bool
unfolding bytes_eq
is_public_read acl = one_of acl (codes "public-read" ∷ codes "public-read-write" ∷ [])
