-- ===== src/Metadata/Names.antt =====
-- The names of the database's buckets and the formats of their keys, of
-- internal/storage/metadata/bbolt.go.
use go_s.Prelude.{
  Bytes, codes, [], ◌∷◌, ◌++◌, false, ◌≡◌, refl, bytes_eq, bytes_eq-append, has_prefix, All, ◌<◌,
  arith, ◌&&◌,
}

abbrev pub bucket_buckets : Bytes
bucket_buckets = codes "buckets"

abbrev pub bucket_uploads : Bytes
bucket_uploads = codes "uploads"

abbrev pub bucket_users : Bytes
bucket_users = codes "users"

abbrev pub bucket_policies : Bytes
bucket_policies = codes "policies"

abbrev pub bucket_cors : Bytes
bucket_cors = codes "cors"

abbrev pub bucket_lifecycle : Bytes
bucket_lifecycle = codes "lifecycle"

abbrev pub bucket_website : Bytes
bucket_website = codes "website"

abbrev pub bucket_service_accounts : Bytes
bucket_service_accounts = codes "service_accounts"

abbrev pub bucket_audit_logs : Bytes
bucket_audit_logs = codes "audit_logs"

abbrev pub bucket_iam_policies : Bytes
bucket_iam_policies = codes "iam_policies"

abbrev pub bucket_custom_domains : Bytes
bucket_custom_domains = codes "custom_domains"

abbrev pub bucket_notifications : Bytes
bucket_notifications = codes "notifications"

abbrev pub bucket_settings : Bytes
bucket_settings = codes "settings"

abbrev pub bucket_sessions : Bytes
bucket_sessions = codes "sessions"

-- []byte("objects:" + name)
unfoldable pub objects_of : Bytes → Bytes
objects_of name = codes "objects:" ++ name

-- []byte("versions:" + bucket)
unfoldable pub versions_of : Bytes → Bytes
versions_of name = codes "versions:" ++ name

-- []byte("parts:" + uploadID)
unfoldable pub parts_of : Bytes → Bytes
parts_of upload_id = codes "parts:" ++ upload_id

-- []byte(key + "\x00")
unfoldable pub version_prefix : Bytes → Bytes
version_prefix key = key ++ 0 ∷ []

-- fmt.Sprintf("%s\x00%s", key, versionId)
unfoldable pub version_key : Bytes → Bytes → Bytes
version_key key version_id = key ++ 0 ∷ version_id

pub objects_of-objects_of : (a b : Bytes) → bytes_eq (objects_of a) (objects_of b) ≡ bytes_eq a b
unfolding objects_of
objects_of-objects_of a b = bytes_eq-append (codes "objects:") a b

pub versions_of-versions_of :
    (a b : Bytes) → bytes_eq (versions_of a) (versions_of b) ≡ bytes_eq a b
unfolding versions_of
versions_of-versions_of a b = bytes_eq-append (codes "versions:") a b

pub objects_of-versions_of : (a b : Bytes) → bytes_eq (objects_of a) (versions_of b) ≡ false
unfolding objects_of versions_of bytes_eq
objects_of-versions_of a b = refl

pub versions_of-objects_of : (a b : Bytes) → bytes_eq (versions_of a) (objects_of b) ≡ false
unfolding objects_of versions_of bytes_eq
versions_of-objects_of a b = refl

pub version_key-version_key :
    (k u v : Bytes) → bytes_eq (version_key k u) (version_key k v) ≡ bytes_eq u v
unfolding version_key bytes_eq
version_key-version_key k u v = bytes_eq-append k (0 ∷ u) (0 ∷ v)

-- An object key that holds no byte 0.
abbrev pub NoNul : Bytes → Type 0
NoNul = All (λ c. 0 < c)

-- The version keys of two keys without a byte 0 are apart.
pub version_key_apart :
    (j k u v : Bytes)
    → NoNul j
    → NoNul k
    → bytes_eq (version_key j u) (version_key k v) ≡ bytes_eq j k && bytes_eq u v
unfolding version_key bytes_eq
version_key_apart [] [] u v a b = refl
version_key_apart [] (y ∷ k) u v a b = ground arith
version_key_apart (x ∷ j) [] u v a b = ground arith
version_key_apart (x ∷ j) (y ∷ k) u v a b = ground (arith, version_key_apart j k u v a.1 b.1)

-- With no byte 0 in the keys, the version keys with the prefix of a key are those of that key.
pub has_prefix-version_key :
    (j k u : Bytes)
    → NoNul j
    → NoNul k
    → has_prefix (version_key j u) (version_prefix k) ≡ bytes_eq j k
unfolding version_key version_prefix bytes_eq has_prefix
has_prefix-version_key [] [] u a b = refl
has_prefix-version_key [] (y ∷ k) u a b = ground arith
has_prefix-version_key (x ∷ j) [] u a b = ground arith
has_prefix-version_key (x ∷ j) (y ∷ k) u a b = ground (arith, has_prefix-version_key j k u a.1 b.1)
