-- ===== src/Examples/Signatures.antt =====
-- The theorems on signatures, at the request of a presigned URL.
use go_s.Prelude.{
  Bytes, codes, ok, err, user_not_found, Option, some, none, [], ◌∷◌, ◌++◌, ◌≡◌, refl, arith,
  if◌then◌else◌, bytes_eq, ◌⊎◌, true, false,
}
use go_s.Storage.{Time}
use go_s.Auth.{User}
use go_s.Auth.Requests.{Request, Digests}
use go_s.Auth.Signatures.{Accounts, Clock, lookup_by_access_key, verify}
use go_s.Auth.Signatures.Accepted.{IsHeaderSigned, IsQuerySigned, verify-IsGenuine}
use go_s.Auth.Signatures.Presigned.{presigned_request, verify-presigned}

-- Digests that keep the whole text.
abbrev whole : Digests
whole = record { sha256 = λ s. s; hmac_sha256 = λ k m. b'#' ∷ (k ++ m) }

abbrev read_time : Bytes → Option Time
read_time [] = none
read_time (t ∷ s) = some t

-- A clock that writes a time as one byte.
abbrev short_clock : Clock
short_clock = record {
  parse_time = read_time;
  format_time = λ t. t ∷ codes "Z";
  format_date = λ t. codes "20260102";
}

abbrev root_user : User
root_user = record {
  username = codes "root";
  password_hash = [];
  access_key_id = codes "AKIA";
  secret_key = codes "hidden";
  policies = [];
  is_root = true;
  disabled = false;
  created_at = 0;
}

-- No service accounts, and one user.
abbrev accounts : Accounts
accounts = record {
  sa_store = none;
  user_by_username = λ name. err user_not_found;
  user_by_access_key =
      λ key. if bytes_eq key (codes "AKIA") then ok root_user else err user_not_found;
}

abbrev followed : Request
followed =
    presigned_request whole short_clock 50 (codes "GET") (codes "s3.local") (codes "us-east-1")
      (codes "AKIA") (codes "hidden") (codes "docs") (codes "a") 60

verify-presigned_example : verify whole accounts short_clock 70 followed ≡ ok root_user
unfolding lookup_by_access_key bytes_eq
verify-presigned_example =
    verify-presigned whole short_clock 50 (codes "GET") (codes "s3.local") (codes "us-east-1")
      (codes "AKIA") (codes "hidden") (codes "docs") (codes "a") 60 accounts 70 root_user 50 refl
      refl (λ h. cc) (λ k m h. cc) (ground arith) (ground arith) (ground arith) b's'
      (codes "3.local") refl (ground arith) (omega arith) (omega arith) (omega arith) (omega arith)

-- The same, for a proof of another theorem.
accepted : verify whole accounts short_clock 70 followed ≡ ok root_user
unfolding lookup_by_access_key bytes_eq
accepted =
    verify-presigned whole short_clock 50 (codes "GET") (codes "s3.local") (codes "us-east-1")
      (codes "AKIA") (codes "hidden") (codes "docs") (codes "a") 60 accounts 70 root_user 50 refl
      refl (λ h. cc) (λ k m h. cc) (ground arith) (ground arith) (ground arith) b's'
      (codes "3.local") refl (ground arith) (omega arith) (omega arith) (omega arith) (omega arith)

verify-IsGenuine_example :
    IsHeaderSigned whole accounts short_clock 70 followed root_user
    ⊎ IsQuerySigned whole accounts short_clock 70 followed root_user
verify-IsGenuine_example =
    verify-IsGenuine whole accounts short_clock 70 followed root_user accepted
