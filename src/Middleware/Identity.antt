-- ===== src/Middleware/Identity.antt =====
-- internal/middleware/auth.go: the user that a request goes on with.
use go_s.Prelude.{
  Bytes, codes, Result, ok, err, auth_missing, signature_does_not_match, Option, none, some, [],
  Bool, false, ◌||◌, if◌then◌else◌, bytes_eq, has_prefix,
}
use go_s.Auth.{User}

abbrev pub anonymous : User
anonymous = record {
  username = codes "anonymous";
  password_hash = [];
  access_key_id = [];
  secret_key = [];
  policies = [];
  is_root = false;
  disabled = false;
  created_at = 0;
}

-- Preflight requests and the server's own pages are not authenticated.
abbrev pub is_open : Bytes → Bytes → Bool
is_open method path =
    bytes_eq method (codes "OPTIONS")
    || bytes_eq path (codes "/_health")
    || bytes_eq path (codes "/_metrics")
    || has_prefix path (codes "/_ui")

abbrev pub user_or_anonymous : Result User → Result (Option User)
user_or_anonymous (ok user) = ok (some user)
user_or_anonymous (err auth_missing) = ok (some anonymous)
user_or_anonymous (err e) = err signature_does_not_match

-- The user that is put into the context, or the error that is answered; `verified` is what the
-- verifier says of the request.
unfoldable pub identify : Result User → Bytes → Bytes → Result (Option User)
unfolding bytes_eq has_prefix
identify verified method path = if is_open method path then ok none else user_or_anonymous verified
