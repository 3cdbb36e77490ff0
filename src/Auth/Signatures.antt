-- ===== src/Auth/Signatures.antt =====
-- The verification of signatures, internal/auth/sigv4.go, and ServiceAccount.IsExpired.
pub mod Entitled
pub mod Accepted
pub mod Presigned
use go_s.Prelude.{
  ℕ, zero, suc, ◌+◌, ◌*◌, Bytes, codes, Result, ok, err, auth_missing, auth_malformed,
  signature_mismatch, time_skewed, Option, none, some, List, [], ◌∷◌, ◌++◌, Bool, true, false, not,
  ◌&&◌, ◌||◌, ◌>>=◌, if◌then◌else◌, ltb, leb, bytes_eq, is_empty, has_prefix, split, drop,
  trim_space, trim_suffix, decimal, parse_int, join_with, ℤ, pos, negsuc,
}
use go_s.Storage.{Time}
use go_s.Auth.Defs.{User, ServiceAccount}
use go_s.Auth.Requests.{
  Request, Query, Digests, Scope, query_get, query_del, percent_spaces, query_parts, sort_query,
  lines, compute_signature, sign_request, get_signature_key,
}
use go_s.Prelude.{hex_encode}

unfoldable pub is_expired : Time → ServiceAccount → Bool
is_expired now sa = elim sa.expires_at [ none ↦ false | some date ↦ ltb date now ]

-- The lookups of UserStore and ServiceAccountStore that the verifier calls; `sa_store` is a nil
-- interface or a store.
pub record Accounts : Type 0 where
  pub sa_store : Option (Bytes → Result ServiceAccount)
  pub user_by_username : Bytes → Result User
  pub user_by_access_key : Bytes → Result User

-- A time by its text in the format "20060102T150405Z", and that text.
pub record Clock : Type 0 where
  pub parse_time : Bytes → Option Time
  pub format_time : Time → Bytes
  pub format_date : Time → Bytes

abbrev pub minutes_15 : ℕ
minutes_15 = 900000000000

-- time.Since(t) > d and time.Until(t) > d
abbrev pub since_over : Time → Time → ℕ → Bool
since_over now t d = ltb (t + d) now

abbrev pub until_over : Time → Time → ℕ → Bool
until_over now t d = ltb (now + d) t

abbrev pub guard : {A : Type 0} → Bool → Result A → Result A → Result A
guard true failure rest = failure
guard false failure rest = rest

abbrev pub found_key : Accounts → Bytes → Result (User × Bytes)
found_key A access_key = do user ← A.user_by_access_key access_key; ok (user, user.secret_key)

-- A service account that was found, with its parent user.
unfoldable pub resolve : Accounts → Time → ServiceAccount → Result (User × Bytes)
unfolding is_expired
resolve A now sa = guard (sa.disabled || is_expired now sa) (err auth_missing) (do
  parent ← A.user_by_username sa.parent_user
  guard parent.disabled (err auth_missing)
      (ok (record parent { access_key_id = sa.access_key_id }, sa.secret_key)))

unfoldable pub lookup_by_access_key : Accounts → Time → Bytes → Result (User × Bytes)
unfolding resolve
lookup_by_access_key A now access_key = elim A.sa_store [
  | none ↦ found_key A access_key
  | some store ↦ elim (store access_key) [
    | ok sa ↦ resolve A now sa
    | err e ↦ found_key A access_key
  ]
]

abbrev pub exactly_three : List Bytes → Result (Bytes × Bytes × Bytes)
exactly_three (a ∷ b ∷ c ∷ []) = ok (a, b, c)
exactly_three other = err auth_malformed

-- strings.Split(credential, "/"), which must give five parts; the fifth is not looked at.
abbrev pub five_fields : List Bytes → Result (Bytes × Scope)
five_fields (key ∷ date_stamp ∷ region ∷ service ∷ last ∷ []) =
    ok (key, record { date_stamp = date_stamp; region = region; service = service })
five_fields other = err auth_malformed

-- What follows a prefix that must be there.
abbrev pub after : Bytes → Bytes → Bytes → Result Bytes
after pfx s rest = guard (not (has_prefix s pfx)) (err auth_malformed) (ok rest)

pub record Credentials : Type 0 where
  pub access_key : Bytes
  pub scope : Scope
  pub signed_headers : Bytes
  pub signature : Bytes

unfoldable pub parse_header : Bytes → Result Credentials
unfolding has_prefix split trim_space
parse_header auth_header = do
  text ← after (codes "AWS4-HMAC-SHA256 ") auth_header (drop 17 auth_header)
  (p0, p1, p2) ← exactly_three (split b',' text)
  credential ← after (codes "Credential=") (trim_space p0) (drop 11 (trim_space p0))
  (access_key, scope) ← five_fields (split b'/' credential)
  signed ← after (codes "SignedHeaders=") (trim_space p1) (drop 14 (trim_space p1))
  signature ← after (codes "Signature=") (trim_space p2) (drop 10 (trim_space p2))
  ok (record {
    access_key = access_key;
    scope = scope;
    signed_headers = signed;
    signature = signature;
  })

abbrev pub or_other : Bytes → Bytes → Bytes
or_other s other = if is_empty s then other else s

-- The times of a request with a header are checked only if its date parses.
abbrev pub is_skewed : Time → Option Time → Bool
is_skewed now none = false
is_skewed now (some t) = since_over now t minutes_15 || until_over now t minutes_15

abbrev pub amz_date_of : Request → Bytes
amz_date_of r = or_other (r.header (codes "X-Amz-Date")) (r.header (codes "Date"))

abbrev pub payload_hash_of : Request → Bytes
payload_hash_of r = or_other (r.header (codes "X-Amz-Content-Sha256")) (codes "UNSIGNED-PAYLOAD")

-- strconv.ParseInt of X-Amz-Expires, which must be between one second and seven days.
abbrev pub lifetime : Option ℤ → Result ℕ
lifetime none = err auth_malformed
lifetime (some (negsuc n)) = err auth_malformed
lifetime (some (pos n)) = guard (ltb n 1 || ltb 604800 n) (err auth_malformed) (ok n)

abbrev pub parsed : Option Time → Result Time
parsed none = err auth_malformed
parsed (some t) = ok t

module _ (K : Digests) (A : Accounts) (clock : Clock) where
  unfoldable pub verify_header : Time → Request → Bytes → Result User
  unfolding parse_header lookup_by_access_key compute_signature
  verify_header now r auth_header = do
    c ← parse_header auth_header
    (user, secret) ← lookup_by_access_key A now c.access_key
    let expected =
        compute_signature K r c.signed_headers (payload_hash_of r) (amz_date_of r) c.scope secret
    guard (not (bytes_eq expected c.signature)) (err signature_mismatch)
        (guard (is_skewed now (clock.parse_time (amz_date_of r))) (err time_skewed) (ok user))

  unfoldable pub verify_query_string : Time → Request → Result User
  unfolding query_get lookup_by_access_key compute_signature split parse_int
  verify_query_string now r =
      let get = λ (name : Bytes). query_get name r.query in
      let signed = get (codes "X-Amz-SignedHeaders") in
      let signature = get (codes "X-Amz-Signature") in
      let amz_date = get (codes "X-Amz-Date") in
      let credential = get (codes "X-Amz-Credential") in
      guard (is_empty credential || is_empty signed || is_empty signature || is_empty amz_date)
        (err auth_malformed)
        (do
          (access_key, scope) ← five_fields (split b'/' credential)
          (user, secret) ← lookup_by_access_key A now access_key
          let unsigned = record r { query = query_del (codes "X-Amz-Signature") r.query }
          let expected =
              compute_signature K unsigned signed (codes "UNSIGNED-PAYLOAD") amz_date scope secret
          guard (not (bytes_eq expected signature)) (err signature_mismatch) (do
            expires ← lifetime (parse_int (get (codes "X-Amz-Expires")))
            t ← parsed (clock.parse_time amz_date)
            guard (since_over now t (expires * 1000000000) || until_over now t minutes_15)
                (err time_skewed) (ok user)))

  unfoldable pub verify : Time → Request → Result User
  verify now r =
      let auth_header = r.header (codes "Authorization") in
      if is_empty auth_header
      then if is_empty (query_get (codes "X-Amz-Signature") r.query)
        then err auth_missing
        else verify_query_string now r
      else verify_header now r auth_header

  unfoldable pub verify_post_policy : Time → Bytes → Bytes → Bytes → Bytes → Result User
  unfolding split lookup_by_access_key has_prefix get_signature_key
  verify_post_policy now credential date policy signature =
      guard (is_empty credential || is_empty date || is_empty policy || is_empty signature)
        (err auth_malformed)
        (do
          (access_key, scope) ← five_fields (split b'/' credential)
          same ← after scope.date_stamp date []
          (user, secret) ← lookup_by_access_key A now access_key
          let expected = hex_encode (K.hmac_sha256 (get_signature_key K secret scope) policy)
          guard (not (bytes_eq expected signature)) (err signature_mismatch) (ok user))

-- q.Encode() with "%20" for "+"
unfoldable pub encode_query : Query → Bytes
encode_query q = percent_spaces (join_with (codes "&") (query_parts (sort_query q)))

unfoldable pub presigned_path : Bytes → Bytes → Bytes
presigned_path bucket key =
    if is_empty bucket
    then codes "/"
    else if is_empty key
    then b'/' ∷ bucket
    else b'/' ∷ (bucket ++ b'/' ∷ key)

module _ (clock : Clock) where
  -- The query of GeneratePresignedURL, without and with its signature. `host` is that of the parsed
  -- endpoint, or the endpoint itself.
  abbrev pub presigned_query : Time → Bytes → Bytes → ℕ → Query
  presigned_query now region access_key expires =
      (codes "X-Amz-Algorithm", codes "AWS4-HMAC-SHA256" ∷ [])
      ∷ (
        codes "X-Amz-Credential",
        join_with (codes "/")
              (access_key ∷ clock.format_date now ∷ region ∷ codes "s3" ∷ codes "aws4_request" ∷ [])
            ∷ [],
      )
      ∷ (codes "X-Amz-Date", clock.format_time now ∷ [])
      ∷ (codes "X-Amz-Expires", decimal 19 expires ∷ [])
      ∷ (codes "X-Amz-SignedHeaders", codes "host" ∷ [])
      ∷ []

module _ (K : Digests) (clock : Clock) where
  unfoldable pub presigned_signature :
      Time → Bytes → Bytes → Bytes → Bytes → Bytes → Bytes → Bytes → ℕ → Bytes
  unfolding encode_query presigned_path sign_request
  presigned_signature now method host region access_key secret_key bucket key expires =
      sign_request K
        (lines (
          method
          ∷ presigned_path bucket key
          ∷ encode_query (presigned_query clock now region access_key expires)
          ∷ (codes "host:" ++ (host ++ codes "\n"))
          ∷ codes "host"
          ∷ codes "UNSIGNED-PAYLOAD"
          ∷ []))
        (clock.format_time now)
        (record { date_stamp = clock.format_date now; region = region; service = codes "s3" })
        secret_key

  unfoldable pub generate_presigned_url :
      Time → Bytes → Bytes → Bytes → Bytes → Bytes → Bytes → Bytes → Bytes → ℕ → Bytes
  unfolding presigned_signature encode_query presigned_path trim_suffix
  generate_presigned_url now method endpoint host region access_key secret_key bucket key expires =
      trim_suffix endpoint (codes "/")
      ++ (presigned_path bucket key
          ++ b'?'
            ∷ encode_query (
                presigned_query clock now region access_key expires
                ++ (
                  codes "X-Amz-Signature",
                  presigned_signature now method host region access_key secret_key bucket key
                        expires
                      ∷ [],
                )
                  ∷ []))
