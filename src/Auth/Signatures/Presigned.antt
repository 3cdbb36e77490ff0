-- ===== src/Auth/Signatures/Presigned.antt =====
-- GeneratePresignedURL and the verification of the request that follows such a URL.
use mathlib.Core.List.{append-nil}
use go_s.Prelude.{
  ℕ, ◌+◌, ◌*◌, ◌≤◌, Bytes, codes, ok, some, [], ◌∷◌, ◌++◌, ◌≡◌, ◌≢◌, refl, ap, ◌∙◌, false,
  if◌then◌else◌, ltb, bytes_eq, bytes_lt, bytes_eq_refl, join_with, is_empty, split, split-append,
  fields-word, is_space, All, parse_int, parse_int-decimal, pos, arith, hex_encode,
}
use go_s.Storage.{Time}
use go_s.Auth.Defs.{User}
use go_s.Auth.Requests.{
  Request, Digests, Scope, query_get, query_del, canonical_query, header_lines, header_line,
  build_canonical_request, compute_signature, sign_request, lines,
}
use go_s.Auth.Signatures.{
  Accounts, Clock, lookup_by_access_key, five_fields, verify_query_string, verify, lifetime,
  since_over, until_over, minutes_15, presigned_query, presigned_path, presigned_signature,
  encode_query,
}

split-one : (sep : ℕ) (s : Bytes) → All (λ c. c ≢ sep) s → split sep s ≡ s ∷ []
unfolding split
split-one sep [] h = refl
split-one sep (c ∷ s) h = ground (arith, h.0, split-one sep s h.1)

presigned_path-cons : (bucket key : Bytes) → (s : Bytes) × (presigned_path bucket key ≡ b'/' ∷ s)
unfolding presigned_path
presigned_path-cons [] key = ([], refl)
presigned_path-cons (b ∷ bucket) [] = (b ∷ bucket, refl)
presigned_path-cons (b ∷ bucket) (k ∷ key) = ((b ∷ bucket) ++ b'/' ∷ (k ∷ key), refl)

abbrev NoSlash : Bytes → Type 0
NoSlash s = All (λ c. c ≢ b'/') s

-- The five parts of a credential.
five_fields-joined :
    (access_key date region : Bytes)
    → NoSlash access_key
    → NoSlash date
    → NoSlash region
    → five_fields (
        split b'/' (
          access_key
          ++ b'/'
            ∷ (date ++ b'/' ∷ (region ++ b'/' ∷ (codes "s3" ++ b'/' ∷ codes "aws4_request")))))
      ≡ ok (access_key, record { date_stamp = date; region = region; service = codes "s3" })
unfolding split
five_fields-joined access_key date region a d r =
    let last = codes "s3" ++ b'/' ∷ codes "aws4_request" in
    rw
      (
        split-append b'/' access_key (date ++ b'/' ∷ (region ++ b'/' ∷ last)),
        split-one b'/' access_key a,
        split-append b'/' date (region ++ b'/' ∷ last),
        split-one b'/' date d,
        split-append b'/' region last,
        split-one b'/' region r,
      )
      refl

hex_encode-ne : (s : Bytes) → s ≢ [] → is_empty (hex_encode s) ≡ false
unfolding hex_encode
hex_encode-ne [] h = absurd (h refl)
hex_encode-ne (c ∷ s) h = refl

is_empty-ne : (s : Bytes) → s ≢ [] → is_empty s ≡ false
is_empty-ne [] h = absurd (h refl)
is_empty-ne (c ∷ s) h = refl

is_empty-append : (s : Bytes) (c : ℕ) (t : Bytes) → is_empty (s ++ c ∷ t) ≡ false
is_empty-append [] c t = refl
is_empty-append (x ∷ s) c t = refl

lifetime-pos : (n : ℕ) → 1 ≤ n → n ≤ 604800 → lifetime (some (pos n)) ≡ ok n
lifetime-pos n lo hi =
    let a : ltb n 1 ≡ false = ground (arith, lo) in
    let b : ltb 604800 n ≡ false = ground (arith, hi) in rw (a, b) refl

-- A request whose query passes every check is accepted.
module _ (K : Digests) (A : Accounts) (clock : Clock) (now : Time) (r : Request) where
  abbrev get : Bytes → Bytes
  get name = query_get name r.query

  query-accepted :
      (key : Bytes) (scope : Scope) (user : User) (secret : Bytes) (expires : ℕ) (t : Time)
      → is_empty (get (codes "X-Amz-Credential")) ≡ false
      → is_empty (get (codes "X-Amz-SignedHeaders")) ≡ false
      → is_empty (get (codes "X-Amz-Signature")) ≡ false
      → is_empty (get (codes "X-Amz-Date")) ≡ false
      → five_fields (split b'/' (get (codes "X-Amz-Credential"))) ≡ ok (key, scope)
      → lookup_by_access_key A now key ≡ ok (user, secret)
      → compute_signature K
          (record r { query = query_del (codes "X-Amz-Signature") r.query })
          (get (codes "X-Amz-SignedHeaders"))
          (codes "UNSIGNED-PAYLOAD")
          (get (codes "X-Amz-Date"))
          scope
          secret
        ≡ get (codes "X-Amz-Signature")
      → lifetime (parse_int (get (codes "X-Amz-Expires"))) ≡ ok expires
      → clock.parse_time (get (codes "X-Amz-Date")) ≡ some t
      → since_over now t (expires * 1000000000) ≡ false
      → until_over now t minutes_15 ≡ false
      → verify_query_string K A clock now r ≡ ok user
  unfolding verify_query_string
  query-accepted key scope user secret expires t e1 e2 e3 e4 c l m x p s u =
      rw (e1, e2, e3, e4, c, l, m, bytes_eq_refl (get (codes "X-Amz-Signature")), x, p, s, u) refl

module _ (K : Digests) (clock : Clock) (now : Time)
    (method host region access_key secret bucket key : Bytes) (expires : ℕ) where
  abbrev signature : Bytes
  signature =
      presigned_signature K clock now method host region access_key secret bucket key expires

  -- The request that follows the URL.
  abbrev pub presigned_request : Request
  presigned_request = record {
    method = method;
    path = presigned_path bucket key;
    host = host;
    header = λ name. [];
    query =
        presigned_query clock now region access_key expires
        ++ (codes "X-Amz-Signature", signature ∷ []) ∷ [];
  }

  abbrev unsigned : Request
  unsigned = record presigned_request {
    query = presigned_query clock now region access_key expires;
  }

  canonical_query-presigned :
      canonical_query unsigned.query
      ≡ encode_query (presigned_query clock now region access_key expires)
  unfolding canonical_query encode_query bytes_lt
  canonical_query-presigned = refl

  query_del-presigned : query_del (codes "X-Amz-Signature") presigned_request.query ≡ unsigned.query
  unfolding bytes_eq
  query_del-presigned = refl

  -- The texts that are signed at both ends are the same.
  request_presigned :
      (c : ℕ) (h : Bytes)
      → host ≡ c ∷ h
      → All (λ c. is_space c ≡ false) (c ∷ h)
      → compute_signature K unsigned
          (codes "host")
          (codes "UNSIGNED-PAYLOAD")
          (clock.format_time now)
          (record { date_stamp = clock.format_date now; region = region; service = codes "s3" })
          secret
        ≡ signature
  unfolding compute_signature build_canonical_request presigned_signature header_lines header_line
      split bytes_eq
  request_presigned c h e w =
      let (p, cons) = presigned_path-cons bucket key in
      let path : (if is_empty unsigned.path then codes "/" else unsigned.path) ≡ unsigned.path =
        rw cons refl in
      let line : header_line unsigned (codes "host") ++ [] ≡ codes "host:" ++ (host ++ codes "\n") =
        append-nil (header_line unsigned (codes "host"))
        ∙ ap (λ v. codes "host:" ++ (v ++ codes "\n")) (rw e (fields-word c h w)) in
      let text : Bytes → Bytes → Bytes → Bytes = λ x y z.
        sign_request K (lines (method ∷ x ∷ y ∷ z ∷ codes "host" ∷ codes "UNSIGNED-PAYLOAD" ∷ []))
          (clock.format_time now)
          (record { date_stamp = clock.format_date now; region = region; service = codes "s3" })
          secret in
      let q = canonical_query unsigned.query in
      let host_line = codes "host:" ++ (host ++ codes "\n") in
      ap (λ x. text x q (header_line unsigned (codes "host") ++ [])) path
      ∙ ap (λ y. text unsigned.path y (header_line unsigned (codes "host") ++ []))
          canonical_query-presigned
      ∙ ap (λ z. text unsigned.path (encode_query unsigned.query) z) line

  abbrev scope : Scope
  scope = record { date_stamp = clock.format_date now; region = region; service = codes "s3" }

  signature-ne : ((k m : Bytes) → K.hmac_sha256 k m ≢ []) → is_empty signature ≡ false
  unfolding presigned_signature sign_request
  signature-ne m = hex_encode-ne _ (m _ _)

  module _ (A : Accounts) (later : Time) (user : User) where
    -- The request with the method, path, host and query values of a presigned URL is accepted as one
    -- of the user to whom the lookup of its access key leads at that time, with the same secret, from
    -- 15 minutes before the time in the URL on until its lifetime is over. The lifetime is between one
    -- second and seven days; the access key, the date and the region hold no slash, and the host no
    -- white space. The printed time is not empty and parses, and an HMAC is not empty.
    pub verify-presigned :
        (t : Time)
        → lookup_by_access_key A later access_key ≡ ok (user, secret)
        → clock.parse_time (clock.format_time now) ≡ some t
        → clock.format_time now ≢ []
        → ((k m : Bytes) → K.hmac_sha256 k m ≢ [])
        → NoSlash access_key
        → NoSlash (clock.format_date now)
        → NoSlash region
        → (c : ℕ) (h : Bytes) → host ≡ c ∷ h
        → All (λ c. is_space c ≡ false) (c ∷ h)
        → 1 ≤ expires
        → expires ≤ 604800
        → later ≤ t + expires * 1000000000
        → t ≤ later + minutes_15
        → verify K A clock later presigned_request ≡ ok user
    unfolding verify query_get bytes_eq join_with
    verify-presigned t l p f m a d r c h e w lo hi b1 b2 =
        let signed = signature-ne m in
        rw signed (
          query-accepted K A clock later presigned_request access_key scope user secret expires t
            (is_empty-append access_key b'/' _) refl signed (is_empty-ne (clock.format_time now) f)
            (five_fields-joined access_key (clock.format_date now) region a d r) l
            (request_presigned c h e w)
            (ap lifetime (parse_int-decimal expires (omega (arith, hi)))
              ∙ lifetime-pos expires lo hi)
            p (ground (arith, b1)) (ground (arith, b2)))
