-- ===== src/Auth/Signatures/Accepted.antt =====
-- Which requests the verifier accepts.
use go_s.Prelude.{
  ℕ, ◌*◌, ◌≤◌, Bytes, codes, Result, ok, err, auth_missing, auth_malformed, signature_mismatch,
  time_skewed, Option, none, some, ◌≡◌, sym, ap, ◌∙◌, ◌⊎◌, inl, inr, false, not, ◌||◌, ◌>>=◌,
  >>=-eq-ok, ok-injective, bytes_eq, bytes_eq_iff, is_empty, split, parse_int, Bool-cases,
}
use go_s.Storage.{Time}
use go_s.Auth.Defs.{User}
use go_s.Auth.Requests.{Request, Digests, Scope, query_get, query_del, compute_signature}
use go_s.Auth.Signatures.{
  Accounts, Clock, since_over, until_over, minutes_15, guard, lookup_by_access_key, five_fields,
  Credentials, parse_header, is_skewed, amz_date_of, payload_hash_of, lifetime, parsed,
  verify_header, verify_query_string, verify,
}
use go_s.Auth.Signatures.Entitled.{
  guard-eq-ok, not-false, or-false, lifetime_bounds, IsDelegate, IsOwner, lookup-IsEntitled,
}

module _ (K : Digests) (A : Accounts) (clock : Clock) (now : Time) (r : Request) (user : User) where
  -- A request that is signed in its header.
  pub record IsHeaderSigned : Type 0 where
    pub credentials : Credentials
    pub secret : Bytes
    pub is_header : parse_header (r.header (codes "Authorization")) ≡ ok credentials
    pub entitled :
        IsDelegate A now credentials.access_key secret user
        ⊎ IsOwner A now credentials.access_key secret user
    pub matches :
        credentials.signature
        ≡ compute_signature K r credentials.signed_headers
            (payload_hash_of r)
            (amz_date_of r)
            credentials.scope
            secret
    pub in_time : is_skewed now (clock.parse_time (amz_date_of r)) ≡ false

  -- A request that is signed in its query.
  pub record IsQuerySigned : Type 0 where
    pub access_key : Bytes
    pub scope : Scope
    pub secret : Bytes
    pub expires : ℕ
    pub time : Time
    pub is_credential :
        five_fields (split b'/' (query_get (codes "X-Amz-Credential") r.query))
        ≡ ok (access_key, scope)
    pub entitled : IsDelegate A now access_key secret user ⊎ IsOwner A now access_key secret user
    pub matches :
        query_get (codes "X-Amz-Signature") r.query
        ≡ compute_signature K
            (record r { query = query_del (codes "X-Amz-Signature") r.query })
            (query_get (codes "X-Amz-SignedHeaders") r.query)
            (codes "UNSIGNED-PAYLOAD")
            (query_get (codes "X-Amz-Date") r.query)
            scope
            secret
    pub is_expires : lifetime (parse_int (query_get (codes "X-Amz-Expires") r.query)) ≡ ok expires
    pub bounded : (1 ≤ expires) × (expires ≤ 604800)
    pub is_time : clock.parse_time (query_get (codes "X-Amz-Date") r.query) ≡ some time
    pub in_time :
        (since_over now time (expires * 1000000000) ≡ false)
        × (until_over now time minutes_15 ≡ false)

  same_text : (s t : Bytes) → not (bytes_eq s t) ≡ false → t ≡ s
  same_text s t h = sym ((bytes_eq_iff s t).0 (not-false (bytes_eq s t) h))

  entitled_as :
      (access_key secret : Bytes) (u : User)
      → lookup_by_access_key A now access_key ≡ ok (u, secret)
      → u ≡ user
      → IsDelegate A now access_key secret user ⊎ IsOwner A now access_key secret user
  entitled_as access_key secret u l e =
      lookup-IsEntitled A now access_key secret user (l ∙ ap (λ x. ok (x, secret)) e)

  checked_header :
      (c : Credentials) (secret : Bytes) (u : User)
      → parse_header (r.header (codes "Authorization")) ≡ ok c
      → lookup_by_access_key A now c.access_key ≡ ok (u, secret)
      → let expected =
          compute_signature K r c.signed_headers
            (payload_hash_of r)
            (amz_date_of r)
            c.scope
            secret in
        guard
            (not (bytes_eq expected c.signature))
            (err signature_mismatch)
            (guard (is_skewed now (clock.parse_time (amz_date_of r))) (err time_skewed) (ok u))
          ≡ ok user
        → IsHeaderSigned
  checked_header c secret u p l h =
      let expected =
        compute_signature K r c.signed_headers (payload_hash_of r) (amz_date_of r) c.scope secret in
      let (m, h1) = guard-eq-ok (not (bytes_eq expected c.signature)) signature_mismatch _ h in
      let (t, h2) =
        guard-eq-ok (is_skewed now (clock.parse_time (amz_date_of r))) time_skewed (ok u) h1 in
      record {
        credentials = c;
        secret = secret;
        is_header = p;
        entitled = entitled_as c.access_key secret u l (ok-injective h2);
        matches = same_text expected c.signature m;
        in_time = t;
      }

  header-IsSigned :
      verify_header K A clock now r (r.header (codes "Authorization")) ≡ ok user → IsHeaderSigned
  unfolding verify_header
  header-IsSigned h =
      let (c, p, h1) = >>=-eq-ok (parse_header (r.header (codes "Authorization"))) _ h in
      let (found, l, h2) = >>=-eq-ok (lookup_by_access_key A now c.access_key) _ h1 in
      checked_header c found.1 found.0 p l h2

  abbrev get : Bytes → Bytes
  get name = query_get name r.query

  abbrev expected_query : Scope → Bytes → Bytes
  expected_query scope secret =
      compute_signature K (record r { query = query_del (codes "X-Amz-Signature") r.query })
        (get (codes "X-Amz-SignedHeaders")) (codes "UNSIGNED-PAYLOAD") (get (codes "X-Amz-Date"))
        scope secret

  abbrev in_window : User → Result User
  in_window u = do
    expires ← lifetime (parse_int (get (codes "X-Amz-Expires")))
    t ← parsed (clock.parse_time (get (codes "X-Amz-Date")))
    guard (since_over now t (expires * 1000000000) || until_over now t minutes_15) (err time_skewed)
        (ok u)

  parsed-eq-ok : (o : Option Time) (t : Time) → parsed o ≡ ok t → o ≡ some t
  parsed-eq-ok none t h = cc
  parsed-eq-ok (some x) t h = ap (λ y. some y) (ok-injective h)

  checked_query :
      (key : Bytes) (scope : Scope) (secret : Bytes) (u : User)
      → five_fields (split b'/' (get (codes "X-Amz-Credential"))) ≡ ok (key, scope)
      → lookup_by_access_key A now key ≡ ok (u, secret)
      → guard
          (not (bytes_eq (expected_query scope secret) (get (codes "X-Amz-Signature"))))
          (err signature_mismatch)
          (in_window u)
        ≡ ok user
      → IsQuerySigned
  checked_query key scope secret u c l h =
      let (m, h1) =
        guard-eq-ok (not (bytes_eq (expected_query scope secret) (get (codes "X-Amz-Signature"))))
          signature_mismatch (in_window u) h in
      let (expires, x, h2) = >>=-eq-ok (lifetime (parse_int (get (codes "X-Amz-Expires")))) _ h1 in
      let (t, y, h3) = >>=-eq-ok (parsed (clock.parse_time (get (codes "X-Amz-Date")))) _ h2 in
      let (w, h4) =
        guard-eq-ok (since_over now t (expires * 1000000000) || until_over now t minutes_15)
          time_skewed (ok u) h3 in
      record {
        access_key = key;
        scope = scope;
        secret = secret;
        expires = expires;
        time = t;
        is_credential = c;
        entitled = entitled_as key secret u l (ok-injective h4);
        matches = same_text (expected_query scope secret) (get (codes "X-Amz-Signature")) m;
        is_expires = x;
        bounded = lifetime_bounds (parse_int (get (codes "X-Amz-Expires"))) expires x;
        is_time = parsed-eq-ok (clock.parse_time (get (codes "X-Amz-Date"))) t y;
        in_time =
            or-false (since_over now t (expires * 1000000000)) (until_over now t minutes_15) w;
      }

  query-IsSigned : verify_query_string K A clock now r ≡ ok user → IsQuerySigned
  unfolding verify_query_string
  query-IsSigned h =
      let (_, h0) =
        guard-eq-ok
          (is_empty (get (codes "X-Amz-Credential"))
            || is_empty (get (codes "X-Amz-SignedHeaders"))
            || is_empty (get (codes "X-Amz-Signature"))
            || is_empty (get (codes "X-Amz-Date")))
          auth_malformed _ h in
      let (c, p, h1) = >>=-eq-ok (five_fields (split b'/' (get (codes "X-Amz-Credential")))) _ h0 in
      let (found, l, h2) = >>=-eq-ok (lookup_by_access_key A now c.0) _ h1 in
      checked_query c.0 c.1 found.1 found.0 p l h2

  -- A request that the verifier accepts for a user has a signature that is the one computed, over the
  -- request, with the secret of the access key that it names. The key is either that of a service
  -- account that is neither disabled nor past its date, whose parent user is not disabled, and the
  -- user is that parent under the account's access key; or it is the user's own. If the signature is
  -- in the header, its date is not more than 15 minutes away, where it is a date at all. If it is in
  -- the query, its date is at most the seconds of its lifetime ago, which are at least one and not
  -- more than seven days, and not more than 15 minutes ahead.
  pub verify-IsGenuine : verify K A clock now r ≡ ok user → IsHeaderSigned ⊎ IsQuerySigned
  unfolding verify
  verify-IsGenuine h = elim (Bool-cases (is_empty (r.header (codes "Authorization")))) [
    | inr e ↦ inl (header-IsSigned (rw (e, verify) at h))
    | inl e ↦ elim (Bool-cases (is_empty (query_get (codes "X-Amz-Signature") r.query))) [
      | inl f ↦ let x : err auth_missing ≡ ok user = rw (e, f, verify) at h in absurd (cc)
      | inr f ↦ inr (query-IsSigned (rw (e, f, verify) at h))
    ]
  ]
