-- ===== src/Middleware/Cors.antt =====
-- internal/middleware/cors.go, over the rules of a bucket (CORSRule of internal/s3/types.go).
pub mod Allowed
use go_s.Prelude.{
  ℕ, zero, suc, Bytes, codes, Result, ok, err, Option, none, some, List, [], ◌∷◌, ◌++◌, Bool, true,
  false, not, ◌&&◌, ◌||◌, if◌then◌else◌, ltb, bytes_eq, is_empty, has_prefix, has_suffix,
  trim_suffix, cut, drop, join_with, decimal,
}

pub record CorsRule : Type 0 where
  pub allowed_origin : List Bytes
  pub allowed_method : List Bytes
  pub allowed_header : List Bytes
  pub expose_header : List Bytes
  pub max_age_seconds : ℕ

-- The header of the request by name, empty where it is absent, and the bucket that chi has routed to.
pub record CorsRequest : Type 0 where
  pub method : Bytes
  pub path : Bytes
  pub header : Bytes → Bytes
  pub url_param : Bytes

abbrev pub Headers : Type 0
Headers = List (Bytes × Bytes)

abbrev pub star : Bytes
star = codes "*"

unfoldable pub matches_pattern : Bytes → Bytes → Bool
unfolding bytes_eq has_suffix has_prefix trim_suffix
matches_pattern p value =
    if bytes_eq p star || bytes_eq p value
    then true
    else has_suffix p star && has_prefix value (trim_suffix p star)

unfoldable pub match_list : List Bytes → Bytes → Bool
unfolding matches_pattern
match_list [] value = false
match_list (p ∷ ps) value =
    let rest = match_list ps value in if matches_pattern p value then true else rest

abbrev pub header_if : Bool → Bytes → Bytes → Headers
header_if b name value = if b then (name, value) ∷ [] else []

abbrev pub comma_list : List Bytes → Bytes
comma_list vs = join_with (codes ", ") vs

-- What a rule that applies sets. A negative MaxAgeSeconds counts as 0.
unfoldable pub rule_headers : CorsRequest → Bytes → CorsRule → Headers
unfolding join_with decimal
rule_headers r origin rule =
    (codes "Access-Control-Allow-Origin", origin)
    ∷ (header_if (not (is_empty rule.allowed_method)) (codes "Access-Control-Allow-Methods")
          (comma_list rule.allowed_method)
        ++ ((if not (is_empty rule.allowed_header)
              then (codes "Access-Control-Allow-Headers", comma_list rule.allowed_header) ∷ []
              else header_if (not (is_empty (r.header (codes "Access-Control-Request-Headers"))))
                  (codes "Access-Control-Allow-Headers")
                  (r.header (codes "Access-Control-Request-Headers")))
            ++ (header_if (not (is_empty rule.expose_header))
                  (codes "Access-Control-Expose-Headers") (comma_list rule.expose_header)
                ++ header_if (ltb 0 rule.max_age_seconds) (codes "Access-Control-Max-Age")
                    (decimal 19 rule.max_age_seconds))))

abbrev pub request_method : CorsRequest → Bytes
request_method r =
    let m = r.header (codes "Access-Control-Request-Method") in if is_empty m then r.method else m

abbrev pub applies : CorsRequest → Bytes → CorsRule → Bool
applies r origin rule =
    match_list rule.allowed_origin origin && match_list rule.allowed_method (request_method r)

unfoldable pub apply_cors_rules : CorsRequest → Bytes → List CorsRule → Headers
unfolding match_list rule_headers
apply_cors_rules r origin [] = []
apply_cors_rules r origin (rule ∷ rules) =
    let rest = apply_cors_rules r origin rules in
    if applies r origin rule then rule_headers r origin rule else rest

abbrev pub permissive : Headers
permissive =
    (codes "Access-Control-Allow-Origin", star)
    ∷ (codes "Access-Control-Allow-Methods", codes "GET, POST, PUT, DELETE, HEAD, OPTIONS")
    ∷ (codes "Access-Control-Allow-Headers", star)
    ∷ (codes "Access-Control-Expose-Headers", codes "ETag, x-amz-request-id, x-amz-id-2")
    ∷ []

abbrev pub without_slash : Bytes → Bytes
without_slash path = if has_prefix path (codes "/") then drop 1 path else path

abbrev pub before_slash : Bytes → Bytes
before_slash path = elim (cut b'/' path) [ none ↦ path | some (front, _) ↦ front ]

-- The bucket that chi has found, or the first segment of the path.
unfoldable pub bucket_of : CorsRequest → Bytes
unfolding has_prefix cut bytes_eq
bucket_of r =
    if not (is_empty r.url_param)
    then r.url_param
    else let part = before_slash (without_slash r.path) in
      if is_empty part || bytes_eq part (codes "_admin") then [] else part

-- GetBucketCORS of the store, whose error counts as no configuration.
abbrev pub rules_or_none : Result (List CorsRule) → List CorsRule
rules_or_none (ok rules) = rules
rules_or_none (err e) = []

abbrev pub cors_headers : CorsRequest → Bytes → List CorsRule → Headers
cors_headers r origin [] = permissive
cors_headers r origin (rule ∷ rules) = apply_cors_rules r origin (rule ∷ rules)

-- The headers that are set, and whether the next handler is called; else the answer is 200.
unfoldable pub cors : Option (Bytes → Result (List CorsRule)) → CorsRequest → Headers × Bool
unfolding bucket_of apply_cors_rules
cors store r =
    let origin = r.header (codes "Origin") in
    if is_empty origin
    then ([], true)
    else let bucket = bucket_of r in
      let rules : List CorsRule = elim store [
        | none ↦ []
        | some get_bucket_cors ↦
            if is_empty bucket then [] else rules_or_none (get_bucket_cors bucket)
      ] in
      (cors_headers r origin rules, not (bytes_eq r.method (codes "OPTIONS")))
