-- ===== src/Middleware/Cors/Allowed.antt =====
-- Which origins the CORS middleware lets through.
use go_s.Prelude.{
  Bytes, codes, ok, Option, none, some, List, [], ◌∷◌, ◌≡◌, refl, ◌∙◌, true, false, not, ◌&&◌,
  if◌then◌else◌, bytes_eq, bytes_eq_iff, bytes_eq_refl, is_empty, any, Bool-cases, inl, inr, Result,
  ◌⊎◌, ◌↔◌, has_suffix, has_prefix, trim_suffix, drop, length, has_prefix-append,
  append-of-has_prefix, arith,
}
use go_s.Auth.Matching.Wildcard.{Matches, has_suffix-split, has_suffix-append, trim_suffix-append}
use go_s.Middleware.Cors.{
  CorsRule, CorsRequest, Headers, rule_headers, applies, star, matches_pattern, match_list,
  request_method, apply_cors_rules, bucket_of, cors,
}

-- The value of Access-Control-Allow-Origin among the headers that are set.
abbrev pub allow_origin : Headers → Option Bytes
allow_origin [] = none
allow_origin ((name, value) ∷ hs) =
    let rest = allow_origin hs in
    if bytes_eq name (codes "Access-Control-Allow-Origin") then some value else rest

allow_origin-rule_headers :
    (r : CorsRequest) (origin : Bytes) (rule : CorsRule)
    → allow_origin (rule_headers r origin rule) ≡ some origin
unfolding rule_headers bytes_eq
allow_origin-rule_headers r origin rule = refl

allow_origin-apply_cors_rules :
    (r : CorsRequest) (origin : Bytes) (rules : List CorsRule)
    → allow_origin (apply_cors_rules r origin rules)
      ≡ (if any (applies r origin) rules then some origin else none)
unfolding apply_cors_rules
allow_origin-apply_cors_rules r origin [] = refl
allow_origin-apply_cors_rules r origin (rule ∷ rules) = elim (Bool-cases (applies r origin rule)) [
  | inl e ↦ rw e (allow_origin-rule_headers r origin rule)
  | inr e ↦ rw e (allow_origin-apply_cors_rules r origin rules)
]

matches_pattern_iff : (p value : Bytes) → (matches_pattern p value ≡ true) ↔ Matches p value
unfolding matches_pattern
matches_pattern_iff p value = (sound, complete)
  where
    sound : matches_pattern p value ≡ true → Matches p value
    sound h = elim (Bool-cases (bytes_eq p star)) [
      | inl e ↦ inr ([], value, (bytes_eq_iff p star).0 e, refl)
      | inr e ↦ elim (Bool-cases (bytes_eq p value)) [
        | inl s ↦ inl ((bytes_eq_iff p value).0 s)
        | inr s ↦
            let both : (has_suffix p star && has_prefix value (trim_suffix p star)) ≡ true =
              rw (e, s, matches_pattern) at h in
            inr (
              trim_suffix p star,
              drop (length (trim_suffix p star)) value,
              has_suffix-split p star (ground arith),
              append-of-has_prefix value (trim_suffix p star) (ground arith),
            )
      ]
    ]

    complete : Matches p value → matches_pattern p value ≡ true
    complete (inl e) = rw e (ground (arith, bytes_eq_refl value))
    complete (inr (front, rest, e, v)) =
        rw (e, v)
          (ground (
            arith,
            has_suffix-append front star,
            trim_suffix-append front star,
            has_prefix-append front rest,
          ))

-- One of the patterns matches.
abbrev pub SomeMatches : List Bytes → Bytes → Type 0
SomeMatches [] value = ⊥
SomeMatches (p ∷ ps) value = Matches p value ⊎ SomeMatches ps value

match_list_iff :
    (ps : List Bytes) (value : Bytes) → (match_list ps value ≡ true) ↔ SomeMatches ps value
unfolding match_list
match_list_iff [] value = (λ h. cc, λ h. absurd h)
match_list_iff (p ∷ ps) value = elim (Bool-cases (matches_pattern p value)) [
  | inl e ↦ (λ h. inl ((matches_pattern_iff p value).0 e), λ h. rw e)
  | inr e ↦ (
    λ h. inr ((match_list_iff ps value).0 (rw e at h)),
    λ h. elim h [
      | inl m ↦ cc ((matches_pattern_iff p value).1 m, e)
      | inr m ↦ rw e ((match_list_iff ps value).1 m)
    ],
  )
]

-- The method that the browser asks about: that of Access-Control-Request-Method, or without that header
-- the request's own.
abbrev pub asked_method : Bytes → Bytes → Bytes
asked_method [] own = own
asked_method (c ∷ asked) own = c ∷ asked

-- A rule allows the origin and the method of a request.
abbrev pub Allows : CorsRequest → CorsRule → Type 0
Allows r rule =
    SomeMatches rule.allowed_origin (r.header (codes "Origin"))
    × SomeMatches rule.allowed_method
        (asked_method (r.header (codes "Access-Control-Request-Method")) r.method)

abbrev pub SomeAllows : CorsRequest → List CorsRule → Type 0
SomeAllows r [] = ⊥
SomeAllows r (rule ∷ rules) = Allows r rule ⊎ SomeAllows r rules

request_method_lem :
    (r : CorsRequest)
    → request_method r ≡ asked_method (r.header (codes "Access-Control-Request-Method")) r.method
request_method_lem r = of_header (r.header (codes "Access-Control-Request-Method"))
  where
    of_header : (m : Bytes) → (if is_empty m then r.method else m) ≡ asked_method m r.method
    of_header [] = refl
    of_header (c ∷ m) = refl

applies_iff :
    (r : CorsRequest) (rule : CorsRule)
    → (applies r (r.header (codes "Origin")) rule ≡ true) ↔ Allows r rule
applies_iff r rule = rw (request_method_lem r) (sound, complete)
  where
    asked : Bytes
    asked = asked_method (r.header (codes "Access-Control-Request-Method")) r.method

    sound :
        match_list rule.allowed_origin (r.header (codes "Origin"))
            && match_list rule.allowed_method asked
          ≡ true
        → Allows r rule
    sound h = (
      (match_list_iff rule.allowed_origin (r.header (codes "Origin"))).0 (ground arith),
      (match_list_iff rule.allowed_method asked).0 (ground arith),
    )

    complete :
        Allows r rule
        → match_list rule.allowed_origin (r.header (codes "Origin"))
            && match_list rule.allowed_method asked
          ≡ true
    complete (o, m) =
        let first = (match_list_iff rule.allowed_origin (r.header (codes "Origin"))).1 o in
        let second = (match_list_iff rule.allowed_method asked).1 m in ground arith

any-applies_iff :
    (r : CorsRequest) (rules : List CorsRule)
    → (any (applies r (r.header (codes "Origin"))) rules ≡ true) ↔ SomeAllows r rules
any-applies_iff r [] = (λ h. cc, λ h. absurd h)
any-applies_iff r (rule ∷ rules) = elim (Bool-cases (applies r (r.header (codes "Origin")) rule)) [
  | inl e ↦ (λ h. inl ((applies_iff r rule).0 e), λ h. rw e)
  | inr e ↦ (
    λ h. inr ((any-applies_iff r rules).0 (rw e at h)),
    λ h. elim h [
      | inl m ↦ cc ((applies_iff r rule).1 m, e)
      | inr m ↦ rw e ((any-applies_iff r rules).1 m)
    ],
  )
]

-- For a request with an origin to a bucket whose CORS configuration has a rule, either some rule of the
-- bucket allows the request and the response allows its origin, or no rule does and the response
-- allows none. A rule allows a request if one of its origins matches the request's and one of its
-- methods the method that Access-Control-Request-Method names, or the request's own without that
-- header; a pattern matches itself and, with a star at its end, what begins as it does. The next
-- handler is called for every method but OPTIONS.
pub cors-allow_origin :
    (get_bucket_cors : Bytes → Result (List CorsRule)) (r : CorsRequest) (rule : CorsRule)
    (rules : List CorsRule)
    → is_empty (r.header (codes "Origin")) ≡ false
    → is_empty (bucket_of r) ≡ false
    → get_bucket_cors (bucket_of r) ≡ ok (rule ∷ rules)
    → ((SomeAllows r (rule ∷ rules)
          × (allow_origin (cors (some get_bucket_cors) r).0 ≡ some (r.header (codes "Origin"))))
        ⊎ ((¬ SomeAllows r (rule ∷ rules))
            × (allow_origin (cors (some get_bucket_cors) r).0 ≡ none)))
      × ((cors (some get_bucket_cors) r).1 ≡ not (bytes_eq r.method (codes "OPTIONS")))
unfolding cors
cors-allow_origin get_bucket_cors r rule rules o b g = (
  elim (Bool-cases (any (applies r (r.header (codes "Origin"))) (rule ∷ rules))) [
    | inl e ↦ inl ((any-applies_iff r (rule ∷ rules)).0 e, shown ∙ rw e)
    | inr e ↦ inr (λ s. cc ((any-applies_iff r (rule ∷ rules)).1 s, e), shown ∙ rw e)
  ],
  rw (o, cors) refl,
)
  where
    shown : allow_origin (cors (some get_bucket_cors) r).0 ≡ (
        if any (applies r (r.header (codes "Origin"))) (rule ∷ rules)
        then some (r.header (codes "Origin"))
        else none)
    shown =
        rw (o, cors)
          (rw (b, cors)
            (rw (g, cors)
              (allow_origin-apply_cors_rules r (r.header (codes "Origin")) (rule ∷ rules))))
