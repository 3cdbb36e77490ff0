-- ===== src/Examples/Middleware.antt =====
-- The theorems on the middleware: two addresses that share a rate limiter's map, a CORS rule, and a
-- virtual host.
use go_s.Prelude.{
  Option, ◌⊎◌, ℕ, ◌-◌, Bytes, codes, Result, ok, err, policy_not_found, some, none, List, [], ◌∷◌,
  ◌++◌, true, not, if◌then◌else◌, ◌≡◌, refl, arith, ltb, bytes_eq, cut, has_prefix,
}
use go_s.Middleware.RateLimit.{Limits, find, Config, Client, admit}
use go_s.Middleware.RateLimit.Isolation.{
  Event, request, cleaning, run, run_alone, own_limiter, find-run,
}
use go_s.Middleware.Cors.{CorsRule, CorsRequest, bucket_of, cors}
use go_s.Middleware.Cors.Allowed.{SomeAllows, allow_origin, cors-allow_origin}
use go_s.Middleware.Hosts.{custom_domain, rewritten}
use go_s.Middleware.Hosts.Rewriting.{custom_domain-virtual_host}

-- A limiter that gives out its burst once.
abbrev tokens : Limits
tokens = record {
  Limiter = ℕ;
  new_limiter = λ limit burst. burst;
  allow = λ now n. (ltb 0 n, n - 1);
}

abbrev settings : Config tokens
settings = record { enabled = true; requests_per_second = 1; burst = 1 }

abbrev traffic : List Event
traffic =
    request (codes "10.0.0.1:9") 1
    ∷ request (codes "10.0.0.2:9") 2
    ∷ cleaning 3
    ∷ request (codes "10.0.0.1:9") 4
    ∷ []

abbrev second : Option (Client tokens)
second = run_alone tokens settings (codes "10.0.0.2:9") traffic none

find-run_example :
    (find (codes "10.0.0.2:9") (run tokens settings traffic []) ≡ second)
    × ((admit tokens settings 5 (codes "10.0.0.2:9") (run tokens settings traffic [])).0
        ≡ (tokens.allow 5 (own_limiter tokens settings second)).0)
unfolding find
find-run_example = find-run tokens settings traffic (codes "10.0.0.2:9") 5 [] refl tt

abbrev origin : Bytes
origin = codes "https://a.example"

abbrev named : Bytes → Bytes
named name = if bytes_eq name (codes "Origin") then origin else []

abbrev get_docs : CorsRequest
get_docs = record { method = codes "GET"; path = codes "/docs/a"; header = named; url_param = [] }

abbrev rule : CorsRule
rule = record {
  allowed_origin = codes "https://*" ∷ [];
  allowed_method = codes "GET" ∷ [];
  allowed_header = [];
  expose_header = [];
  max_age_seconds = 60;
}

abbrev configured : Bytes → Result (List CorsRule)
configured bucket = if bytes_eq bucket (codes "docs") then ok (rule ∷ []) else err policy_not_found

cors-allow_origin_example :
    ((SomeAllows get_docs (rule ∷ [])
        × (allow_origin (cors (some configured) get_docs).0 ≡ some origin))
      ⊎ ((¬ SomeAllows get_docs (rule ∷ []))
          × (allow_origin (cors (some configured) get_docs).0 ≡ none)))
    × ((cors (some configured) get_docs).1 ≡ not (bytes_eq (codes "GET") (codes "OPTIONS")))
unfolding bytes_eq bucket_of cut has_prefix
cors-allow_origin_example = cors-allow_origin configured get_docs rule [] refl refl refl

abbrev no_domain : Bytes → Result Bytes
no_domain host = err policy_not_found

custom_domain-virtual_host_example :
    custom_domain no_domain
      (codes "s3.example")
      ((codes "docs" ++ b'.' ∷ codes "s3.example") ++ b':' ∷ codes "90")
      (codes "/a")
    ≡ rewritten (codes "docs") (codes "/a") none
custom_domain-virtual_host_example =
    custom_domain-virtual_host no_domain (codes "s3.example") (codes "docs") (codes "90")
      (codes "/a") refl refl (ground arith)
