-- ===== src/Middleware/Hosts/Rewriting.antt =====
-- Virtual-hosted requests reach the path of their bucket.

use go_s.Prelude.{
  ◌-◌, ◌∙◌, Bytes, Result, none, some, [], ◌∷◌, ◌++◌, ◌≡◌, ◌≢◌, refl, ap, true, false, ltb,
  is_empty, has_suffix, trim_suffix, bytes_eq_refl, length, length-append, take, drop, All, arith,
}
use go_s.Middleware.Hosts.{before_last_colon, without_port, rewritten, route_host, custom_domain}

no_colon : (s : Bytes) → All (λ c. c ≢ b':') s → before_last_colon s ≡ none
unfolding before_last_colon
no_colon [] h = refl
no_colon (c ∷ s) h = rw (no_colon s h.1, before_last_colon) (ground (arith, h.0))

before_last_colon-append :
    (s port : Bytes) → All (λ c. c ≢ b':') port → before_last_colon (s ++ b':' ∷ port) ≡ some s
unfolding before_last_colon
before_last_colon-append [] port h = rw (no_colon port h, before_last_colon) refl
before_last_colon-append (c ∷ s) port h =
    rw (before_last_colon-append s port h, before_last_colon) refl

drop-append : (s t : Bytes) → drop (length s) (s ++ t) ≡ t
drop-append [] t = refl
drop-append (c ∷ s) t = drop-append s t

take-append : (s t : Bytes) → take (length s) (s ++ t) ≡ s
take-append [] t = refl
take-append (c ∷ s) t = ap (λ r. c ∷ r) (take-append s t)

length-front : (s t : Bytes) → length (s ++ t) - length t ≡ length s
length-front s t = omega (arith, length-append {0} s t)

has_suffix-append : (s t : Bytes) → has_suffix (s ++ t) t ≡ true
unfolding has_suffix
has_suffix-append s t =
    let short : ltb (length (s ++ t)) (length t) ≡ false = ground (arith, length-append {0} s t) in
    rw (short, has_suffix) (rw (length-front s t, drop-append s t) (bytes_eq_refl t))

trim_suffix-append : (s t : Bytes) → trim_suffix (s ++ t) t ≡ s
unfolding trim_suffix
trim_suffix-append s t =
    rw (has_suffix-append s t, trim_suffix) (rw (length-front s t) (take-append s t))

route_host-virtual :
    (get_custom_domain : Bytes → Result Bytes) (base_domain bucket path : Bytes)
    → is_empty base_domain ≡ false
    → is_empty bucket ≡ false
    → route_host get_custom_domain base_domain (bucket ++ b'.' ∷ base_domain) path
      ≡ rewritten bucket path none
unfolding route_host
route_host-virtual get_custom_domain base_domain bucket path d b =
    rw
      (
        d,
        has_suffix-append bucket (b'.' ∷ base_domain),
        trim_suffix-append bucket (b'.' ∷ base_domain),
        b,
      )
      refl

-- A request whose host is a bucket's name, a dot, the base domain, and a port, goes on with the path
-- of the bucket in front of its own, and without the marks of a custom domain. The name of the bucket
-- and the base domain are not empty; the name of the port holds no colon.
pub custom_domain-virtual_host :
    (get_custom_domain : Bytes → Result Bytes) (base_domain bucket port path : Bytes)
    → is_empty base_domain ≡ false
    → is_empty bucket ≡ false
    → All (λ c. c ≢ b':') port
    → custom_domain get_custom_domain base_domain
        ((bucket ++ b'.' ∷ base_domain) ++ b':' ∷ port)
        path
      ≡ rewritten bucket path none
unfolding custom_domain
custom_domain-virtual_host get_custom_domain base_domain bucket port path d b p =
    let host = bucket ++ b'.' ∷ base_domain in
    let ported : without_port (host ++ b':' ∷ port) ≡ host =
      rw (before_last_colon-append host port p, without_port) refl in
    ap (λ h. route_host get_custom_domain base_domain h path) ported
    ∙ route_host-virtual get_custom_domain base_domain bucket path d b
