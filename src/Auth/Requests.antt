-- ===== src/Auth/Requests.antt =====
-- The parts of an *http.Request that internal/auth/sigv4.go reads, and the texts that its signature
-- covers: buildCanonicalRequest and computeSignature.
use go_s.Prelude.{
  ℕ, ◌-◌, ◌+◌, ◌/◌, ◌%◌, Bytes, codes, List, [], ◌∷◌, ◌++◌, map, Bool, not, ◌&&◌, ◌||◌,
  if◌then◌else◌, ltb, leb, ◌==◌, bytes_eq, bytes_lt, is_empty, keep, split, fields, join_with,
  replace_byte, hex_encode,
}

-- url.Values: the values of each key, in order.
abbrev pub Query : Type 0
Query = List (Bytes × List Bytes)

-- `header` is r.Header.Get, which takes a name in any case; it is empty for a header that is absent.
pub record Request : Type 0 where
  pub method : Bytes
  pub path : Bytes
  pub host : Bytes
  pub header : Bytes → Bytes
  pub query : Query

-- SHA-256 and HMAC-SHA256.
pub record Digests : Type 0 where
  pub sha256 : Bytes → Bytes
  pub hmac_sha256 : Bytes → Bytes → Bytes

abbrev pub first_or_empty : List Bytes → Bytes
first_or_empty [] = []
first_or_empty (v ∷ vs) = v

-- q.Get(key)
unfoldable pub query_get : Bytes → Query → Bytes
query_get key [] = []
query_get key ((k, vs) ∷ q) =
    let rest = query_get key q in if bytes_eq k key then first_or_empty vs else rest

-- q.Del(key)
abbrev pub query_del : Bytes → Query → Query
query_del key q = keep (λ e. not (bytes_eq e.0 key)) q

-- url.QueryEscape
abbrev pub is_unreserved : ℕ → Bool
is_unreserved c =
    (leb b'a' c && leb c b'z')
    || (leb b'A' c && leb c b'Z')
    || (leb b'0' c && leb c b'9')
    || c == b'-'
    || c == b'_'
    || c == b'.'
    || c == b'~'

abbrev pub upper_hex : ℕ → ℕ
upper_hex n = if ltb n 10 then n + b'0' else n - 10 + b'A'

unfoldable pub query_escape : Bytes → Bytes
query_escape [] = []
query_escape (c ∷ s) =
    (if is_unreserved c
      then c ∷ []
      else if c == b' '
      then b'+' ∷ []
      else b'%' ∷ upper_hex (c / 16) ∷ upper_hex (c % 16) ∷ [])
    ++ query_escape s

-- sort.Strings
unfoldable pub insert_text : Bytes → List Bytes → List Bytes
insert_text x [] = x ∷ []
insert_text x (y ∷ ys) =
    let rest = insert_text x ys in if bytes_lt y x then y ∷ rest else x ∷ y ∷ ys

unfoldable pub sort_texts : List Bytes → List Bytes
unfolding insert_text
sort_texts [] = []
sort_texts (x ∷ xs) = insert_text x (sort_texts xs)

unfoldable pub insert_key : Bytes × List Bytes → Query → Query
insert_key e [] = e ∷ []
insert_key e (f ∷ q) = let rest = insert_key e q in if bytes_lt f.0 e.0 then f ∷ rest else e ∷ f ∷ q

unfoldable pub sort_query : Query → Query
unfolding insert_key
sort_query [] = []
sort_query (e ∷ q) = insert_key e (sort_query q)

abbrev pub query_part : Bytes → Bytes → Bytes
query_part k v = query_escape k ++ b'=' ∷ query_escape v

-- The parts of a query whose keys are in order.
unfoldable pub query_parts : Query → List Bytes
query_parts [] = []
query_parts ((k, vs) ∷ q) = map (query_part k) vs ++ query_parts q

-- Each key with its values in order.
abbrev pub sort_values : Query → Query
sort_values q = map (λ e. (e.0, sort_texts e.1)) q

abbrev pub percent_spaces : Bytes → Bytes
percent_spaces s = replace_byte b'+' (codes "%20") s

unfoldable pub canonical_query : Query → Bytes
unfolding sort_query sort_texts query_parts query_escape join_with replace_byte
canonical_query q =
    percent_spaces (join_with (codes "&") (query_parts (sort_values (sort_query q))))

-- The line of a signed header; runs of white space become one space.
unfoldable pub header_line : Request → Bytes → Bytes
unfolding fields join_with
header_line r h =
    let value = if bytes_eq h (codes "host") then r.host else r.header h in
    h ++ b':' ∷ (join_with (codes " ") (fields value) ++ codes "\n")

unfoldable pub header_lines : Request → List Bytes → Bytes
unfolding header_line
header_lines r [] = []
header_lines r (h ∷ hs) = header_line r h ++ header_lines r hs

-- Lines with an end of line between them.
abbrev pub lines : List Bytes → Bytes
lines ls = join_with (codes "\n") ls

unfoldable pub build_canonical_request : Request → Bytes → Bytes → Bytes
unfolding canonical_query header_lines join_with split
build_canonical_request r signed_headers payload_hash = lines (
    r.method
    ∷ (if is_empty r.path then codes "/" else r.path)
    ∷ canonical_query r.query
    ∷ header_lines r (split b';' signed_headers)
    ∷ signed_headers
    ∷ payload_hash
    ∷ [])

-- What a credential names beside the access key.
pub record Scope : Type 0 where
  pub date_stamp : Bytes
  pub region : Bytes
  pub service : Bytes

module _ (K : Digests) where
  unfoldable pub get_signature_key : Bytes → Scope → Bytes
  get_signature_key key s =
      K.hmac_sha256
        (K.hmac_sha256 (K.hmac_sha256 (K.hmac_sha256 (codes "AWS4" ++ key) s.date_stamp) s.region)
          s.service)
        (codes "aws4_request")

  unfoldable pub string_to_sign : Bytes → Scope → Bytes → Bytes
  unfolding join_with hex_encode
  string_to_sign amz_date s canonical_request = lines (
      codes "AWS4-HMAC-SHA256"
      ∷ amz_date
      ∷ join_with (codes "/") (s.date_stamp ∷ s.region ∷ s.service ∷ codes "aws4_request" ∷ [])
      ∷ hex_encode (K.sha256 canonical_request)
      ∷ [])

  unfoldable pub sign_request : Bytes → Bytes → Scope → Bytes → Bytes
  unfolding get_signature_key string_to_sign hex_encode
  sign_request canonical_request amz_date s secret_key =
      hex_encode (
        K.hmac_sha256 (get_signature_key secret_key s)
          (string_to_sign amz_date s canonical_request))

  unfoldable pub compute_signature : Request → Bytes → Bytes → Bytes → Scope → Bytes → Bytes
  unfolding sign_request build_canonical_request
  compute_signature r signed_headers payload_hash amz_date s secret_key =
      sign_request (build_canonical_request r signed_headers payload_hash) amz_date s secret_key
