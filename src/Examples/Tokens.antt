-- ===== src/Examples/Tokens.antt =====
-- The theorems on session tokens, with a shift of the bytes for base64 and the key in front of the text
-- for the signature.
use go_s.Prelude.{
  bytes_eq, ℕ, ◌+◌, ◌-◌, ◌*◌, Bytes, codes, Result, ok, err, Option, none, some, [], ◌∷◌, ◌++◌,
  false, ◌≡◌, ◌≢◌, refl, All, arith, ap, sym, ok-injective,
}
use go_s.Bolt.{Codec}
use go_s.Auth.Tokens.{
  Crypto, SessionConfig, Claims, JwtHeader, fixed_header, generate_token, validate_token, unix,
  int64_gt, signing_input,
}
use go_s.Auth.Tokens.Checks.{validate_token-generate_token, validate_token-signed}
use mathlib.Core.Path.{subst}

abbrev shift : Bytes → Bytes
shift [] = []
shift (x ∷ s) = (x + 47) ∷ shift s

abbrev unshift : Bytes → Bytes
unshift [] = []
unshift (x ∷ s) = (x - 47) ∷ unshift s

unshift-shift : (s : Bytes) → unshift (shift s) ≡ s
unshift-shift [] = refl
unshift-shift (x ∷ s) = ground (arith, unshift-shift s)

shift-All : (s : Bytes) → All (λ c. c ≢ b'.') (shift s)
shift-All [] = tt
shift-All (x ∷ s) = (λ e. omega (arith, e), shift-All s)

abbrev toy : Crypto
toy = record {
  sign_hmac = λ key text. key ++ text;
  encode = shift;
  decode = λ s. some (unshift s);
  decode_encode = λ s. ap (λ t. some t) (unshift-shift s);
  encode_no_dot = shift-All;
}

abbrev header_codec : Codec JwtHeader
header_codec = record {
  marshal = λ h. ok [];
  unmarshal = λ text. some fixed_header;
  Stable = λ h. h ≡ fixed_header;
  marshal_total = λ h s. (_, refl);
  marshal_error = λ h e k. cc;
  unmarshal_marshal = λ h d s k. ap (λ t. some t) (sym s);
}

abbrev claims_of : ℕ → ℕ → Bytes → Claims
claims_of issued expires username = record {
  session_id = codes "s";
  username = username;
  is_root = false;
  issued_at = issued;
  expires_at = expires;
}

abbrev read_claims : Bytes → Option Claims
read_claims [] = none
read_claims (i ∷ []) = none
read_claims (i ∷ e ∷ name) = some (claims_of i e name)

abbrev claims_codec : Codec Claims
claims_codec = record {
  marshal = λ c. ok (c.issued_at ∷ c.expires_at ∷ c.username);
  unmarshal = read_claims;
  Stable = λ c. c ≡ claims_of c.issued_at c.expires_at c.username;
  marshal_total = λ c s. (_, refl);
  marshal_error = λ c e h. cc;
  unmarshal_marshal =
      λ c d s h. subst (λ d. read_claims d ≡ some c) (ok-injective h) (ap (λ t. some t) (sym s));
}

abbrev cfg : SessionConfig
cfg = record {
  signing_key = codes "key";
  token_expiry = 60 * 1000000000;
  cookie_name = codes "gos3_token";
  cookie_secure = false;
}

abbrev text_of : Result Bytes → Bytes
text_of (ok text) = text
text_of (err e) = []

unfoldable token : Bytes
unfolding generate_token
token = text_of (generate_token toy header_codec claims_codec cfg 0 (codes "s") (codes "ann") false)

abbrev ann_claims : Claims
ann_claims = claims_of 0 60 (codes "ann")

validate_token-generate_token_example :
    validate_token toy header_codec claims_codec cfg (30 * 1000000000) token ≡ ok ann_claims
unfolding token generate_token
validate_token-generate_token_example =
    validate_token-generate_token toy header_codec claims_codec cfg 0 (30 * 1000000000) (codes "s")
      (codes "ann") token false refl refl

validate_token-signed_example :
    (p0 : Bytes) × (p1 : Bytes) × (p2 : Bytes) × (text : Bytes) × (token
      ≡ signing_input p0 (p1 ++ b'.' ∷ p2))
    × (toy.decode p2 ≡ some (toy.sign_hmac cfg.signing_key (signing_input p0 p1)))
    × (toy.decode p1 ≡ some text)
    × (claims_codec.unmarshal text ≡ some ann_claims)
    × (int64_gt (unix (30 * 1000000000)) ann_claims.expires_at ≡ false)
unfolding token generate_token validate_token bytes_eq
validate_token-signed_example =
    validate_token-signed toy header_codec claims_codec cfg (30 * 1000000000) token ann_claims refl
