-- ===== src/Auth/Tokens.antt =====
-- The session tokens of internal/auth/session.go: a header, claims and a signature, in base64 with dots
-- between them.
pub mod Checks
use go_s.Prelude.{
  ℕ, ◌+◌, ◌/◌, ◌%◌, ◌^◌, Bytes, codes, Result, ok, err, token_invalid, token_expired, Option, none,
  some, List, [], ◌∷◌, ◌++◌, ◌>>=◌, ◌≡◌, Bool, true, false, not, if◌then◌else◌, ltb, ◌==◌, bytes_eq,
  cut, with_front, All, ◌≢◌,
}
use go_s.Bolt.{Codec}
use go_s.Storage.{Time}

pub record SessionConfig : Type 0 where
  pub signing_key : Bytes
  pub token_expiry : ℕ
  pub cookie_name : Bytes
  pub cookie_secure : Bool

-- The times are Unix seconds, an int64 as its bit pattern.
pub record Claims : Type 0 where
  pub session_id : Bytes
  pub username : Bytes
  pub is_root : Bool
  pub issued_at : ℕ
  pub expires_at : ℕ

pub record JwtHeader : Type 0 where
  pub alg : Bytes
  pub typ : Bytes

abbrev pub fixed_header : JwtHeader
fixed_header = record { alg = codes "HS256"; typ = codes "JWT" }

-- HMAC-SHA256 and base64.RawURLEncoding.
pub record Crypto : Type 0 where
  pub sign_hmac : Bytes → Bytes → Bytes
  pub encode : Bytes → Bytes
  pub decode : Bytes → Option Bytes
  pub decode_encode : (s : Bytes) → decode (encode s) ≡ some s
  -- The alphabet of base64 has no dot.
  pub encode_no_dot : (s : Bytes) → All (λ c. c ≢ b'.') (encode s)

-- t.Unix() of a time in nanoseconds
abbrev pub unix : Time → ℕ
unix t = (t / 1000000000) % 2 ^ 64

-- a > b on int64
abbrev pub int64_gt : ℕ → ℕ → Bool
int64_gt a b = ltb ((b + 2 ^ 63) % 2 ^ 64) ((a + 2 ^ 63) % 2 ^ 64)

-- strings.SplitN(token, ".", 3), where it gives three parts.
unfoldable pub split_three : Bytes → Option (Bytes × Bytes × Bytes)
unfolding cut
split_three token = elim (cut b'.' token) [
  | none ↦ none
  | some (p0, rest) ↦ elim (cut b'.' rest) [ none ↦ none | some (p1, p2) ↦ some (p0, p1, p2) ]
]

abbrev pub signing_input : Bytes → Bytes → Bytes
signing_input header claims = header ++ b'.' ∷ claims

abbrev pub new_claims : SessionConfig → Time → Bytes → Bytes → Bool → Claims
new_claims cfg now session_id username is_root = record {
  session_id = session_id;
  username = username;
  is_root = is_root;
  issued_at = unix now;
  expires_at = unix (now + cfg.token_expiry);
}

abbrev pub or_invalid {ℓ} : {A : Type ℓ} → Option A → Result A
or_invalid none = err token_invalid
or_invalid (some a) = ok a

module _ (K : Crypto) (JH : Codec JwtHeader) (JC : Codec Claims) where
  unfoldable pub generate_token : SessionConfig → Time → Bytes → Bytes → Bool → Result Bytes
  generate_token cfg now session_id username is_root = do
    header ← JH.marshal fixed_header
    claims ← JC.marshal (new_claims cfg now session_id username is_root)
    let input = signing_input (K.encode header) (K.encode claims)
    ok (input ++ b'.' ∷ K.encode (K.sign_hmac cfg.signing_key input))

  unfoldable pub validate_token : SessionConfig → Time → Bytes → Result Claims
  unfolding split_three
  validate_token cfg now token = do
    (p0, p1, p2) ← or_invalid (split_three token)
    actual ← or_invalid (K.decode p2)
    if not (bytes_eq (K.sign_hmac cfg.signing_key (signing_input p0 p1)) actual)
        then err token_invalid
        else (do
          text ← or_invalid (K.decode p1)
          claims ← or_invalid (JC.unmarshal text)
          if int64_gt (unix now) claims.expires_at then err token_expired else ok claims)
