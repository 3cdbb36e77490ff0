-- ===== src/Auth/Tokens/Checks.antt =====
-- What ValidateToken accepts: tokens of GenerateToken that are not over, and no token whose signature is
-- not that of its first two parts.
use mathlib.Core.List.{append_assoc}
use mathlib.Core.Path.{subst}
use go_s.Prelude.{
  Error, ◌+◌, Bytes, Result, ok, err, token_invalid, token_expired, Option, none, some, ◌∷◌, ◌++◌,
  ◌≡◌, refl, Bool, true, false, not, if◌then◌else◌, bytes_eq, bytes_eq_refl, bytes_eq_iff, arith,
  >>=-eq-ok, ok-injective, ap, sym, ◌∙◌, Option-cases, inl, inr, cut, cut-append, cut-eq-some,
}
use go_s.Bolt.{Codec}
use go_s.Storage.{Time}
use go_s.Auth.Tokens.{
  SessionConfig, Claims, JwtHeader, Crypto, fixed_header, unix, int64_gt, split_three,
  signing_input, new_claims, generate_token, or_invalid, validate_token,
}

split_three-eq-some :
    (token p0 p1 p2 : Bytes)
    → split_three token ≡ some (p0, p1, p2)
    → token ≡ signing_input p0 (p1 ++ b'.' ∷ p2)
unfolding split_three
split_three-eq-some token p0 p1 p2 h = elim (Option-cases (cut b'.' token)) [
  | inl n ↦ absurd (ground arith)
  | inr ((a, rest), n) ↦ elim (Option-cases (cut b'.' rest)) [
    | inl m ↦ absurd (ground arith)
    | inr ((b, c), m) ↦
        let x = cut-eq-some b'.' token a rest n in
        let y = cut-eq-some b'.' rest b c m in
        let e0 : p0 ≡ a = ground arith in
        let e1 : p1 ≡ b = ground arith in
        let e2 : p2 ≡ c = ground arith in rw (e0, e1, e2) (x ∙ ap (λ r. a ++ b'.' ∷ r) y)
  ]
]

or_invalid-eq-ok {ℓ} : {A : Type ℓ} (o : Option A) (a : A) → or_invalid o ≡ ok a → o ≡ some a
or_invalid-eq-ok none a h = cc
or_invalid-eq-ok (some b) a h = ap (λ b. some b) (ok-injective h)

-- What is left of a check that passed.
passed {ℓ} :
    {A : Type ℓ} (b : Bool) (e : Error) (rest : Result A) (a : A)
    → (if b then err e else rest) ≡ ok a
    → (b ≡ false) × (rest ≡ ok a)
passed true e rest a h = cc
passed false e rest a h = (refl, h)

module _ (K : Crypto) (JH : Codec JwtHeader) (JC : Codec Claims) where
  -- A token that GenerateToken made gives its claims back to ValidateToken with the same key, as
  -- long as the time is not past their expiry, and the error of an expired token afterwards. The
  -- claims are stable under JSON.
  pub validate_token-generate_token :
      (cfg : SessionConfig) (now later : Time) (session_id username token : Bytes) (is_root : Bool)
      → JC.Stable (new_claims cfg now session_id username is_root)
      → generate_token K JH JC cfg now session_id username is_root ≡ ok token
      → validate_token K JH JC cfg later token ≡ (
          if int64_gt (unix later) (unix (now + cfg.token_expiry))
          then err token_expired
          else ok (new_claims cfg now session_id username is_root))
  unfolding generate_token validate_token split_three
  validate_token-generate_token cfg now later session_id username token is_root s h =
      let made = new_claims cfg now session_id username is_root in
      let (header, p, h1) = >>=-eq-ok (JH.marshal fixed_header) _ h in
      let (claims, q, h2) = >>=-eq-ok (JC.marshal made) _ h1 in
      let input = signing_input (K.encode header) (K.encode claims) in
      let sig = K.encode (K.sign_hmac cfg.signing_key input) in
      let t : token ≡ K.encode header ++ b'.' ∷ (K.encode claims ++ b'.' ∷ sig) =
        sym (ok-injective h2)
        ∙ append_assoc (K.encode header) (b'.' ∷ K.encode claims) (b'.' ∷ sig) in
      let c0 =
        cut-append b'.' (K.encode header) (K.encode claims ++ b'.' ∷ sig)
          (K.encode_no_dot header) in
      let c1 = cut-append b'.' (K.encode claims) sig (K.encode_no_dot claims) in
      let three : split_three token ≡ some (K.encode header, K.encode claims, sig) =
        rw (t, split_three) (rw (c0, c1)) in
      rw (
        three,
        validate_token,
        K.decode_encode (K.sign_hmac cfg.signing_key input),
        bytes_eq_refl (K.sign_hmac cfg.signing_key input),
        K.decode_encode claims,
        JC.unmarshal_marshal made claims s q,
      )

  -- ValidateToken accepts a token only if it is three parts with dots between them, the last of which
  -- decodes to the signature of the first two under the key, the second to the claims that are
  -- returned, and the time is not past their expiry.
  pub validate_token-signed :
      (cfg : SessionConfig) (now : Time) (token : Bytes) (claims : Claims)
      → validate_token K JH JC cfg now token ≡ ok claims
      → (p0 : Bytes) × (p1 : Bytes) × (p2 : Bytes) × (text : Bytes) × (token
          ≡ signing_input p0 (p1 ++ b'.' ∷ p2))
        × (K.decode p2 ≡ some (K.sign_hmac cfg.signing_key (signing_input p0 p1)))
        × (K.decode p1 ≡ some text)
        × (JC.unmarshal text ≡ some claims)
        × (int64_gt (unix now) claims.expires_at ≡ false)
  unfolding validate_token
  validate_token-signed cfg now token claims h =
      let ((p0, p1, p2), e, h1) = >>=-eq-ok (or_invalid (split_three token)) _ h in
      let (actual, d, h2) = >>=-eq-ok (or_invalid (K.decode p2)) _ h1 in
      let mac = K.sign_hmac cfg.signing_key (signing_input p0 p1) in
      let (same, h3) = passed (not (bytes_eq mac actual)) token_invalid _ claims h2 in
      let (text, t, h4) = >>=-eq-ok (or_invalid (K.decode p1)) _ h3 in
      let (c, u, h5) = >>=-eq-ok (or_invalid (JC.unmarshal text)) _ h4 in
      let (fresh, h6) = passed (int64_gt (unix now) c.expires_at) token_expired (ok c) claims h5 in
      let eq : mac ≡ actual = (bytes_eq_iff mac actual).0 (ground arith) in
      let is_c : c ≡ claims = ok-injective h6 in
      (
        p0,
        p1,
        p2,
        text,
        split_three-eq-some token p0 p1 p2 (or_invalid-eq-ok (split_three token) (p0, p1, p2) e),
        or_invalid-eq-ok (K.decode p2) actual d ∙ ap (λ s. some s) (sym eq),
        or_invalid-eq-ok (K.decode p1) text t,
        or_invalid-eq-ok (JC.unmarshal text) c u ∙ ap (λ c. some c) is_c,
        subst (λ (c : Claims). int64_gt (unix now) c.expires_at ≡ false) is_c fresh,
      )
