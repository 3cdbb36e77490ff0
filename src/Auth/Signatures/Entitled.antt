-- ===== src/Auth/Signatures/Entitled.antt =====
-- Who holds an access key: lookupByAccessKey of internal/auth/sigv4.go.
use go_s.Prelude.{
  ℕ, ◌≤◌, ltb, ℤ, pos, negsuc, Bytes, Result, ok, err, Error, auth_missing, auth_malformed, Option,
  none, some, ◌≡◌, refl, sym, ap, ◌∙◌, ◌⊎◌, inl, inr, Bool, true, false, not, ◌||◌, >>=-eq-ok,
  ok-injective, arith,
}
use go_s.Storage.{Time}
use go_s.Auth.Defs.{User, ServiceAccount}
use go_s.Auth.Signatures.{
  is_expired, Accounts, guard, found_key, resolve, lookup_by_access_key, lifetime,
}

pub guard-eq-ok :
    {A : Type 0} (b : Bool) (e : Error) (rest : Result A) {a : A}
    → guard b (err e) rest ≡ ok a
    → (b ≡ false) × (rest ≡ ok a)
guard-eq-ok true e rest h = cc
guard-eq-ok false e rest h = (refl, h)

pub not-false : (b : Bool) → not b ≡ false → b ≡ true
not-false true h = refl
not-false false h = cc

pub or-false : (a b : Bool) → (a || b) ≡ false → (a ≡ false) × (b ≡ false)
or-false a b h = ground (arith, h)

pub lifetime_bounds : (o : Option ℤ) (n : ℕ) → lifetime o ≡ ok n → (1 ≤ n) × (n ≤ 604800)
lifetime_bounds none n h = cc
lifetime_bounds (some (negsuc m)) n h = cc
lifetime_bounds (some (pos m)) n h =
    let (b, e) = guard-eq-ok (ltb m 1 || ltb 604800 m) auth_malformed (ok m) h in
    let same : m ≡ n = ok-injective e in
    let (low, high) = or-false (ltb m 1) (ltb 604800 m) b in
    (ground (arith, low, same), ground (arith, high, same))

module _ (A : Accounts) (now : Time) where
  -- The user of a service account that is neither disabled nor over, whose parent is not disabled.
  pub record IsDelegate (access_key secret : Bytes) (user : User) : Type 0 where
    pub store : Bytes → Result ServiceAccount
    pub account : ServiceAccount
    pub parent : User
    pub is_store : A.sa_store ≡ some store
    pub found : store access_key ≡ ok account
    pub enabled : account.disabled ≡ false
    pub in_force : is_expired now account ≡ false
    pub is_parent : A.user_by_username account.parent_user ≡ ok parent
    pub parent_enabled : parent.disabled ≡ false
    pub is_user : user ≡ (record parent { access_key_id = account.access_key_id })
    pub is_secret : secret ≡ account.secret_key

  -- The user who owns an access key that is no service account's.
  abbrev pub IsOwner : Bytes → Bytes → User → Type 0
  IsOwner access_key secret user =
      (A.user_by_access_key access_key ≡ ok user) × (secret ≡ user.secret_key)

  found_key-IsOwner :
      (access_key secret : Bytes) (user : User)
      → found_key A access_key ≡ ok (user, secret)
      → IsOwner access_key secret user
  found_key-IsOwner access_key secret user h =
      let (u, f, e) = >>=-eq-ok (A.user_by_access_key access_key) _ h in
      let same : u ≡ user = ap (λ (p : User × Bytes). p.0) (ok-injective e) in
      (
        f ∙ ap (λ x. ok x) same,
        ap (λ (p : User × Bytes). p.1) (sym (ok-injective e))
            ∙ ap (λ (x : User). x.secret_key) same,
      )

  resolve-IsDelegate :
      (access_key secret : Bytes) (user : User) (store : Bytes → Result ServiceAccount)
      (sa : ServiceAccount)
      → A.sa_store ≡ some store
      → store access_key ≡ ok sa
      → resolve A now sa ≡ ok (user, secret)
      → IsDelegate access_key secret user
  unfolding resolve
  resolve-IsDelegate access_key secret user store sa s f h =
      let (active, h1) = guard-eq-ok (sa.disabled || is_expired now sa) auth_missing _ h in
      let (parent, p, h2) = >>=-eq-ok (A.user_by_username sa.parent_user) _ h1 in
      let (enabled, h3) = guard-eq-ok parent.disabled auth_missing _ h2 in
      let (d, x) = or-false sa.disabled (is_expired now sa) active in
      record {
        store = store;
        account = sa;
        parent = parent;
        is_store = s;
        found = f;
        enabled = d;
        in_force = x;
        is_parent = p;
        parent_enabled = enabled;
        is_user = sym (ap (λ (p : User × Bytes). p.0) (ok-injective h3));
        is_secret = sym (ap (λ (p : User × Bytes). p.1) (ok-injective h3));
      }

  pub lookup-IsEntitled :
      (access_key secret : Bytes) (user : User)
      → lookup_by_access_key A now access_key ≡ ok (user, secret)
      → IsDelegate access_key secret user ⊎ IsOwner access_key secret user
  unfolding lookup_by_access_key
  lookup-IsEntitled access_key secret user h = by A.sa_store refl h
    where
      stored :
          (store : Bytes → Result ServiceAccount) (r : Result ServiceAccount)
          → A.sa_store ≡ some store
          → store access_key ≡ r
          → (elim r [ ok sa ↦ resolve A now sa | err e ↦ found_key A access_key ])
            ≡ ok (user, secret)
          → IsDelegate access_key secret user ⊎ IsOwner access_key secret user
      stored store (ok sa) s f h = inl (resolve-IsDelegate access_key secret user store sa s f h)
      stored store (err e) s f h = inr (found_key-IsOwner access_key secret user h)

      by :
          (o : Option (Bytes → Result ServiceAccount))
          → A.sa_store ≡ o
          → (elim o [
            | none ↦ found_key A access_key
            | some store ↦ elim (store access_key) [
              | ok sa ↦ resolve A now sa
              | err e ↦ found_key A access_key
            ]
          ])
            ≡ ok (user, secret)
          → IsDelegate access_key secret user ⊎ IsOwner access_key secret user
      by none s h = inr (found_key-IsOwner access_key secret user h)
      by (some store) s h = stored store (store access_key) s refl h
