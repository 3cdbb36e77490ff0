-- ===== src/Handler/Access.antt =====
-- CheckPolicy and getObjectKey of internal/handler/handler.go.
use go_s.Prelude.{
  Bytes, codes, Result, ok, err, access_denied, some, ◌∷◌, ◌++◌, ◌≡◌, refl, ◌⊎◌, inl, inr, Bool,
  true, false, not, ◌&&◌, if◌then◌else◌, bytes_eq, is_empty, has_suffix, Bool-cases, arith, then_of,
  else_of,
}
use go_s.Storage.{BucketInfo}
use go_s.Auth.{User, Policy}
use go_s.Auth.Matching.{evaluate_policy}
use go_s.Auth.Engine.{is_allowed}
use go_s.Auth.Engine.Gathered.{Complete, union_policy, is_allowed-closed}

-- The key that chi has routed to, with the slash at its end that chi strips.
unfoldable pub get_object_key : Bytes → Bytes → Bytes → Bytes
unfolding has_suffix
get_object_key wildcard key_param path =
    let key = if is_empty wildcard then key_param else wildcard in
    if has_suffix path (codes "/") && not (has_suffix key (codes "/"))
    then key ++ codes "/"
    else key

abbrev pub resource_of : Bytes → Bytes → Bytes
resource_of bucket object =
    if not (is_empty object)
    then codes "arn:aws:s3:::" ++ (bucket ++ b'/' ∷ object)
    else if is_empty bucket
    then codes "*"
    else codes "arn:aws:s3:::" ++ bucket

abbrev pub allowed_or_denied : Result Bool → Result (Unit {0})
allowed_or_denied (ok true) = ok tt
allowed_or_denied (ok false) = err access_denied
allowed_or_denied (err e) = err access_denied

abbrev pub owns : User → Result BucketInfo → Bool
owns user (err e) = false
owns user (ok info) = not (is_empty info.owner) && bytes_eq info.owner user.username

-- The stores that CheckPolicy asks: GetBucket, and the two kinds of policies.
pub record Stores : Type 0 where
  pub get_bucket : Bytes → Result BucketInfo
  pub get_iam_policy : Bytes → Result Policy
  pub get_bucket_policy : Bytes → Result Policy

module _ (S : Stores) (user : User) where
  unfoldable pub ask_policies : Bytes → Bytes → Bytes → Result (Unit {0})
  ask_policies action bucket object = allowed_or_denied (
      is_allowed S.get_iam_policy S.get_bucket_policy user action (resource_of bucket object)
        bucket)

  unfoldable pub check_policy : Bytes → Bytes → Bytes → Result (Unit {0})
  check_policy action bucket object =
      if user.is_root
      then ok tt
      else if is_empty bucket
      then ask_policies action bucket object
      else if bytes_eq action (codes "s3:CreateBucket")
      then (if bytes_eq user.username (codes "anonymous") then err access_denied else ok tt)
      else if owns user (S.get_bucket bucket)
      then ok tt
      else ask_policies action bucket object

  -- The policies of the user and of the bucket were all fetched or known to be absent, and together
  -- they allow the action.
  pub record IsAllowedBy (action bucket object version : Bytes) : Type 0 where
    pub complete :
        Complete user action (resource_of bucket object) S.get_iam_policy S.get_bucket_policy bucket
    pub evaluated :
        evaluate_policy
          (some (union_policy S.get_iam_policy S.get_bucket_policy user bucket version))
          user
          action
          (resource_of bucket object)
        ≡ true

  ask_policies-IsAllowedBy :
      (action bucket object version : Bytes)
      → user.is_root ≡ false
      → ask_policies action bucket object ≡ ok tt
      → IsAllowedBy action bucket object version
  unfolding ask_policies
  ask_policies-IsAllowedBy action bucket object version r h =
      by
        (is_allowed S.get_iam_policy S.get_bucket_policy user action (resource_of bucket object)
          bucket)
        refl h
    where
      by :
          (a : Result Bool)
          → is_allowed S.get_iam_policy S.get_bucket_policy user action
              (resource_of bucket object)
              bucket
            ≡ a
          → allowed_or_denied a ≡ ok tt
          → IsAllowedBy action bucket object version
      by (err e) p q = cc
      by (ok false) p q = cc
      by (ok true) p q =
          let (c, e) =
            is_allowed-closed user action (resource_of bucket object) S.get_iam_policy
              S.get_bucket_policy bucket version r p in
          record { complete = c; evaluated = e }

  -- CheckPolicy lets a user who is not root pass for one of three reasons only: the action is to
  -- create a bucket and the user is not anonymous; the bucket is there and names the user as its
  -- owner; or every policy of the user and of the bucket was fetched or known to be absent, and
  -- EvaluatePolicy allows the action on the one policy that holds all their statements.
  pub check_policy-closed :
      (action bucket object version : Bytes)
      → user.is_root ≡ false
      → check_policy action bucket object ≡ ok tt
      → ((bytes_eq action (codes "s3:CreateBucket") ≡ true)
          × (bytes_eq user.username (codes "anonymous") ≡ false))
        ⊎ ((owns user (S.get_bucket bucket) ≡ true) ⊎ IsAllowedBy action bucket object version)
  unfolding check_policy
  check_policy-closed action bucket object version r h =
      let creates = bytes_eq action (codes "s3:CreateBucket") in
      let h1 = else_of user.is_root _ _ r h in
      elim (Bool-cases (is_empty bucket)) [
        | inl e ↦ inr (
            inr (
              ask_policies-IsAllowedBy action bucket object version r
                (then_of (is_empty bucket) _ _ e h1)))
        | inr e ↦
            let h2 = else_of (is_empty bucket) _ _ e h1 in
            elim (Bool-cases creates) [
              | inl c ↦
                  let h3 = then_of creates _ _ c h2 in
                  elim (Bool-cases (bytes_eq user.username (codes "anonymous"))) [
                    | inl a ↦ absurd (ground (arith, a, h3))
                    | inr a ↦ inl (c, a)
                  ]
              | inr c ↦
                  let h3 = else_of creates _ _ c h2 in
                  elim (Bool-cases (owns user (S.get_bucket bucket))) [
                    | inl o ↦ inr (inl o)
                    | inr o ↦ inr (
                        inr (
                          ask_policies-IsAllowedBy action bucket object version r
                            (else_of (owns user (S.get_bucket bucket)) _ _ o h3)))
                  ]
            ]
      ]
