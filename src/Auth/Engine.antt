-- ===== src/Auth/Engine.antt =====
-- internal/auth/engine.go: the policies of a user and of a bucket together.
pub mod Gathered
use go_s.Prelude.{
  is_empty, Bytes, Result, ok, err, Error, policy_not_found, fetch_failed, Option, none, some, List,
  [], ◌∷◌, ◌>>=◌, Bool, true, false, not, ◌||◌, if◌then◌else◌,
}
use go_s.Auth.Defs.{User, Policy}
use go_s.Auth.Matching.{scan_statements}

-- evaluatePolicyStatements; a nil policy is `none`.
unfoldable pub evaluate_policy_statements : Option Policy → User → Bytes → Bytes → Bool × Bool
evaluate_policy_statements none user action resource = (false, false)
evaluate_policy_statements (some policy) user action resource =
    scan_statements user action resource policy.statement (false, false)

abbrev pub join : Bool × Bool → Bool × Bool → Bool × Bool
join (allowed, denied) (a, d) = (allowed || a, denied || d)

-- A policy that is not found counts for nothing; any other error of the store ends the evaluation.
abbrev pub fetched : Result Policy → Result (Option Policy)
fetched (ok policy) = ok (some policy)
fetched (err policy_not_found) = ok none
fetched (err _) = err fetch_failed

-- The loop over the names of the user's policies.
unfoldable pub scan_user_policies :
    (Bytes → Result Policy) → User → Bytes → Bytes → List Bytes → Bool × Bool → Result (Bool × Bool)
unfolding evaluate_policy_statements
scan_user_policies get_iam user action resource [] seen = ok seen
scan_user_policies get_iam user action resource (name ∷ names) seen = do
  policy ← fetched (get_iam name)
  scan_user_policies get_iam user action resource names
      (join seen (evaluate_policy_statements policy user action resource))

unfoldable pub scan_bucket_policy :
    (Bytes → Result Policy) → User → Bytes → Bytes → Bytes → Bool × Bool → Result (Bool × Bool)
unfolding evaluate_policy_statements
scan_bucket_policy get_bucket_policy user action resource bucket seen =
    if is_empty bucket then ok seen else do
      policy ← fetched (get_bucket_policy bucket)
      ok (join seen (evaluate_policy_statements policy user action resource))

abbrev pub verdict : Bool × Bool → Bool
verdict (allowed, denied) = if denied then false else allowed

-- IsAllowed, over the GetIAMPolicy and GetBucketPolicy of the stores.
unfoldable pub is_allowed :
    (Bytes → Result Policy) → (Bytes → Result Policy) → User → Bytes → Bytes → Bytes → Result Bool
unfolding scan_user_policies scan_bucket_policy
is_allowed get_iam get_bucket_policy user action resource bucket =
    if user.is_root then ok true else do
      seen ← scan_user_policies get_iam user action resource user.policies (false, false)
      total ← scan_bucket_policy get_bucket_policy user action resource bucket seen
      ok (verdict total)
