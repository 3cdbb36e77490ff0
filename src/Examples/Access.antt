-- ===== src/Examples/Access.antt =====
-- The theorems on policies and on CheckPolicy, at a policy that lets a user read a bucket and keeps one prefix from it.

use go_s.Prelude.{
  Bytes, codes, Result, ok, err, policy_not_found, some, ◌⊎◌, [], ◌∷◌, true, false, ◌≡◌, ◌↔◌, refl,
  inl, inr, bytes_eq, has_suffix, has_prefix, trim_suffix,
}
use go_s.Auth.{User, Statement, Policy, str}
use go_s.Auth.Matching.{
  scan_statements, applies, match_principal, match_list_or_string, match_wildcard, evaluate_policy,
}
use go_s.Auth.Matching.Verdict.{evaluate_policy_iff, SomeApplies}
use go_s.Auth.Engine.{is_allowed}
use go_s.Auth.Engine.Gathered.{is_allowed_lem, is_allowed-closed, union_policy, Complete}
use go_s.Handler.Access.{Stores, owns, check_policy, ask_policies, IsAllowedBy, check_policy-closed}
use go_s.Examples.Stores.{info_named}

abbrev ann : User
ann = record {
  username = codes "ann";
  password_hash = [];
  access_key_id = [];
  secret_key = [];
  policies = codes "readers" ∷ [];
  is_root = false;
  disabled = false;
  created_at = 0;
}

abbrev says : Bytes → Bytes → Statement
says effect resource = record {
  sid = [];
  effect = effect;
  principal = str (codes "*");
  action = str (codes "s3:Get*");
  resource = str resource;
  condition = [];
}

abbrev readers : Policy
readers = record {
  version = [];
  statement = says (codes "Allow") (codes "docs/*") ∷ says (codes "Deny") (codes "docs/x*") ∷ [];
}

-- The same for the resources that CheckPolicy names.
abbrev wide : Policy
wide = record { version = []; statement = says (codes "Allow") (codes "arn:aws:s3:::docs/*") ∷ [] }

-- The stores: the policy of the user is there, the bucket has none.
abbrev get_iam : Bytes → Result Policy
get_iam name = ok readers

abbrev get_none : Bytes → Result Policy
get_none name = err policy_not_found

abbrev get_object_action : Bytes
get_object_action = codes "s3:GetObject"

evaluate_policy_iff_example :
    (evaluate_policy (some readers) ann get_object_action (codes "docs/a") ≡ true) ↔ (
      SomeApplies ann get_object_action (codes "docs/a") (codes "Allow") readers.statement
      × ¬ SomeApplies ann get_object_action (codes "docs/a") (codes "Deny") readers.statement)
evaluate_policy_iff_example = evaluate_policy_iff ann get_object_action (codes "docs/a") readers

is_allowed_lem_example :
    is_allowed get_iam get_none ann get_object_action (codes "docs/a") (codes "docs")
    ≡ ok (
        evaluate_policy
          (some (union_policy get_iam get_none ann (codes "docs") []))
          ann
          get_object_action
          (codes "docs/a"))
is_allowed_lem_example =
    is_allowed_lem ann get_object_action (codes "docs/a") get_iam get_none (codes "docs") []
      ((inl (readers, refl), tt), λ e. inr refl)

is_allowed-closed_example :
    Complete ann get_object_action (codes "docs/a") get_iam get_none (codes "docs")
    × (evaluate_policy
          (some (union_policy get_iam get_none ann (codes "docs") []))
          ann
          get_object_action
          (codes "docs/a")
        ≡ true)
unfolding is_allowed scan_statements applies match_principal bytes_eq match_list_or_string
    match_wildcard has_suffix has_prefix trim_suffix
is_allowed-closed_example =
    is_allowed-closed ann get_object_action (codes "docs/a") get_iam get_none (codes "docs") [] refl
      refl

-- Every bucket is there and belongs to the root user.
abbrev stores : Stores
stores = record {
  get_bucket = λ name. ok (info_named name);
  get_iam_policy = λ name. ok wide;
  get_bucket_policy = get_none;
}

check_policy-closed_example :
    ((bytes_eq get_object_action (codes "s3:CreateBucket") ≡ true)
      × (bytes_eq ann.username (codes "anonymous") ≡ false))
    ⊎ ((owns ann (stores.get_bucket (codes "docs")) ≡ true)
        ⊎ IsAllowedBy stores ann get_object_action (codes "docs") (codes "a") [])
unfolding check_policy ask_policies is_allowed scan_statements applies match_principal bytes_eq
    match_list_or_string match_wildcard has_suffix has_prefix trim_suffix
check_policy-closed_example =
    check_policy-closed stores ann get_object_action (codes "docs") (codes "a") [] refl refl
