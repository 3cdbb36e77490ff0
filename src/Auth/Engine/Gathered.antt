-- ===== src/Auth/Engine/Gathered.antt =====
-- IsAllowed against one evaluation of all statements of the user's policies and of the bucket's.

use go_s.Prelude.{
  ok-injective, >>=-eq-ok, Bytes, Result, ok, err, policy_not_found, Option, none, some, List, [],
  ◌∷◌, ◌++◌, Bool, true, false, ◌||◌, ◌≡◌, refl, ◌>>=◌, ◌⊎◌, if◌then◌else◌, arith, Bool-cases, inl,
  inr, any, sym, ◌∙◌, is_empty, ap,
}
use go_s.Auth.Defs.{User, Statement, Policy}
use go_s.Auth.Matching.{evaluate_policy}
use go_s.Auth.Matching.Verdict.{grants, refuses, scan_statements_lem, evaluate_policy_lem}
use go_s.Auth.Engine.{
  evaluate_policy_statements, join, fetched, scan_user_policies, scan_bucket_policy, verdict,
  is_allowed,
}

-- The statements of a policy that was fetched.
abbrev pub statements_of : Result Policy → List Statement
statements_of (ok policy) = policy.statement
statements_of (err e) = []

abbrev pub gather : (Bytes → Result Policy) → List Bytes → List Statement
gather get [] = []
gather get (name ∷ names) = statements_of (get name) ++ gather get names

abbrev pub bucket_statements : (Bytes → Result Policy) → Bytes → List Statement
bucket_statements get bucket = if is_empty bucket then [] else statements_of (get bucket)

-- A fetch that finds the policy or finds none.
abbrev pub Answers : Result Policy → Type 0
Answers r = ((p : Policy) × (r ≡ ok p)) ⊎ (r ≡ err policy_not_found)

any-append {ℓ} :
    {A : Type ℓ} (p : A → Bool) (xs ys : List A) → any p (xs ++ ys) ≡ any p xs || any p ys
any-append p [] ys = refl
any-append p (x ∷ xs) ys = ground (arith, any-append p xs ys)

module _ (user : User) (action resource : Bytes) where
  -- What the loops have seen after these statements.
  abbrev seen_of : List Statement → Bool × Bool
  seen_of stmts =
      (any (grants user action resource) stmts, any (refuses user action resource) stmts)

  pub fetch_step :
      (r : Result Policy)
      → Answers r
      → (o : Option Policy) × (fetched r ≡ ok o)
        × (evaluate_policy_statements o user action resource ≡ seen_of (statements_of r))
  unfolding evaluate_policy_statements
  fetch_step r (inl (p, e)) = (
    some p,
    rw e,
    rw e (ground (arith, scan_statements_lem user action resource p.statement (false, false))),
  )
  fetch_step r (inr e) = (none, rw e, rw e)

  abbrev pub AllAnswer : (Bytes → Result Policy) → List Bytes → Type 0
  AllAnswer get [] = Unit
  AllAnswer get (name ∷ names) = Answers (get name) × AllAnswer get names

  scan_user_policies_lem :
      (get : Bytes → Result Policy) (names : List Bytes) (seen : Bool × Bool)
      → AllAnswer get names
      → scan_user_policies get user action resource names seen
        ≡ ok (join seen (seen_of (gather get names)))
  unfolding scan_user_policies
  scan_user_policies_lem get [] seen h = ground arith
  scan_user_policies_lem get (name ∷ names) seen (a, h) =
      let (o, f, e) = fetch_step (get name) a in
      let rest =
        scan_user_policies_lem get names (join seen (seen_of (statements_of (get name)))) h in
      let g =
        any-append (grants user action resource) (statements_of (get name)) (gather get names) in
      let r =
        any-append (refuses user action resource) (statements_of (get name)) (gather get names) in
      rw (f, e, g, r) (rest ∙ ground arith)

  scan_bucket_policy_lem :
      (get : Bytes → Result Policy) (bucket : Bytes) (seen : Bool × Bool)
      → (is_empty bucket ≡ false → Answers (get bucket))
      → scan_bucket_policy get user action resource bucket seen
        ≡ ok (join seen (seen_of (bucket_statements get bucket)))
  unfolding scan_bucket_policy
  scan_bucket_policy_lem get bucket seen a = elim (Bool-cases (is_empty bucket)) [
    | inl b ↦ rw b (ground arith)
    | inr b ↦ let (o, f, e) = fetch_step (get bucket) (a b) in rw (b, f, e)
  ]

  -- Every policy that the evaluation fetches is found or is known to be absent.
  abbrev pub Complete : (Bytes → Result Policy) → (Bytes → Result Policy) → Bytes → Type 0
  Complete get_iam get_bucket bucket =
      AllAnswer get_iam user.policies × (is_empty bucket ≡ false → Answers (get_bucket bucket))

  Answers-of-fetched : (r : Result Policy) (o : Option Policy) → fetched r ≡ ok o → Answers r
  Answers-of-fetched (ok p) o h = inl (p, refl)
  Answers-of-fetched (err policy_not_found) o h = inr refl
  Answers-of-fetched r o h = cc

  AllAnswer-of-scan :
      (get : Bytes → Result Policy) (names : List Bytes) (seen total : Bool × Bool)
      → scan_user_policies get user action resource names seen ≡ ok total
      → AllAnswer get names
  unfolding scan_user_policies
  AllAnswer-of-scan get [] seen total h = tt
  AllAnswer-of-scan get (name ∷ names) seen total h =
      let (o, f, g) = >>=-eq-ok (fetched (get name)) _ h in
      (Answers-of-fetched (get name) o f, AllAnswer-of-scan get names _ total g)

  Answers-of-scan :
      (get : Bytes → Result Policy) (bucket : Bytes) (seen total : Bool × Bool)
      → scan_bucket_policy get user action resource bucket seen ≡ ok total
      → is_empty bucket ≡ false
      → Answers (get bucket)
  unfolding scan_bucket_policy
  Answers-of-scan get bucket seen total k e =
      let (o, m, n) = >>=-eq-ok (fetched (get bucket)) _ (rw e at k) in
      Answers-of-fetched (get bucket) o m

  evaluated : (Bytes → Result Policy) → (Bytes → Result Policy) → Bytes → Result Bool
  evaluated get_iam get_bucket bucket =
      scan_user_policies get_iam user action resource user.policies (false, false) >>= λ seen.
      scan_bucket_policy get_bucket user action resource bucket seen >>= λ total. ok (verdict total)

  is_allowed-evaluated :
      (get_iam get_bucket : Bytes → Result Policy) (bucket : Bytes)
      → is_allowed get_iam get_bucket user action resource bucket
        ≡ (if user.is_root then ok true else evaluated get_iam get_bucket bucket)
  unfolding is_allowed evaluated
  is_allowed-evaluated get_iam get_bucket bucket = refl

  Complete-of-is_allowed :
      (get_iam get_bucket : Bytes → Result Policy) (bucket : Bytes) (b : Bool)
      → user.is_root ≡ false
      → is_allowed get_iam get_bucket user action resource bucket ≡ ok b
      → Complete get_iam get_bucket bucket
  unfolding evaluated
  Complete-of-is_allowed get_iam get_bucket bucket b r h =
      let h' : evaluated get_iam get_bucket bucket ≡ ok b =
        ap (λ i. if i then ok true else evaluated get_iam get_bucket bucket) (sym r)
        ∙ sym (is_allowed-evaluated get_iam get_bucket bucket)
        ∙ h in
      let (seen, f, g) =
        >>=-eq-ok (scan_user_policies get_iam user action resource user.policies (false, false)) _
          (h') in
      let (total, k, l) =
        >>=-eq-ok (scan_bucket_policy get_bucket user action resource bucket seen) _ g in
      (
        AllAnswer-of-scan get_iam user.policies (false, false) seen f,
        Answers-of-scan get_bucket bucket seen total k,
      )

-- The policy that holds all statements of the user's policies and of the bucket's.
abbrev pub union_policy :
    (Bytes → Result Policy) → (Bytes → Result Policy) → User → Bytes → Bytes → Policy
union_policy get_iam get_bucket user bucket version = record {
  version = version;
  statement = gather get_iam user.policies ++ bucket_statements get_bucket bucket;
}

if_ok : (b c : Bool) → (if b then ok true else ok c) ≡ ok (b || c)
if_ok b c = ground arith

-- If every policy of the user and of the bucket is found or known to be absent, IsAllowed allows a
-- root user, and answers any other as EvaluatePolicy does on the one policy that holds all their
-- statements.
pub is_allowed_lem :
    (user : User) (action resource : Bytes) (get_iam get_bucket : Bytes → Result Policy)
    (bucket version : Bytes)
    → Complete user action resource get_iam get_bucket bucket
    → is_allowed get_iam get_bucket user action resource bucket
      ≡ ok (
          user.is_root
          || evaluate_policy
              (some (union_policy get_iam get_bucket user bucket version))
              user
              action
              resource)
unfolding evaluated
is_allowed_lem user action resource get_iam get_bucket bucket version (a, b) =
    let s = scan_user_policies_lem user action resource get_iam user.policies (false, false) a in
    let t =
      scan_bucket_policy_lem user action resource get_bucket bucket
        (seen_of user action resource (gather get_iam user.policies)) b in
    let e =
      evaluate_policy_lem user action resource
        (union_policy get_iam get_bucket user bucket version) in
    let g =
      any-append (grants user action resource) (gather get_iam user.policies)
        (bucket_statements get_bucket bucket) in
    let r =
      any-append (refuses user action resource) (gather get_iam user.policies)
        (bucket_statements get_bucket bucket) in
    let d : evaluated user action resource get_iam get_bucket bucket
        ≡ ok (
            evaluate_policy (some (union_policy get_iam get_bucket user bucket version)) user action
              resource) =
      rw (s, t, e, g, r) (ground arith) in
    is_allowed-evaluated user action resource get_iam get_bucket bucket
    ∙ rw d (if_ok user.is_root _)

-- IsAllowed fails closed: it allows a user that is not root only if every policy it had to fetch
-- was found or known to be absent, and only if EvaluatePolicy allows on the one policy that holds
-- all their statements.
pub is_allowed-closed :
    (user : User) (action resource : Bytes) (get_iam get_bucket : Bytes → Result Policy)
    (bucket version : Bytes)
    → user.is_root ≡ false
    → is_allowed get_iam get_bucket user action resource bucket ≡ ok true
    → Complete user action resource get_iam get_bucket bucket
      × (evaluate_policy
            (some (union_policy get_iam get_bucket user bucket version))
            user
            action
            resource
          ≡ true)
is_allowed-closed user action resource get_iam get_bucket bucket version r h =
    let c = Complete-of-is_allowed user action resource get_iam get_bucket bucket true r h in
    let e = is_allowed_lem user action resource get_iam get_bucket bucket version c in
    (c, ok-injective (ground arith))
