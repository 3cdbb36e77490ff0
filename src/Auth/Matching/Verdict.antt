-- ===== src/Auth/Matching/Verdict.antt =====
-- The verdict of a policy: some statement that applies allows, and none that applies denies.
use mathlib.Core.List.{Permᴰ}
use go_s.Prelude.{
  Bytes, codes, some, List, [], ◌∷◌, Bool, true, false, not, ◌&&◌, ◌||◌, ◌≡◌, ◌↔◌, ◌⊎◌, refl,
  bytes_eq, bytes_eq_iff, arith, Bool-cases, inl, inr, any, ◌∙◌, ap,
}
use go_s.Auth.Defs.{User, Statement, Policy}
use go_s.Auth.Matching.{applies, note_effect, scan_statements, evaluate_policy}

module _ (user : User) (action resource : Bytes) where
  abbrev pub grants : Statement → Bool
  grants stmt = applies user action resource stmt && bytes_eq stmt.effect (codes "Allow")

  abbrev pub refuses : Statement → Bool
  refuses stmt = applies user action resource stmt && bytes_eq stmt.effect (codes "Deny")

  -- The loop finds whether a statement that applies allows and whether one denies.
  pub scan_statements_lem :
      (stmts : List Statement) (seen : Bool × Bool)
      → scan_statements user action resource stmts seen
        ≡ (seen.0 || any grants stmts, seen.1 || any refuses stmts)
  unfolding scan_statements
  scan_statements_lem [] seen = ground arith
  scan_statements_lem (stmt ∷ stmts) seen = ground (
    arith,
    scan_statements_lem stmts (note_effect (applies user action resource stmt) stmt.effect seen),
    bytes_eq_iff stmt.effect (codes "Deny"),
    bytes_eq_iff stmt.effect (codes "Allow"),
  )

  -- A statement of the list applies and has the effect "Allow", or "Deny".
  abbrev pub SomeApplies : Bytes → List Statement → Type 0
  SomeApplies effect [] = ⊥
  SomeApplies effect (stmt ∷ stmts) =
      ((applies user action resource stmt ≡ true) × (stmt.effect ≡ effect))
      ⊎ SomeApplies effect stmts

  SomeApplies-of-any :
      (effect : Bytes) (stmts : List Statement)
      → any (λ s. applies user action resource s && bytes_eq s.effect effect) stmts ≡ true
      → SomeApplies effect stmts
  SomeApplies-of-any effect [] h = cc
  SomeApplies-of-any effect (stmt ∷ stmts) h =
      elim (Bool-cases (applies user action resource stmt && bytes_eq stmt.effect effect)) [
        | inl e ↦ inl (ground (arith, bytes_eq_iff stmt.effect effect))
        | inr e ↦ inr (SomeApplies-of-any effect stmts (rw e at h))
      ]

  any-of-SomeApplies :
      (effect : Bytes) (stmts : List Statement)
      → SomeApplies effect stmts
      → any (λ s. applies user action resource s && bytes_eq s.effect effect) stmts ≡ true
  any-of-SomeApplies effect [] h = absurd h
  any-of-SomeApplies effect (stmt ∷ stmts) (inl (a, e)) =
      ground (arith, bytes_eq_iff stmt.effect effect)
  any-of-SomeApplies effect (stmt ∷ stmts) (inr h) =
      ground (arith, any-of-SomeApplies effect stmts h)

  pub evaluate_policy_lem :
      (policy : Policy)
      → evaluate_policy (some policy) user action resource
        ≡ any grants policy.statement && not (any refuses policy.statement)
  unfolding evaluate_policy
  evaluate_policy_lem policy = ground (arith, scan_statements_lem policy.statement (false, false))

  -- A policy allows a request exactly if some statement that applies to it has the effect "Allow" and
  -- none that applies has the effect "Deny".
  pub evaluate_policy_iff :
      (policy : Policy)
      → (evaluate_policy (some policy) user action resource ≡ true) ↔ (
          SomeApplies (codes "Allow") policy.statement
          × ¬ SomeApplies (codes "Deny") policy.statement)
  evaluate_policy_iff policy = (sound, complete)
    where
      stmts : List Statement
      stmts = policy.statement

      sound :
          evaluate_policy (some policy) user action resource ≡ true
          → SomeApplies (codes "Allow") stmts × ¬ SomeApplies (codes "Deny") stmts
      sound h =
          let g : any grants stmts ≡ true = ground (arith, evaluate_policy_lem policy) in
          let r : any refuses stmts ≡ false = ground (arith, evaluate_policy_lem policy) in
          (
            SomeApplies-of-any (codes "Allow") stmts g,
            λ d. cc (any-of-SomeApplies (codes "Deny") stmts d, r),
          )

      complete :
          SomeApplies (codes "Allow") stmts × ¬ SomeApplies (codes "Deny") stmts
          → evaluate_policy (some policy) user action resource ≡ true
      complete (a, d) = elim (Bool-cases (any refuses stmts)) [
        | inl r ↦ absurd (d (SomeApplies-of-any (codes "Deny") stmts r))
        | inr r ↦
            ground (arith, evaluate_policy_lem policy, any-of-SomeApplies (codes "Allow") stmts a)
      ]

any-permᴰ {ℓ} : {A : Type ℓ} (p : A → Bool) {xs ys : List A} → Permᴰ xs ys → any p xs ≡ any p ys
any-permᴰ p Permᴰ.nil = refl
any-permᴰ p (Permᴰ.cons e d) = ground (arith, ap p e, any-permᴰ p d)
any-permᴰ p (Permᴰ.swap e f) = ground (arith, ap p e, ap p f)
any-permᴰ p (Permᴰ.trans d e) = any-permᴰ p d ∙ any-permᴰ p e

-- The order of a policy's statements does not change what it allows.
pub evaluate_policy-perm :
    (user : User) (action resource : Bytes) (policy policy' : Policy)
    → Permᴰ policy.statement policy'.statement
    → evaluate_policy (some policy) user action resource
      ≡ evaluate_policy (some policy') user action resource
evaluate_policy-perm user action resource policy policy' h = ground (
  arith,
  evaluate_policy_lem user action resource policy,
  evaluate_policy_lem user action resource policy',
  any-permᴰ (grants user action resource) h,
  any-permᴰ (refuses user action resource) h,
)
