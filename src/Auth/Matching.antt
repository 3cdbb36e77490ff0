-- ===== src/Auth/Matching.antt =====
-- internal/auth/policy.go: which statements of a policy match a request, and what they say.
pub mod Wildcard
pub mod Verdict
use go_s.Prelude.{
  is_empty, Bytes, codes, Option, none, some, List, [], ◌∷◌, ◌++◌, Bool, true, false, not, ◌&&◌,
  ◌||◌, if◌then◌else◌, bytes_eq, has_prefix, has_suffix, trim_suffix,
}
use go_s.Auth.Defs.{
  User, Value, null, scalar, str, arr, obj, Items, nil, cons, Fields, end, field, Statement, Policy,
}

abbrev pub star : Bytes
star = codes "*"

unfoldable pub match_wildcard : Bytes → Bytes → Bool
match_wildcard pattern value =
    if bytes_eq pattern star
    then true
    else if has_suffix pattern star
    then has_prefix value (trim_suffix pattern star)
    else bytes_eq pattern value

-- The loop over a list: items that are no strings are passed over.
unfoldable pub match_items : Items → Bytes → Bool
match_items nil value = false
match_items (cons (str s) items) value =
    let rest = match_items items value in if match_wildcard s value then true else rest
match_items (cons _ items) value = match_items items value

unfoldable pub match_list_or_string : Value → Bytes → Bool
unfolding match_items
match_list_or_string (str v) value = match_wildcard v value
match_list_or_string (arr items) value = match_items items value
match_list_or_string _ value = false

-- p[key] of a decoded object: encoding/json keeps the last of equal keys.
unfoldable pub get_field : Bytes → Fields → Option Value
get_field key end = none
get_field key (field k v fs) = elim (get_field key fs) [
  | some w ↦ some w
  | none ↦ if bytes_eq k key then some v else none
]

unfoldable pub matches_user : User → Bytes → Bool
matches_user user p =
    if bytes_eq p star
    then true
    else if has_suffix p (codes "/" ++ user.username)
    then true
    else not (is_empty user.access_key_id) && has_suffix p (codes "/" ++ user.access_key_id)

abbrev pub match_aws : User → Option Value → Bool
match_aws user none = false
match_aws user (some aws) =
    match_list_or_string aws (codes "arn:aws:iam:::user/" ++ user.username)
    || (not (is_empty user.access_key_id)
        && match_list_or_string aws (codes "arn:aws:iam:::serviceaccount/" ++ user.access_key_id))
    || match_list_or_string aws star

unfoldable pub match_principal : Value → User → Bool
unfolding matches_user get_field
match_principal (str p) user = matches_user user p
match_principal (obj fields) user = match_aws user (get_field (codes "AWS") fields)
match_principal _ user = false

-- The three tests before a statement's effect is read.
unfoldable pub applies : User → Bytes → Bytes → Statement → Bool
applies user action resource stmt =
    match_principal stmt.principal user
    && match_list_or_string stmt.action action
    && match_list_or_string stmt.resource resource

-- One turn of the loop on (allowed, denied).
abbrev pub note_effect : Bool → Bytes → Bool × Bool → Bool × Bool
note_effect false effect (allowed, denied) = (allowed, denied)
note_effect true effect (allowed, denied) =
    if bytes_eq effect (codes "Deny")
    then (allowed, true)
    else if bytes_eq effect (codes "Allow")
    then (true, denied)
    else (allowed, denied)

unfoldable pub scan_statements : User → Bytes → Bytes → List Statement → Bool × Bool → Bool × Bool
scan_statements user action resource [] seen = seen
scan_statements user action resource (stmt ∷ stmts) seen =
    scan_statements user action resource stmts
      (note_effect (applies user action resource stmt) stmt.effect seen)

-- EvaluatePolicy; a nil policy is `none`.
unfoldable pub evaluate_policy : Option Policy → User → Bytes → Bytes → Bool
evaluate_policy none user action resource = false
evaluate_policy (some policy) user action resource =
    let (allowed, denied) = scan_statements user action resource policy.statement (false, false) in
    if denied then false else allowed
