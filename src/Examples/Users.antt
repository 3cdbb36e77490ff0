-- ===== src/Examples/Users.antt =====
-- The theorems on users, at a database with one user.
use mathlib.Core.Path.{subst}
use go_s.Prelude.{
  leb, not, is_empty, Bytes, codes, ok, ◌++◌, Option, none, some, List, [], ◌∷◌, Bool, true, false,
  ◌≡◌, refl, ok-injective, bytes_eq, sym, ap, ◌∙◌,
}
use go_s.Bolt.{Codec, lookup, insert}
use go_s.Bolt.Handles.{b_put, b_get, b_entries}
use go_s.Bolt.Sample.{memory, memory-Laws, MemDb}
use go_s.Auth.{User}
use go_s.Metadata.Rows.{write_row}
use go_s.Metadata.Users.{create_user, get_user_by_access_key, find_access_key}
use go_s.Metadata.Users.Lookups.{get_user_by_access_key-create_user}
use go_s.Examples.Stores.{made, flag}

abbrev user_of : Bytes → List Bytes → User
user_of name policies = record {
  username = name;
  password_hash = [];
  access_key_id = codes "AK" ++ name;
  secret_key = [];
  policies = policies;
  is_root = false;
  disabled = false;
  created_at = 0;
}

-- The policies of a user that has some.
abbrev some_policies : Bool → List Bytes
some_policies false = []
some_policies true = codes "readers" ∷ []

abbrev has_policies : User → Bool
has_policies u = not (is_empty u.policies)

abbrev read_user : Bytes → Option User
read_user [] = none
read_user (f ∷ name) = some (user_of name (some_policies (leb 1 f)))

abbrev read_user-flag :
    (b : Bool) (name : Bytes) → read_user (flag b ∷ name) ≡ some (user_of name (some_policies b))
read_user-flag true name = refl
read_user-flag false name = refl

-- An encoding that keeps the name of a user and whether it has policies.
abbrev user_codec : Codec User
user_codec = record {
  marshal = λ u. ok (flag (has_policies u) ∷ u.username);
  unmarshal = read_user;
  Stable = λ u. u ≡ user_of u.username (some_policies (has_policies u));
  marshal_total = λ u s. (_, refl);
  marshal_error = λ u e h. cc;
  unmarshal_marshal = λ u d s h.
      subst (λ d. read_user d ≡ some u) (ok-injective h)
        (read_user-flag (has_policies u) u.username ∙ ap (λ b. some b) (sym s));
}

abbrev ann : User
ann = user_of (codes "ann") []

-- A database with the empty table of the users.
abbrev no_users : MemDb
no_users = made (memory.create (λ _. none) (codes "users"))

unfoldable with_ann : MemDb
unfolding create_user
with_ann = made (create_user memory user_codec ann no_users)

get_user_by_access_key-create_user_example :
    get_user_by_access_key memory user_codec (codes "AKann") with_ann ≡ ok ann
unfolding with_ann create_user b_get b_put write_row lookup insert bytes_eq get_user_by_access_key
    b_entries find_access_key
get_user_by_access_key-create_user_example =
    get_user_by_access_key-create_user memory memory-Laws user_codec no_users with_ann ann
      (codes "AKann") refl refl refl
