-- ===== src/Examples/Accounts.antt =====
-- The theorem on service accounts, at a table of two.
use mathlib.Core.Path.{subst}
use go_s.Prelude.{
  leb, Bytes, codes, ok, Option, none, some, [], ◌∷◌, Bool, true, false, ◌≡◌, refl, ap, sym, ◌∙◌,
  ok-injective, bytes_eq, bytes_lt, if◌then◌else◌,
}
use go_s.Bolt.{Codec, Entries, IsSorted, decode}
use go_s.Bolt.Handles.{b_put, b_entries}
use go_s.Bolt.Sample.{memory, memory-Laws, MemDb}
use go_s.Auth.{ServiceAccount}
use go_s.Metadata.Rows.{write_row}
use go_s.Metadata.Accounts.{disable_service_account, find_by_id}
use go_s.Metadata.Accounts.Disabling.{
  Switched, get_service_account_by_access_key-disable_service_account,
}
use go_s.Examples.Stores.{made, flag}

abbrev account_of : Bool → Bytes → ServiceAccount
account_of disabled id = record {
  id = id;
  access_key_id = id;
  secret_key = [];
  parent_user = codes "ann";
  description = [];
  disabled = disabled;
  expires_at = none;
  created_at = 0;
}

abbrev read_account : Bytes → Option ServiceAccount
read_account [] = none
read_account (f ∷ id) = some (account_of (leb 1 f) id)

read_account-flag : (b : Bool) (id : Bytes) → read_account (flag b ∷ id) ≡ some (account_of b id)
read_account-flag true id = refl
read_account-flag false id = refl

-- An encoding that keeps the ID and the flag.
abbrev account_codec : Codec ServiceAccount
account_codec = record {
  marshal = λ a. ok (flag a.disabled ∷ a.id);
  unmarshal = read_account;
  Stable = λ a. a ≡ account_of a.disabled a.id;
  marshal_total = λ a s. (_, refl);
  marshal_error = λ a e h. cc;
  unmarshal_marshal = λ a d s h.
      subst (λ d. read_account d ≡ some a) (ok-injective h)
        (read_account-flag a.disabled a.id ∙ ap (λ t. some t) (sym s));
}

decoded-Stable :
    (v : Bytes) (sa : ServiceAccount)
    → decode account_codec v ≡ ok sa
    → account_codec.Stable (record sa { disabled = true })
unfolding decode
decoded-Stable [] sa h = cc
decoded-Stable (f ∷ id) sa h =
    subst (λ (sa : ServiceAccount). account_codec.Stable (record sa { disabled = true }))
      (ok-injective h) refl

abbrev account_rows : Entries
account_rows = (codes "k1", 0 ∷ codes "k1") ∷ (codes "k2", 0 ∷ codes "k2") ∷ []

account_rows-IsSorted : IsSorted account_rows
unfolding bytes_lt
account_rows-IsSorted = ((refl, tt), (tt, tt))

unfoldable two_accounts : MemDb
two_accounts name =
    if bytes_eq name (codes "service_accounts")
    then some (account_rows, account_rows-IsSorted)
    else none

unfoldable one_disabled : MemDb
unfolding disable_service_account two_accounts
one_disabled = made (disable_service_account memory account_codec (codes "k2") true two_accounts)

get_service_account_by_access_key-disable_service_account_example :
    Switched memory account_codec two_accounts one_disabled (codes "k2") true
unfolding two_accounts one_disabled disable_service_account bytes_eq b_entries find_by_id decode
    write_row b_put
get_service_account_by_access_key-disable_service_account_example =
    get_service_account_by_access_key-disable_service_account memory memory-Laws account_codec
      two_accounts one_disabled (codes "k2") true account_rows refl decoded-Stable refl
