-- ===== src/Prelude/Errors.antt =====
-- Errors as values. `Error` holds the error values of the packages s3, auth and metadata that the
-- modelled functions return; `bolt` is an error of the database, `json` one of encoding/json, `system` one
-- of the operating system, and `panic` a run-time panic (a nil bucket handle, a slice out of range).
use mathlib.Core.Path.{◌≡◌, refl, ap}

pub data Error : Type 0 where
  bucket_not_found bucket_exists bucket_not_empty object_not_found upload_not_found : Error
  user_not_found user_exists policy_not_found account_exists session_not_found : Error
  no_such_cors no_such_lifecycle no_such_website no_such_domain no_such_notification : Error
  setting_not_found audit_bucket_missing invalid_bucket_name fetch_failed : Error
  no_such_bucket no_such_key access_denied path_traversal token_invalid token_expired : Error
  bucket_already_exists no_such_upload invalid_range invalid_part insufficient_storage : Error
  internal_error key_too_long missing_content_length entity_too_large invalid_storage_class : Error
  signature_mismatch auth_missing auth_malformed time_skewed slow_down malformed_xml : Error
  invalid_copy_source missing_field bucket_already_owned_by_you : Error
  invalid_access_key_id invalid_part_order method_not_allowed not_implemented : Error
  signature_does_not_match : Error
  bolt json system panic : Error

-- What a Go function returns with the type (A, error).
pub data Result {ℓ} (A : Type ℓ) : Type ℓ where
  err : Error → Result A
  ok : A → Result A

-- `if err != nil { return err }` between two steps.
infixl 5 ◌>>=◌
abbrev pub ◌>>=◌ {ℓ κ} : {A : Type ℓ} {B : Type κ} → Result A → (A → Result B) → Result B
err failure >>= next_step = err failure
ok value >>= next_step = next_step value

-- A chain that returns no error has a first step that returns none.
pub >>=-eq-ok {ℓ κ} :
    {A : Type ℓ} {B : Type κ} (first : Result A) (next_step : A → Result B) {b : B}
    → (first >>= next_step) ≡ ok b
    → (value : A) × (first ≡ ok value) × (next_step value ≡ ok b)
>>=-eq-ok (err failure) next_step h = cc
>>=-eq-ok (ok value) next_step h = (value, refl, h)

abbrev value_or {ℓ} : {A : Type ℓ} → A → Result A → A
value_or default (err failure) = default
value_or default (ok value) = value

pub ok-injective {ℓ} : {A : Type ℓ} {a b : A} → ok a ≡ ok b → a ≡ b
ok-injective {a} h = ap (value_or a) h
