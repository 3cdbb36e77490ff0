-- ===== src/Metadata/Configs.antt =====
-- The per-bucket documents of internal/storage/metadata/bbolt.go: bucket policies, IAM policies, CORS,
-- lifecycle, website and notification configurations, custom domains and settings.
use go_s.Prelude.{
  Bytes, Result, ok, err, policy_not_found, no_such_cors, no_such_lifecycle, no_such_website,
  no_such_domain, no_such_notification, setting_not_found, Error, Option, none, some, List, [], ◌∷◌,
  ◌>>=◌, if◌then◌else◌, bytes_eq, is_some,
}
use go_s.Bolt.{Bolt, Codec, Entries, keys}
use go_s.Bolt.Handles.{b_get, b_put, b_delete, b_entries}
use go_s.Auth.{Policy}
use go_s.Metadata.Names.{
  bucket_policies, bucket_cors, bucket_lifecycle, bucket_website, bucket_iam_policies,
  bucket_custom_domains, bucket_notifications, bucket_settings,
}
use go_s.Metadata.Rows.{read_row, write_row}

module _ (B : Bolt) (C : Codec Policy) where
  unfoldable pub get_bucket_policy : Bytes → B.Db → Result Policy
  get_bucket_policy bucket db = read_row B C policy_not_found db bucket_policies bucket

  unfoldable pub put_bucket_policy : Bytes → Policy → B.Db → Result B.Db
  put_bucket_policy bucket policy db = write_row B C db bucket_policies bucket policy

  unfoldable pub get_iam_policy : Bytes → B.Db → Result Policy
  get_iam_policy name db = read_row B C policy_not_found db bucket_iam_policies name

  unfoldable pub put_iam_policy : Bytes → Policy → B.Db → Result B.Db
  put_iam_policy name policy db = write_row B C db bucket_iam_policies name policy

module _ (B : Bolt) where
  unfoldable pub delete_bucket_policy : Bytes → B.Db → Result B.Db
  delete_bucket_policy bucket db = do
    old ← b_get B db bucket_policies bucket
    if is_some old then b_delete B db bucket_policies bucket else err policy_not_found

  unfoldable pub delete_iam_policy : Bytes → B.Db → Result B.Db
  delete_iam_policy name db = do
    old ← b_get B db bucket_iam_policies name
    if is_some old then b_delete B db bucket_iam_policies name else err policy_not_found

  unfoldable pub list_iam_policies : B.Db → Result (List Bytes)
  list_iam_policies db = do es ← b_entries B db bucket_iam_policies; ok (keys es)

-- The four configurations, whose contents the store does not read.
module _ (B : Bolt) {A : Type 0} (C : Codec A) where
  unfoldable pub get_bucket_cors : Bytes → B.Db → Result A
  get_bucket_cors bucket db = read_row B C no_such_cors db bucket_cors bucket

  unfoldable pub put_bucket_cors : Bytes → A → B.Db → Result B.Db
  put_bucket_cors bucket cors db = write_row B C db bucket_cors bucket cors

  unfoldable pub get_bucket_lifecycle : Bytes → B.Db → Result A
  get_bucket_lifecycle bucket db = read_row B C no_such_lifecycle db bucket_lifecycle bucket

  unfoldable pub put_bucket_lifecycle : Bytes → A → B.Db → Result B.Db
  put_bucket_lifecycle bucket lifecycle db = write_row B C db bucket_lifecycle bucket lifecycle

  unfoldable pub get_bucket_website : Bytes → B.Db → Result A
  get_bucket_website bucket db = read_row B C no_such_website db bucket_website bucket

  unfoldable pub put_bucket_website : Bytes → A → B.Db → Result B.Db
  put_bucket_website bucket website db = write_row B C db bucket_website bucket website

  unfoldable pub get_bucket_notification : Bytes → B.Db → Result A
  get_bucket_notification bucket db =
      read_row B C no_such_notification db bucket_notifications bucket

  unfoldable pub put_bucket_notification : Bytes → A → B.Db → Result B.Db
  put_bucket_notification bucket config db = write_row B C db bucket_notifications bucket config

-- Rows whose value is the text itself.
abbrev pub text_or : Error → Option Bytes → Result Bytes
text_or missing none = err missing
text_or missing (some text) = ok text

-- The ForEach of GetBucketCustomDomains.
unfoldable pub keys_of_value : Bytes → Entries → List Bytes
keys_of_value value [] = []
keys_of_value value ((k, v) ∷ es) =
    let rest = keys_of_value value es in if bytes_eq v value then k ∷ rest else rest

module _ (B : Bolt) where
  unfoldable pub delete_bucket_cors : Bytes → B.Db → Result B.Db
  delete_bucket_cors bucket db = b_delete B db bucket_cors bucket

  unfoldable pub delete_bucket_lifecycle : Bytes → B.Db → Result B.Db
  delete_bucket_lifecycle bucket db = b_delete B db bucket_lifecycle bucket

  unfoldable pub delete_bucket_website : Bytes → B.Db → Result B.Db
  delete_bucket_website bucket db = b_delete B db bucket_website bucket

  unfoldable pub delete_bucket_notification : Bytes → B.Db → Result B.Db
  delete_bucket_notification bucket db = b_delete B db bucket_notifications bucket

  unfoldable pub put_custom_domain : Bytes → Bytes → B.Db → Result B.Db
  put_custom_domain domain bucket db = b_put B db bucket_custom_domains domain bucket

  unfoldable pub get_custom_domain : Bytes → B.Db → Result Bytes
  get_custom_domain domain db = do
    text ← b_get B db bucket_custom_domains domain
    text_or no_such_domain text

  unfoldable pub delete_custom_domain : Bytes → B.Db → Result B.Db
  delete_custom_domain domain db = b_delete B db bucket_custom_domains domain

  unfoldable pub get_bucket_custom_domains : Bytes → B.Db → Result (List Bytes)
  unfolding keys_of_value
  get_bucket_custom_domains bucket db = do
    es ← b_entries B db bucket_custom_domains
    ok (keys_of_value bucket es)

  unfoldable pub get_setting : Bytes → B.Db → Result Bytes
  get_setting key db = do text ← b_get B db bucket_settings key; text_or setting_not_found text

  unfoldable pub put_setting : Bytes → Bytes → B.Db → Result B.Db
  put_setting key value db = b_put B db bucket_settings key value

  unfoldable pub delete_setting : Bytes → B.Db → Result B.Db
  delete_setting key db = b_delete B db bucket_settings key

  unfoldable pub list_settings : B.Db → Result Entries
  list_settings db = b_entries B db bucket_settings
