-- ===== src/Metadata/Init.antt =====
-- NewBboltStore of internal/storage/metadata/bbolt.go: the buckets that every database has.
use go_s.Prelude.{Bytes, Result, ok, List, [], ◌∷◌, ◌>>=◌}
use go_s.Bolt.{Bolt}
use go_s.Metadata.Names.{
  bucket_buckets, bucket_uploads, bucket_users, bucket_policies, bucket_cors, bucket_lifecycle,
  bucket_website, bucket_service_accounts, bucket_audit_logs, bucket_iam_policies,
  bucket_custom_domains, bucket_notifications, bucket_settings, bucket_sessions,
}

-- In the order in which NewBboltStore creates them.
abbrev pub top_level : List Bytes
top_level =
    bucket_buckets ∷ bucket_uploads ∷ bucket_users ∷ bucket_policies ∷ bucket_cors
    ∷ bucket_lifecycle ∷ bucket_website ∷ bucket_service_accounts ∷ bucket_audit_logs
    ∷ bucket_iam_policies ∷ bucket_custom_domains ∷ bucket_notifications ∷ bucket_settings
    ∷ bucket_sessions ∷ []

module _ (B : Bolt) where
  unfoldable pub create_all : List Bytes → B.Db → Result B.Db
  create_all [] db = ok db
  create_all (b ∷ bs) db = do db1 ← B.create db b; create_all bs db1

  unfoldable pub new_bbolt_store : B.Db → Result B.Db
  new_bbolt_store db = create_all top_level db
