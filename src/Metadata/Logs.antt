-- ===== src/Metadata/Logs.antt =====
-- Sessions and audit logs of internal/storage/metadata/bbolt.go.
use mathlib.Core.List.{reverse}
pub mod Newest
use go_s.Prelude.{
  ℕ, Bytes, codes, Result, ok, err, session_not_found, audit_bucket_missing, Option, none, some,
  List, [], ◌∷◌, ◌++◌, ◌>>=◌, ◌&&◌, if◌then◌else◌, bytes_eq, is_empty, ltb, leb, length, ◌==◌,
}
use go_s.Bolt.{Bolt, Codec, Entries}
use go_s.Bolt.Handles.{b_delete, b_entries}
use go_s.Auth.{Session}
use go_s.Storage.{Time}
use go_s.Metadata.Names.{bucket_sessions, bucket_audit_logs}
use go_s.Metadata.Rows.{read_row, write_row}

module _ (C : Codec Session) where
  abbrev pub add_session : Bytes → Option Session → List Session → List Session
  add_session username none rest = rest
  add_session username (some s) rest = if bytes_eq s.username username then s ∷ rest else rest

  -- Rows that do not decode are passed over.
  unfoldable pub sessions_of : Bytes → Entries → List Session
  sessions_of username [] = []
  sessions_of username ((k, v) ∷ es) =
      add_session username (C.unmarshal v) (sessions_of username es)

module _ (B : Bolt) (C : Codec Session) where
  unfoldable pub create_session : Session → B.Db → Result B.Db
  create_session session db = write_row B C db bucket_sessions session.id session

  unfoldable pub get_session : Bytes → B.Db → Result Session
  get_session session_id db = read_row B C session_not_found db bucket_sessions session_id

  unfoldable pub list_sessions : Bytes → B.Db → Result (List Session)
  unfolding sessions_of
  list_sessions username db = do es ← b_entries B db bucket_sessions; ok (sessions_of C username es)

module _ (B : Bolt) where
  unfoldable pub delete_session : Bytes → B.Db → Result B.Db
  delete_session session_id db = b_delete B db bucket_sessions session_id

-- AuditLog of internal/storage/metadata/store.go
pub record AuditLog : Type 0 where
  pub id : Bytes
  pub timestamp : Time
  pub user : Bytes
  pub action : Bytes
  pub target : Bytes
  pub details : Bytes
  pub ip : Bytes

-- The ID and the time that RecordAuditLog fills in where they are missing.
unfoldable pub completed : Bytes → Time → AuditLog → AuditLog
completed uuid now log = record log {
  id = if is_empty log.id then uuid else log.id;
  timestamp = if log.timestamp == 0 then now else log.timestamp;
}

module _ (C : Codec AuditLog) (limit : ℕ) where
  abbrev pub add_log :
      Option AuditLog → List AuditLog → (List AuditLog → List AuditLog) → List AuditLog
  add_log none logs rest = rest logs
  add_log (some log) logs rest =
      let logs' = logs ++ log ∷ [] in
      let more = rest logs' in if ltb 0 limit && leb limit (length logs') then logs' else more

  -- The loop from c.Last by c.Prev, over the entries in that order.
  unfoldable pub logs_loop : Entries → List AuditLog → List AuditLog
  logs_loop [] logs = logs
  logs_loop ((k, v) ∷ es) logs = add_log (C.unmarshal v) logs (logs_loop es)

  abbrev pub logs_of : Option Entries → List AuditLog
  logs_of none = []
  logs_of (some es) = logs_loop (reverse es) []

module _ (B : Bolt) (C : Codec AuditLog) where
  -- `stamp` is t.UTC().Format(time.RFC3339Nano), `uuid` the new UUID.
  unfoldable pub record_audit_log : (Time → Bytes) → Bytes → Time → AuditLog → B.Db → Result B.Db
  unfolding completed
  record_audit_log stamp uuid now log db =
      let log' = completed uuid now log in
      elim (B.bucket db bucket_audit_logs) [
        | none ↦ err audit_bucket_missing
        | some _ ↦
            write_row B C db bucket_audit_logs (stamp log'.timestamp ++ codes "_" ++ log'.id) log'
      ]

  unfoldable pub list_audit_logs : ℕ → B.Db → List AuditLog
  unfolding logs_loop
  list_audit_logs limit db = logs_of C limit (B.bucket db bucket_audit_logs)
