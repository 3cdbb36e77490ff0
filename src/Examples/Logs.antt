-- ===== src/Examples/Logs.antt =====
-- The theorem on audit logs, at a table of two logs and a row that does not decode.
use go_s.Prelude.{
  ◌∙◌, Bytes, codes, ok, Option, none, some, [], ◌∷◌, ◌≡◌, refl, ap, sym, ok-injective, bytes_eq,
  bytes_lt, if◌then◌else◌,
}
use go_s.Bolt.{Codec, Entries, IsSorted}
use go_s.Bolt.Sample.{memory, MemDb}
use go_s.Metadata.Logs.{AuditLog, list_audit_logs}
use go_s.Metadata.Logs.Newest.{list_audit_logs_lem}

abbrev log_of : Bytes → AuditLog
log_of id = record {
  id = id;
  timestamp = 1;
  user = codes "root";
  action = codes "login";
  target = [];
  details = [];
  ip = [];
}

abbrev read_log : Bytes → Option AuditLog
read_log [] = none
read_log (x ∷ id) = some (log_of id)

-- An encoding that keeps the ID.
abbrev log_codec : Codec AuditLog
log_codec = record {
  marshal = λ a. ok (0 ∷ a.id);
  unmarshal = read_log;
  Stable = λ a. a ≡ log_of a.id;
  marshal_total = λ a s. (_, refl);
  marshal_error = λ a e h. cc;
  unmarshal_marshal = λ a d s h. ap read_log (sym (ok-injective h)) ∙ ap (λ t. some t) (sym s);
}

abbrev log_rows : Entries
log_rows =
    (codes "2024_a", 0 ∷ codes "a") ∷ (codes "2025_b", []) ∷ (codes "2026_c", 0 ∷ codes "c") ∷ []

log_rows-IsSorted : IsSorted log_rows
unfolding bytes_lt
log_rows-IsSorted = ((refl, (refl, tt)), ((refl, tt), (tt, tt)))

unfoldable three_logs : MemDb
three_logs name =
    if bytes_eq name (codes "audit_logs") then some (log_rows, log_rows-IsSorted) else none

list_audit_logs_lem_example :
    list_audit_logs memory log_codec 2 three_logs ≡ log_of (codes "c") ∷ log_of (codes "a") ∷ []
unfolding three_logs bytes_eq
list_audit_logs_lem_example = list_audit_logs_lem memory log_codec three_logs 2 log_rows refl
