-- ===== src/Metadata/Logs/Newest.antt =====
-- ListAuditLogs: the rows that decode, from the last key back, up to the limit.
use mathlib.Core.List.{append_assoc, append-nil, reverse}
use go_s.Prelude.{
  ℕ, zero, suc, ◌+◌, ◌≡◌, sym, ◌∙◌, true, false, ◌&&◌, arith, Option-cases, inl, inr, ltb, leb,
  Option, none, some, List, [], ◌∷◌, ◌++◌, length, take, length-append,
}
use go_s.Bolt.{Bolt, Codec, Entries}
use go_s.Metadata.Names.{bucket_audit_logs}
use go_s.Metadata.Logs.{AuditLog, add_log, logs_loop, list_audit_logs}

module _ (C : Codec AuditLog) where
  abbrev pub shown : Option AuditLog → List AuditLog → List AuditLog
  shown none logs = logs
  shown (some log) logs = log ∷ logs

  -- The logs of rows, those that do not decode left out.
  abbrev pub decoded : Entries → List AuditLog
  decoded [] = []
  decoded ((k, v) ∷ es) = shown (C.unmarshal v) (decoded es)

  no_limit : (es : Entries) (logs : List AuditLog) → logs_loop C 0 es logs ≡ logs ++ decoded es
  unfolding logs_loop
  no_limit [] logs = sym (append-nil logs)
  no_limit ((k, v) ∷ es) logs = elim (Option-cases (C.unmarshal v)) [
    | inl e ↦ rw e (no_limit es logs)
    | inr (log, e) ↦
        rw e (no_limit es (logs ++ log ∷ []) ∙ append_assoc logs (log ∷ []) (decoded es))
  ]

  -- One row that decodes, with room for it.
  add_log-room :
      (es : Entries) (logs : List AuditLog) (limit room : ℕ) (log : AuditLog)
      → ((logs' : List AuditLog) (r : ℕ)
          → limit ≡ length logs' + suc r
          → logs_loop C limit es logs' ≡ logs' ++ take (suc r) (decoded es))
      → limit ≡ length logs + suc room
      → add_log C limit (some log) logs (logs_loop C limit es)
        ≡ logs ++ take (suc room) (log ∷ decoded es)
  add_log-room es logs limit zero log rec h =
      let full : ltb 0 limit && leb limit (length (logs ++ log ∷ [])) ≡ true =
        ground (arith, length-append logs (log ∷ [])) in
      rw full
  add_log-room es logs limit (suc room) log rec h =
      let open_yet : ltb 0 limit && leb limit (length (logs ++ log ∷ [])) ≡ false =
        ground (arith, length-append logs (log ∷ [])) in
      rw open_yet (
        rec (logs ++ log ∷ []) room (omega (arith, length-append logs (log ∷ [])))
        ∙ append_assoc logs (log ∷ []) (take (suc room) (decoded es)))

  with_room :
      (es : Entries) (logs : List AuditLog) (limit room : ℕ)
      → limit ≡ length logs + suc room
      → logs_loop C limit es logs ≡ logs ++ take (suc room) (decoded es)
  unfolding logs_loop
  with_room [] logs limit room h = sym (append-nil logs)
  with_room ((k, v) ∷ es) logs limit room h = elim (Option-cases (C.unmarshal v)) [
    | inl e ↦ rw e (with_room es logs limit room h)
    | inr (log, e) ↦ rw e (add_log-room es logs limit room log (λ l r. with_room es l limit r) h)
  ]

-- The logs that a limit lets through; 0 is no limit.
abbrev pub limited : ℕ → List AuditLog → List AuditLog
limited zero logs = logs
limited (suc n) logs = take (suc n) logs

-- ListAuditLogs returns the logs of the rows that decode, the rows in the reverse order of their
-- keys, up to the limit, or all of them with the limit 0, where the table of the audit logs is
-- there.
pub list_audit_logs_lem :
    (B : Bolt) (C : Codec AuditLog) (db : B.Db) (limit : ℕ) (es : Entries)
    → B.bucket db bucket_audit_logs ≡ some es
    → list_audit_logs B C limit db ≡ limited limit (decoded C (reverse es))
unfolding list_audit_logs
list_audit_logs_lem B C db zero es e = rw (e, list_audit_logs) (no_limit C (reverse es) [])
list_audit_logs_lem B C db (suc n) es e =
    rw (e, list_audit_logs) (with_room C (reverse es) [] (suc n) n (omega arith))
