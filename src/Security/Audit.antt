-- ===== src/Security/Audit.antt =====
-- packages/seclab-core/src/seclab/security/audit.py: the audit trail. The log line that `log` also
-- writes is not modelled. `str(entity_id)` is made by the caller here, who knows its type.
use seclab.Prelude.{Option, List, ◌∷◌}
use seclab.Prelude.Text.{Text}
use seclab.Security.Models.{Json, AuditLog}
use seclab.Db.{Store, Exec, ◌>>=◌, modify, now}

unfoldable pub add_entry : AuditLog → Store → Store
add_entry entry s = record s { audit = entry ∷ s.audit }

unfoldable pub log :
    Text → Text → Option Text → Text → Text → Text → List (Text × Json) → Exec (Unit {0})
unfolding ◌>>=◌ modify now add_entry
log event_type entity_type entity_id actor decision reason metadata = do
  created ← now
  modify (
      add_entry (record {
        event_type = event_type;
        entity_type = entity_type;
        entity_id = entity_id;
        actor = actor;
        decision = decision;
        reason = reason;
        metadata = metadata;
        created_at = created;
      }))
