-- ===== src/Tests/Workflow.antt =====
-- A hypothesis from its program to its finding, and the invariants at that run.
use seclab.Prelude.{List, refl, [], arith, count, none, ◌∷◌}
use seclab.Prelude.Text.{codes}
use seclab.Security.Models.{AuditLog}
use seclab.Security.Approval.Invariant.{
  ApprovalsNumbered, AtMostOnePending, FourEyes, KeepsTrail, Both,
}
use seclab.Db.{Store, Session}
use seclab.Db.Keeps.{Holds}
use seclab.Recon.Routes.{serve}
use seclab.Recon.Invariant.{serve-FourEyes, serve-AtMostOnePending, serve-KeepsTrail}
use seclab.Recon.Lineage.{InScopeOnly, serve-InScopeOnly}
use seclab.Recon.Cleared.{ExecutionsCleared, serve-ExecutionsCleared}
use seclab.Recon.Tally.{FindingsMatch, serve-FindingsMatch}
use seclab.Tests.Data.{no_brackets, digest, empty_store, empty_session, workflow}

abbrev served : Session
served = serve no_brackets digest workflow empty_session

holds_empty : {Q : Store → Type 0} → Q empty_store → Holds (Both ApprovalsNumbered Q) empty_session
holds_empty q = record { work = (tt, q); saved = (tt, q) }

serve-FourEyes_example : Holds (Both ApprovalsNumbered FourEyes) served
serve-FourEyes_example = serve-FourEyes no_brackets digest workflow empty_session (holds_empty tt)

serve-ExecutionsCleared_example : Holds (Both ApprovalsNumbered ExecutionsCleared) served
serve-ExecutionsCleared_example =
    serve-ExecutionsCleared no_brackets digest workflow empty_session (holds_empty tt)

serve-InScopeOnly_example : Holds (Both ApprovalsNumbered (InScopeOnly no_brackets)) served
serve-InScopeOnly_example =
    serve-InScopeOnly no_brackets digest workflow empty_session (holds_empty (tt, tt))

none_pending : AtMostOnePending empty_store
none_pending subject_type subject_id = unfold count in omega arith

none_found : FindingsMatch empty_store
unfolding count
none_found = (tt, λ n. refl)

serve-FindingsMatch_example : Holds (Both ApprovalsNumbered FindingsMatch) served
serve-FindingsMatch_example =
    serve-FindingsMatch no_brackets digest workflow empty_session (holds_empty none_found)

serve-AtMostOnePending_example : Holds (Both ApprovalsNumbered AtMostOnePending) served
serve-AtMostOnePending_example =
    serve-AtMostOnePending no_brackets digest workflow empty_session (holds_empty none_pending)

-- a session that starts with one audit entry
abbrev earlier : List AuditLog
earlier =
    record {
      event_type = codes "user_created";
      entity_type = codes "user";
      entity_id = none;
      actor = codes "root";
      decision = codes "created";
      reason = codes "";
      metadata = [];
      created_at = 1;
    }
    ∷ []

abbrev audited : Session
audited = record empty_session {
  work = record empty_store { audit = earlier };
  saved = record empty_store { audit = earlier };
}

serve-KeepsTrail_example :
    Holds (Both ApprovalsNumbered (KeepsTrail earlier)) (serve no_brackets digest workflow audited)
serve-KeepsTrail_example =
    serve-KeepsTrail no_brackets digest workflow audited earlier
      (record { work = (tt, ([], refl)); saved = (tt, ([], refl)) })
