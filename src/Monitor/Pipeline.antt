-- ===== src/Monitor/Pipeline.antt =====
-- packages/modules/monitor/src/seclab_monitor/pipeline.py: one match, from its score to the alert.
-- `enrich` stands for the enrichment providers, which may raise an exception, as an `err`, `dump`
-- for pydantic's form of the signals, and `publish` for the event bus, which Core/Events models;
-- the other parameters are those of Monitor/Capture. The database does what it is told.
use seclab.Prelude.{ℕ, none, List, [], ◌∷◌, ◌++◌, ◌==◌, if◌then◌else◌, nat_eq}
use seclab.Prelude.Text.{Text, codes, decimal, text_eq}
use seclab.Security.Models
use seclab.Security.Models.{Result, ok, err, value_error, Json, EvidenceArtifact}
use seclab.Security.Evidence.{store}
use seclab.Db.{Session}
use seclab.Core.Http.{Outcome}
use seclab.Core.Events.{Event, World}
use seclab.Phantom.Discovery.{DomainVariation}
use seclab.Phantom.Scoring.{RiskSignal, DomainInfrastructure, score_asset}
use seclab.Monitor.{MonitorMatch}
use seclab.Monitor.Capture.{
  CaptureResult, MonitorSettings, committed, published, Pipe, in_session, capture_and_store,
}

unfoldable pub severity_by_priority : Text → Text
severity_by_priority priority =
    if priority == codes "high"
    then codes "critical"
    else if priority == codes "medium"
    then codes "warning"
    else codes "info"

unfoldable pub variation_of : Text → Text → DomainVariation
variation_of domain matched_keyword = record {
  domain = domain;
  technique = codes "live-ct-match";
  source_target = matched_keyword;
  risk_context_tags = [];
}

unfoldable pub match_event : MonitorMatch → Text → Event
unfolding severity_by_priority
match_event m now = record {
  source = codes "monitor";
  kind = codes "ct_match";
  summary =
      codes "CT match for keyword '"
      ++ (m.matched_keyword
          ++ (codes "': "
              ++ (m.domain
                  ++ (codes " (score="
                      ++ (decimal m.score
                          ++ (codes ", priority=" ++ (m.priority ++ codes ")")))))));
  severity = severity_by_priority m.priority;
  payload =
      (codes "domain", m.domain)
      ∷ (codes "issuer", m.issuer)
      ∷ (codes "score", decimal m.score)
      ∷ (codes "priority", m.priority)
      ∷ [];
  occurred_at = now;
}

module _ (sha256 : Text → Text) (enrich : Text → Result DomainInfrastructure)
    (capture : Text → Result CaptureResult) (egress : ℕ → Text → Outcome (Text × Text))
    (artifact_path : Text → Text → Result Text) (write_bytes : Text → Text → Result (Unit {0}))
    (strftime : ℕ → Text) (dump : List RiskSignal → Json) (publish : Event → World → World)
    (settings : MonitorSettings) where
  -- `self.db.add(match)`, flushed, and the evidence of the score
  unfoldable pub record_match : MonitorMatch → List RiskSignal → Session → Session
  record_match m signals s =
      (store sha256 (codes "monitor") (codes "domain") m.domain (codes "ct_match_scoring")
        m.score_rationale (codes "text") none
        ((codes "score", Models.number m.score)
          ∷ (codes "priority", Models.text m.priority)
          ∷ (codes "signals", dump signals)
          ∷ [])
        (record s { work = record s.work { matches = m ∷ s.work.matches } })).0

  -- the end of `handle_match`: the commit and the alert; the match is the row added last
  unfoldable pub commit_and_publish : MonitorMatch → Text → Pipe → Pipe × Result MonitorMatch
  unfolding match_event
  commit_and_publish m occurred_at p = (
    record p {
      session = record p.session { saved = p.session.work };
      world = publish (match_event m occurred_at) p.world;
      steps = published (match_event m occurred_at) ∷ committed p.session.work ∷ p.steps;
    },
    ok m,
  )

  unfoldable pub finish : Text → Pipe × Result (Unit {0}) → Pipe × Result MonitorMatch
  unfolding commit_and_publish
  finish occurred_at (p, err e) = (p, err e)
  finish occurred_at (p, ok u) = elim p.session.work.matches [
    | [] ↦ (p, err value_error)
    | m ∷ rows ↦ commit_and_publish m occurred_at p
  ]

  -- the match with its score, and the signals
  unfoldable pub scored_match :
      Text → Text → Text → ℕ → DomainInfrastructure → MonitorMatch × List RiskSignal
  unfolding variation_of
  scored_match domain issuer matched_keyword created_at infrastructure =
      let (score, priority, signals, rationale) =
        score_asset (variation_of domain matched_keyword) [] infrastructure in
      (
        record {
          domain = domain;
          issuer = issuer;
          matched_keyword = matched_keyword;
          technique = codes "live-ct-match";
          score = score;
          priority = priority;
          score_rationale = rationale;
          capture_status = codes "skipped";
          created_at = created_at;
        },
        signals,
      )

  -- `handle_match` behind the enrichment
  unfoldable pub on_enriched :
      Text
      → Text
      → Text
      → ℕ
      → Text
      → Pipe
      → Result DomainInfrastructure
      → Pipe × Result MonitorMatch
  unfolding scored_match record_match capture_and_store finish
  on_enriched domain issuer matched_keyword created_at occurred_at p (err e) = (p, err e)
  on_enriched domain issuer matched_keyword created_at occurred_at p (ok infrastructure) =
      let (m, signals) = scored_match domain issuer matched_keyword created_at infrastructure in
      let scored = in_session (record_match m signals) p in
      let captured =
        capture_and_store sha256 capture egress artifact_path write_bytes strftime settings domain
          scored in
      finish occurred_at (if settings.capture_enabled then captured else (scored, ok tt))

  -- `handle_match`; `created_at` is the time stamp of the row, `occurred_at` that of the event
  unfoldable pub handle_match : Text → Text → Text → ℕ → Text → Pipe → Pipe × Result MonitorMatch
  unfolding on_enriched
  handle_match domain issuer matched_keyword created_at occurred_at p =
      on_enriched domain issuer matched_keyword created_at occurred_at p (enrich domain)
