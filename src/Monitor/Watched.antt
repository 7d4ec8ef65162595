-- ===== src/Monitor/Watched.antt =====
-- packages/modules/monitor/src/seclab_monitor/pipeline.py: what handling a match does.
use seclab.Prelude.{
  ℕ, suc, ◌≡◌, ◌⊎◌, refl, sym, ap, ◌∙◌, Bool, true, false, List, [], ◌∷◌, Any, here, inl, inr,
  arith, if◌then◌else◌,
}
use seclab.Prelude.Text.{Text, text_eq}
use seclab.Security.Models
use seclab.Security.Models.{Result, ok, err, Json, EvidenceArtifact}
use seclab.Security.Evidence.{store}
use seclab.Core.Http.{Outcome, done}
use seclab.Core.Events.{Event, World}
use seclab.Phantom.Scoring.{RiskSignal, DomainInfrastructure}
use seclab.Monitor.{MonitorMatch}
use seclab.Monitor.Capture.{
  CaptureResult, MonitorSettings, Pipe, committed, published, in_session, capture_url, set_status,
  capture_and_store,
}
use seclab.Monitor.Pipeline.{
  match_event, record_match, commit_and_publish, finish, scored_match, on_enriched, handle_match,
}
use seclab.Monitor.Row.{same_row, no_row, IsRow, IsEvidence, same-IsRow, same-IsEvidence}
use seclab.Monitor.Still.{IsQuiet, IsMarked, on_check-IsQuiet}

module _ (sha256 : Text → Text) (enrich : Text → Result DomainInfrastructure)
    (capture : Text → Result CaptureResult) (egress : ℕ → Text → Outcome (Text × Text))
    (artifact_path : Text → Text → Result Text) (write_bytes : Text → Text → Result (Unit {0}))
    (strftime : ℕ → Text) (dump : List RiskSignal → Json) (publish : Event → World → World)
    (settings : MonitorSettings) (domain issuer matched_keyword : Text) (created_at : ℕ)
    (occurred_at : Text) where
  -- The match was added to the table and committed with the evidence of its score, and its alert
  -- published behind the commit; the browser visited nothing, or the domain whose address was
  -- checked.
  pub record IsAlerted (before after : Pipe) (m : MonitorMatch) : Type 0 where
    pub row : IsRow sha256 enrich domain issuer matched_keyword created_at m
    pub added : after.session.saved.matches ≡ m ∷ before.session.work.matches
    pub evidence : EvidenceArtifact
    pub stored : Any (λ k. k ≡ evidence) after.session.saved.evidence
    pub evidenced : IsEvidence sha256 enrich domain issuer matched_keyword created_at m evidence
    pub settled : after.session.saved ≡ after.session.work
    pub order :
        after.steps
        ≡ published (match_event m occurred_at) ∷ committed after.session.saved ∷ before.steps
    pub alerted : after.world ≡ publish (match_event m occurred_at) before.world
    pub visits :
        (after.visited ≡ before.visited)
        ⊎ ((after.visited ≡ domain ∷ before.visited)
            × ((n : ℕ) × (to : Text × Text) × (egress n (capture_url domain) ≡ done to)))

  -- The enrichment failed, or the capture is enabled; and nothing came of the match.
  pub record IsFailed (before after : Pipe) (e : Models.Error) : Type 0 where
    pub cause : (enrich domain ≡ err e) ⊎ (settings.capture_enabled ≡ true)
    pub quiet : IsQuiet egress domain before after

  abbrev pub IsHandled : Pipe → Pipe × Result MonitorMatch → Type 0
  IsHandled before (after, ok m) = IsAlerted before after m
  IsHandled before (after, err e) = IsFailed before after e

  -- What is known before the commit: the row that was added is there, and its evidence.
  record IsRecorded (before after : Pipe) : Type 0 where
    pub quiet : IsQuiet egress domain before after
    pub row : MonitorMatch
    pub is_row : IsRow sha256 enrich domain issuer matched_keyword created_at row
    pub rows :
        set_status [] after.session.work.matches ≡ set_status [] (row ∷ before.session.work.matches)
    pub evidence : EvidenceArtifact
    pub evidenced : IsEvidence sha256 enrich domain issuer matched_keyword created_at row evidence
    pub there_is : Any (λ k. k ≡ evidence) after.session.work.evidence

  commit_and_publish-IsAlerted :
      (before p : Pipe) (m : MonitorMatch) (others : List MonitorMatch)
      → p.session.work.matches ≡ m ∷ others
      → IsRecorded before p
      → IsHandled before (
          commit_and_publish sha256 enrich capture egress artifact_path write_bytes strftime dump
            publish settings m occurred_at p)
  unfolding commit_and_publish
  commit_and_publish-IsAlerted before p m others is_rows h =
      let (same, rest) =
        same_row m h.row others before.session.work.matches
          (ap (set_status []) (sym is_rows) ∙ h.rows) in
      record {
        row =
            same-IsRow sha256 enrich domain issuer matched_keyword created_at m h.row same h.is_row;
        added = is_rows ∙ ap (λ l. m ∷ l) rest;
        evidence = h.evidence;
        stored = h.there_is;
        evidenced =
            same-IsEvidence sha256 enrich domain issuer matched_keyword created_at m h.row
              h.evidence (ap (λ (r : MonitorMatch). r.score_rationale) (sym same)) h.evidenced;
        settled = refl;
        order =
            ap (λ s. published (match_event m occurred_at) ∷ committed p.session.work ∷ s)
              h.quiet.no_step;
        alerted = ap (publish (match_event m occurred_at)) h.quiet.unpublished;
        visits = h.quiet.visits;
      }

  abbrev finished : Pipe × Result (Unit {0}) → Pipe × Result MonitorMatch
  finished o =
      finish sha256 enrich capture egress artifact_path write_bytes strftime dump publish settings
        occurred_at o

  finish-IsHandled :
      (before p : Pipe) (o : Result (Unit {0}))
      → ((e : Models.Error) → o ≡ err e → settings.capture_enabled ≡ true)
      → IsRecorded before p
      → IsHandled before (finished (p, o))
  unfolding finish
  finish-IsHandled before p (err e) cause h = record { cause = inr (cause e refl); quiet = h.quiet }
  finish-IsHandled before p (ok u) cause h = by_rows p.session.work.matches refl
    where
      by_rows :
          (rows : List MonitorMatch)
          → p.session.work.matches ≡ rows
          → IsHandled before (elim rows [
            | [] ↦ (p, err Models.value_error)
            | m ∷ others ↦
                commit_and_publish sha256 enrich capture egress artifact_path write_bytes strftime
                  dump publish settings m occurred_at p
          ])
      by_rows [] e =
          absurd (no_row h.row before.session.work.matches (ap (set_status []) (sym e) ∙ h.rows))
      by_rows (m ∷ others) e = commit_and_publish-IsAlerted before p m others e h

  -- The pipe with the row and the evidence of its score.
  abbrev scored_pipe : DomainInfrastructure → Pipe → Pipe
  scored_pipe found p =
      let first =
        scored_match sha256 enrich capture egress artifact_path write_bytes strftime dump publish
          settings domain issuer matched_keyword created_at found in
      in_session
        (record_match sha256 enrich capture egress artifact_path write_bytes strftime dump publish
          settings first.0 first.1)
        p

  scored-IsRecorded :
      (found : DomainInfrastructure) (p : Pipe)
      → enrich domain ≡ ok found
      → IsRecorded p (scored_pipe found p)
  unfolding record_match store scored_match
  scored-IsRecorded found p e = record {
    quiet = record { uncommitted = refl; unpublished = refl; no_step = refl; visits = inl refl };
    row =
        (scored_match sha256 enrich capture egress artifact_path write_bytes strftime dump publish
          settings domain issuer matched_keyword created_at found).0;
    is_row = record {
      named = (refl, refl, refl, refl);
      infrastructure = found;
      enriched = e;
      scored = (refl, refl, refl);
    };
    rows = refl;
    evidence = _;
    evidenced = record { about = (refl, refl); type = refl; content = (refl, refl) };
    there_is = here refl;
  }

  captured-IsRecorded :
      (p q r : Pipe)
      → IsRecorded p q
      → q.visited ≡ p.visited
      → IsQuiet egress domain q r × IsMarked q r
      → IsRecorded p r
  captured-IsRecorded p q r h v (quiet, marked) = record {
    quiet = record {
      uncommitted = quiet.uncommitted ∙ h.quiet.uncommitted;
      unpublished = quiet.unpublished ∙ h.quiet.unpublished;
      no_step = quiet.no_step ∙ h.quiet.no_step;
      visits = elim quiet.visits [
        | inl e ↦ inl (e ∙ v)
        | inr visit ↦ inr (visit.0 ∙ ap (λ w. domain ∷ w) v, visit.1)
      ];
    };
    row = h.row;
    is_row = h.is_row;
    rows = marked.rows ∙ h.rows;
    evidence = h.evidence;
    evidenced = h.evidenced;
    there_is = marked.kept h.evidence h.there_is;
  }

  looked_up-IsRecorded :
      (p q : Pipe) → IsRecorded p q → IsRecorded p (record q { lookups = suc q.lookups })
  looked_up-IsRecorded p q h = record {
    quiet = record {
      uncommitted = h.quiet.uncommitted;
      unpublished = h.quiet.unpublished;
      no_step = h.quiet.no_step;
      visits = h.quiet.visits;
    };
    row = h.row;
    is_row = h.is_row;
    rows = h.rows;
    evidence = h.evidence;
    evidenced = h.evidenced;
    there_is = h.there_is;
  }

  captured-IsHandled :
      (p scored : Pipe) (enabled : Bool)
      → settings.capture_enabled ≡ enabled
      → scored.visited ≡ p.visited
      → IsRecorded p scored
      → IsHandled p (
          finished (
            if enabled
            then capture_and_store sha256 capture egress artifact_path write_bytes strftime settings
                domain scored
            else (scored, ok tt)))
  unfolding capture_and_store
  captured-IsHandled p scored false e v h =
      finish-IsHandled p scored (ok tt) (λ x q. absurd (ground (arith, q))) h
  captured-IsHandled p scored true e v h =
      let asked = record scored { lookups = suc scored.lookups } in
      finish-IsHandled p _ _ (λ x q. e)
        (captured-IsRecorded p asked _ (looked_up-IsRecorded p scored h) v (
          on_check-IsQuiet sha256 capture egress artifact_path write_bytes strftime settings domain
            asked scored.lookups _ refl))

  on_enriched-IsHandled :
      (p : Pipe) (o : Result DomainInfrastructure)
      → enrich domain ≡ o
      → IsHandled p (
          on_enriched sha256 enrich capture egress artifact_path write_bytes strftime dump publish
            settings domain issuer matched_keyword created_at occurred_at p o)
  unfolding on_enriched record_match store scored_match
  on_enriched-IsHandled p (err x) e = record {
    cause = inl e;
    quiet = record { uncommitted = refl; unpublished = refl; no_step = refl; visits = inl refl };
  }
  on_enriched-IsHandled p (ok found) e =
      captured-IsHandled p (scored_pipe found p) settings.capture_enabled refl refl
        (scored-IsRecorded found p e)

  -- Whatever becomes of the enrichment, the egress check, the browser and the files, each of which
  -- may fail: a match that is returned is the row of this certificate, scored by what the
  -- enrichment found; it was added to the matches of before as the only new one, and committed
  -- together with the evidence of its score, and behind that commit, and no other, its alert was
  -- published as the only one. If handling it raises, the enrichment failed or the capture is
  -- enabled, and nothing was committed and no alert published. In both cases the browser visits at
  -- most the domain itself, and only if the egress check gave an address for it.
  pub handle_match-IsHandled :
      (p : Pipe)
      → IsHandled p (
          handle_match sha256 enrich capture egress artifact_path write_bytes strftime dump publish
            settings domain issuer matched_keyword created_at occurred_at p)
  unfolding handle_match
  handle_match-IsHandled p = on_enriched-IsHandled p (enrich domain) refl
