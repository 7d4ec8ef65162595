-- ===== src/Monitor/Row.antt =====
-- packages/modules/monitor/src/seclab_monitor/pipeline.py: the row of a match and its evidence.
use seclab.Prelude.{ℕ, ◌≡◌, ap, ◌∙◌, List, [], ◌∷◌, arith}
use seclab.Prelude.Text.{Text, codes, text_eq}
use seclab.Security.Models.{Result, ok, EvidenceArtifact}
use seclab.Phantom.Scoring.{DomainInfrastructure, score_asset}
use seclab.Monitor.{MonitorMatch}
use seclab.Monitor.Capture.{set_status}
use seclab.Monitor.Pipeline.{variation_of}

-- The heads are the same but for the capture status, and the tails are the same.
pub same_row :
    (m k : MonitorMatch) (rows others : List MonitorMatch)
    → set_status [] (m ∷ rows) ≡ set_status [] (k ∷ others)
    → (record m { capture_status = [] } ≡ record k { capture_status = [] }) × (rows ≡ others)
unfolding set_status
same_row m k rows others h = (
  ap (λ (l : List MonitorMatch). elim l [ [] ↦ record m { capture_status = [] } | x ∷ xs ↦ x ]) h,
  ap (λ (l : List MonitorMatch). elim l [ [] ↦ [] | x ∷ xs ↦ xs ]) h,
)

pub no_row :
    (k : MonitorMatch) (others : List MonitorMatch)
    → ¬ (set_status [] [] ≡ set_status [] (k ∷ others))
unfolding set_status
no_row k others h = ground (arith, h)

module _ (sha256 : Text → Text) (enrich : Text → Result DomainInfrastructure)
    (domain issuer matched_keyword : Text) (created_at : ℕ) where
  -- The row of the match, with the score of what the enrichment found.
  pub record IsRow (m : MonitorMatch) : Type 0 where
    pub named :
        (m.domain ≡ domain)
        × (m.issuer ≡ issuer)
        × (m.matched_keyword ≡ matched_keyword)
        × (m.created_at ≡ created_at)
    pub infrastructure : DomainInfrastructure
    pub enriched : enrich domain ≡ ok infrastructure
    pub scored :
        (m.score ≡ (score_asset (variation_of domain matched_keyword) [] infrastructure).0)
        × (m.priority ≡ (score_asset (variation_of domain matched_keyword) [] infrastructure).1)
        × (m.score_rationale
            ≡ (score_asset (variation_of domain matched_keyword) [] infrastructure).3)

  -- The evidence of the score of a match.
  pub record IsEvidence (m : MonitorMatch) (e : EvidenceArtifact) : Type 0 where
    pub about : (e.source_module ≡ codes "monitor") × (e.subject_id ≡ domain)
    pub type : e.evidence_type ≡ codes "ct_match_scoring"
    pub content : (e.content ≡ m.score_rationale) × (e.content_sha256 ≡ sha256 m.score_rationale)

  pub same-IsRow :
      (m k : MonitorMatch)
      → record m { capture_status = [] } ≡ record k { capture_status = [] }
      → IsRow k
      → IsRow m
  same-IsRow m k same h = record {
    named = (
      ap (λ (r : MonitorMatch). r.domain) same ∙ h.named.0,
      ap (λ (r : MonitorMatch). r.issuer) same ∙ h.named.1,
      ap (λ (r : MonitorMatch). r.matched_keyword) same ∙ h.named.2,
      ap (λ (r : MonitorMatch). r.created_at) same ∙ h.named.3,
    );
    infrastructure = h.infrastructure;
    enriched = h.enriched;
    scored = (
      ap (λ (r : MonitorMatch). r.score) same ∙ h.scored.0,
      ap (λ (r : MonitorMatch). r.priority) same ∙ h.scored.1,
      ap (λ (r : MonitorMatch). r.score_rationale) same ∙ h.scored.2,
    );
  }

  pub same-IsEvidence :
      (m k : MonitorMatch) (e : EvidenceArtifact)
      → k.score_rationale ≡ m.score_rationale
      → IsEvidence k e
      → IsEvidence m e
  same-IsEvidence m k e same h = record {
    about = h.about;
    type = h.type;
    content = (h.content.0 ∙ same, h.content.1 ∙ ap sha256 same);
  }
