-- ===== src/Security/Evidence.antt =====
-- packages/seclab-core/src/seclab/security/evidence.py: the chain-of-custody store. `sha256` stands
-- for `hashlib.sha256(...).hexdigest()`. Bytes and texts are both lists of numbers here: an ASCII
-- text is its own UTF-8.
use seclab.Prelude.{ℕ, ◌&&◌, Option, some, List, [], ◌∷◌, select, take, order_desc, ◌==◌}
use seclab.Prelude.Text.{Text, codes, text_eq}
use seclab.Security.Models.{Json, EvidenceArtifact}
use seclab.Db.{Store, Exec, pure, ◌>>=◌, ◌>>◌, gets, modify, now}

unfoldable pub add_evidence : EvidenceArtifact → Store → Store
add_evidence e s = record s { evidence = e ∷ s.evidence }

unfoldable pub by_subject : Text → Text → Text → Exec (List EvidenceArtifact)
by_subject source_module subject_type subject_id = gets λ s.
    select
      (λ e.
        e.source_module == source_module
        && (e.subject_type == subject_type && e.subject_id == subject_id))
      s.evidence

unfoldable pub by_module : Text → ℕ → Exec (List EvidenceArtifact)
by_module source_module limit = gets λ s.
    take limit
      (order_desc (λ e. e.created_at) (select (λ e. e.source_module == source_module) s.evidence))

module _ (sha256 : Text → Text) where
  unfoldable pub store :
      Text
      → Text
      → Text
      → Text
      → Text
      → Text
      → Option Text
      → List (Text × Json)
      → Exec EvidenceArtifact
  unfolding ◌>>=◌ modify now pure add_evidence
  store source_module subject_type subject_id evidence_type content content_format artifact_uri
        metadata =
      do
        created ← now
        let artifact : EvidenceArtifact = record {
          source_module = source_module;
          subject_type = subject_type;
          subject_id = subject_id;
          evidence_type = evidence_type;
          content = content;
          content_format = content_format;
          content_sha256 = sha256 content;
          artifact_uri = artifact_uri;
          metadata = metadata;
          created_at = created;
        }
        modify (add_evidence artifact)
        pure artifact

  unfoldable pub store_bytes :
      Text → Text → Text → Text → Text → Text → List (Text × Json) → Exec EvidenceArtifact
  unfolding ◌>>=◌ modify now pure add_evidence
  store_bytes source_module subject_type subject_id evidence_type raw artifact_uri metadata = do
    created ← now
    let artifact : EvidenceArtifact = record {
      source_module = source_module;
      subject_type = subject_type;
      subject_id = subject_id;
      evidence_type = evidence_type;
      content = [];
      content_format = codes "binary";
      content_sha256 = sha256 raw;
      artifact_uri = some artifact_uri;
      metadata = metadata;
      created_at = created;
    }
    modify (add_evidence artifact)
    pure artifact
