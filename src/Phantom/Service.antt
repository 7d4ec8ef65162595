-- ===== src/Phantom/Service.antt =====
-- packages/modules/phantom/src/seclab_phantom/service.py and enrichment.py: the assets of an
-- analysis. `ct_fetch` stands for the certificate log, as the sources of the certificates, and
-- `enrich` for the enrichment providers, with the source of the infrastructure.
use seclab.Prelude.{ℕ, List, [], ◌∷◌, ◌++◌, leb, order_desc, if◌then◌else◌}
use seclab.Prelude.Sorted.{sorted, text_ltb}
use seclab.Prelude.Text.{Text}
use seclab.AttackSurface.{add_ips}
use seclab.Phantom.Discovery.{
  DomainVariation, TargetRequest, build_target_profile, generate_domain_variants,
}
use seclab.Phantom.Scoring.{RiskSignal, DomainInfrastructure, score_asset}

pub record ScoredAsset : Type 0 where
  pub domain : Text
  pub technique : Text
  pub score : ℕ
  pub priority : Text
  pub certificate_observations : List Text
  pub infrastructure : DomainInfrastructure
  pub risk_signals : List RiskSignal
  pub score_rationale : Text
  pub evidence_sources : List Text

module _ (ct_fetch : Text → List Text) (enrich : Text → DomainInfrastructure × Text) where
  -- `enrich_asset`, and the asset that is made of its score
  unfoldable pub scored_asset : DomainVariation → ScoredAsset
  scored_asset variation =
      let certificates = ct_fetch variation.domain in
      let (infrastructure, source) = enrich variation.domain in
      let (score, label, signals, why) = score_asset variation certificates infrastructure in
      record {
        domain = variation.domain;
        technique = variation.technique;
        score = score;
        priority = label;
        certificate_observations = certificates;
        infrastructure = infrastructure;
        risk_signals = signals;
        score_rationale = why;
        evidence_sources = sorted text_ltb (add_ips (certificates ++ (source ∷ [])) []);
      }

  -- the loop over the enriched variations
  unfoldable pub scored_assets : List DomainVariation → List ScoredAsset
  unfolding scored_asset
  scored_assets [] = []
  scored_assets (v ∷ variations) =
      let rest = scored_assets variations in
      if leb (scored_asset v).score 0 then rest else scored_asset v ∷ rest

  -- the assets that `analyze` reports
  unfoldable pub analyze : TargetRequest → ℕ → List ScoredAsset
  unfolding scored_assets
  analyze request max_variants =
      order_desc (λ a. a.score)
        (scored_assets (generate_domain_variants (build_target_profile request) max_variants))
