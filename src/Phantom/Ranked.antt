-- ===== src/Phantom/Ranked.antt =====
-- packages/modules/phantom/src/seclab_phantom/service.py: what an analysis reports.
use seclab.Prelude.{
  ℕ, ◌≡◌, ◌≤◌, refl, List, [], ◌∷◌, arith, leb, All, All-map, Any, here, there, Bool-cases, inl,
  inr, IsDescending, order_desc-IsDescending, order_desc-All, order_desc-Any,
}
use seclab.Prelude.Text.{Text}
use seclab.Phantom.Discovery.{
  DomainVariation, TargetRequest, build_target_profile, generate_domain_variants,
}
use seclab.Phantom.Scoring.{DomainInfrastructure}
use seclab.Phantom.Scoring.Explained.{IsExplained, score_asset-IsExplained}
use seclab.Phantom.Service.{ScoredAsset, scored_asset, scored_assets, analyze}

module _ (ct_fetch : Text → List Text) (enrich : Text → DomainInfrastructure × Text) where
  -- An asset with a score, whose label and signals explain it, of one of the variations.
  pub record IsFound (variations : List DomainVariation) (a : ScoredAsset) : Type 0 where
    pub positive : 1 ≤ a.score
    pub explained : IsExplained a.score a.priority a.risk_signals
    pub source : Any (λ v. scored_asset ct_fetch enrich v ≡ a) variations

  scored_asset-IsExplained :
      (v : DomainVariation)
      → IsExplained
          (scored_asset ct_fetch enrich v).score
          (scored_asset ct_fetch enrich v).priority
          (scored_asset ct_fetch enrich v).risk_signals
  unfolding scored_asset
  scored_asset-IsExplained v = score_asset-IsExplained v (ct_fetch v.domain) (enrich v.domain).0

  IsFound-later :
      (v : DomainVariation) (variations : List DomainVariation) (a : ScoredAsset)
      → IsFound variations a
      → IsFound (v ∷ variations) a
  IsFound-later v variations a h = record {
    positive = h.positive;
    explained = h.explained;
    source = there h.source;
  }

  scored_assets-All :
      (variations : List DomainVariation)
      → All (IsFound variations) (scored_assets ct_fetch enrich variations)
  unfolding scored_assets
  scored_assets-All [] = tt
  scored_assets-All (v ∷ variations) =
      let rest = All-map (IsFound-later v variations) _ (scored_assets-All variations) in
      elim (Bool-cases (leb (scored_asset ct_fetch enrich v).score 0)) [
        | inl e ↦ rw e rest
        | inr e ↦ rw e (
          record {
            positive = ground (arith, e);
            explained = scored_asset-IsExplained v;
            source = here refl;
          },
          rest,
        )
      ]

  -- The asset that a variation with a score must have.
  abbrev pub IsIncluded : List ScoredAsset → DomainVariation → Type 0
  IsIncluded assets v =
      1 ≤ (scored_asset ct_fetch enrich v).score
      → Any (λ a. a ≡ scored_asset ct_fetch enrich v) assets

  scored_assets-IsIncluded :
      (variations : List DomainVariation)
      → All (IsIncluded (scored_assets ct_fetch enrich variations)) variations
  unfolding scored_assets
  scored_assets-IsIncluded [] = tt
  scored_assets-IsIncluded (v ∷ variations) =
      elim (Bool-cases (leb (scored_asset ct_fetch enrich v).score 0)) [
        | inl e ↦ (
          λ positive. absurd (ground (arith, e, positive)),
          All-map (λ k h positive. rw e (h positive)) variations
              (scored_assets-IsIncluded variations),
        )
        | inr e ↦ (
          λ positive. rw e (here refl),
          All-map (λ k h positive. rw e (there (h positive))) variations
              (scored_assets-IsIncluded variations),
        )
      ]

  pub record IsRanking (variations : List DomainVariation) (assets : List ScoredAsset)
      : Type 0 where
    pub ranked : IsDescending (λ a. a.score) assets
    pub found : All (IsFound variations) assets
    pub complete : All (IsIncluded assets) variations

  -- An analysis reports exactly the variations of the target's domain that have a score above 0,
  -- the highest first; each with a score of at most 100, the label of its range and the signals
  -- that explain it.
  pub analyze-IsRanking :
      (request : TargetRequest) (max_variants : ℕ)
      → IsRanking
          (generate_domain_variants (build_target_profile request) max_variants)
          (analyze ct_fetch enrich request max_variants)
  unfolding analyze
  analyze-IsRanking request max_variants =
      let variations = generate_domain_variants (build_target_profile request) max_variants in
      let assets = scored_assets ct_fetch enrich variations in
      record {
        ranked = order_desc-IsDescending (λ a. a.score) assets;
        found = order_desc-All (λ a. a.score) _ assets (scored_assets-All variations);
        complete =
            All-map (λ v h positive. order_desc-Any (λ a. a.score) _ assets (h positive)) variations
              (scored_assets-IsIncluded variations);
      }
