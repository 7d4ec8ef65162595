-- ===== src/Phantom/Scoring.antt =====
-- packages/seclab-core/src/seclab/reporting/scoring.py, and the rules of
-- packages/modules/phantom/src/seclab_phantom/scoring.py, whose weights are natural numbers.
pub mod Explained
use seclab.Prelude.{
  ℕ, ◌+◌, ◌*◌, Bool, true, false, Option, none, some, List, [], ◌∷◌, ◌++◌, map, take, length, leb,
  ◌==◌, if◌then◌else◌,
}
use seclab.Prelude.Text.{Text, codes, contains, decimal, is_empty, text_eq}
use seclab.Reporting.{join}
use seclab.Phantom.Discovery.{DomainVariation}

pub record RiskSignal : Type 0 where
  pub code : Text
  pub severity : Text
  pub reason : Text
  pub weight : ℕ
  pub evidence : List Text

unfoldable pub sum_weights : List RiskSignal → ℕ
sum_weights [] = 0
sum_weights (s ∷ signals) = s.weight + sum_weights signals

-- `min(a, b)`
abbrev pub min : ℕ → ℕ → ℕ
min a b = if leb a b then a else b

unfoldable pub priority : ℕ → ℕ → ℕ → Text
priority high_threshold medium_threshold bounded_score =
    if leb high_threshold bounded_score
    then codes "high"
    else if leb medium_threshold bounded_score
    then codes "medium"
    else codes "low"

rationale : List RiskSignal → Text
unfolding join
rationale signals =
    let text =
      join (codes " + ")
        (map (λ s. s.code ++ codes " (" ++ decimal s.weight ++ codes ")") signals) in
    if is_empty text then codes "no triggered rules" else text

-- score, priority and rationale, by the two thresholds and the greatest score
unfoldable pub score_and_prioritize : List RiskSignal → ℕ → ℕ → ℕ → ℕ × Text × Text
unfolding rationale
score_and_prioritize signals high_threshold medium_threshold max_score =
    let bounded_score = min (sum_weights signals) max_score in
    (bounded_score, priority high_threshold medium_threshold bounded_score, rationale signals)

pub record DomainInfrastructure : Type 0 where
  pub rdap_org : Option Text
  pub ip_addresses : List Text
  pub reputation_tags : List Text

-- the two tables of weights, 0 for a technique that is in neither
unfoldable pub high_risk : Text → ℕ
high_risk technique =
    if technique == codes "homoglyph"
    then 30
    else if technique == codes "character-swap"
    then 28
    else if technique == codes "character-duplication"
    then 18
    else if technique == codes "character-omission"
    then 18
    else 0

unfoldable pub lure : Text → ℕ
lure technique =
    if technique == codes "brand-prefix"
    then 20
    else if technique == codes "security-lure"
    then 22
    else if technique == codes "support-lure"
    then 16
    else if technique == codes "tld-blend"
    then 12
    else 0

-- a signal, if its weight is one of the table's
unfoldable pub weighed : ℕ → (ℕ → RiskSignal) → List RiskSignal
weighed weight signal = if leb weight 0 then [] else signal weight ∷ []

unfoldable pub technique_signal : DomainVariation → List RiskSignal
technique_signal v = weighed (high_risk v.technique) λ weight. record {
  code = codes "lookalike-technique";
  severity = codes "high";
  reason = codes "Domain uses " ++ v.technique ++ codes " to mimic the target.";
  weight = weight;
  evidence = v.domain ∷ v.technique ∷ [];
}

-- `variation.risk_context_tags or [variation.technique]`
tags_or : List Text → Text → List Text
tags_or [] technique = technique ∷ []
tags_or (t ∷ tags) technique = t ∷ tags

unfoldable pub lure_signal : DomainVariation → List RiskSignal
unfolding tags_or
lure_signal v = weighed (lure v.technique) λ weight. record {
  code = codes "credential-lure-pattern";
  severity = codes "medium";
  reason = codes "Domain contains wording commonly used in phishing login lures.";
  weight = weight;
  evidence = tags_or v.risk_context_tags v.technique;
}

-- by the sources of the certificates
unfoldable pub certificate_signal : List Text → List RiskSignal
certificate_signal [] = []
certificate_signal (c ∷ sources) =
    record {
      code = codes "certificate-observed";
      severity = codes "high";
      reason =
          codes "Certificate Transparency data shows the domain has active certificate activity.";
      weight = 25;
      evidence = c ∷ sources;
    }
    ∷ []

org_text : Option Text → Text
org_text none = []
org_text (some org) = org

unfoldable pub privacy_signal : Option Text → List RiskSignal
unfolding org_text
privacy_signal rdap_org =
    if contains (codes "Privacy") (org_text rdap_org)
    then record {
      code = codes "privacy-registrant";
      severity = codes "medium";
      reason = codes "Registration details suggest privacy shielding.";
      weight = 10;
      evidence = org_text rdap_org ∷ [];
    }
      ∷ []
    else []

unfoldable pub address_signal : List Text → List RiskSignal
address_signal [] = []
address_signal (ip ∷ ips) =
    record {
      code = codes "resolves-to-ip";
      severity = codes "medium";
      reason = codes "Domain resolves to routable infrastructure.";
      weight = 10;
      evidence = take 2 (ip ∷ ips);
    }
    ∷ []

unfoldable pub reputation_signal : List Text → List RiskSignal
unfolding join
reputation_signal [] = []
reputation_signal (tag ∷ tags) =
    record {
      code = codes "reputation-tags";
      severity = codes "medium";
      reason =
          codes "Basic reputation heuristics produced tags: "
          ++ join (codes ", ") (tag ∷ tags)
          ++ codes ".";
      weight = min 15 (length (tag ∷ tags) * 5);
      evidence = tag ∷ tags;
    }
    ∷ []

unfoldable pub signals_of : DomainVariation → List Text → DomainInfrastructure → List RiskSignal
unfolding technique_signal lure_signal certificate_signal privacy_signal address_signal
    reputation_signal
signals_of v certificates infrastructure =
    technique_signal v
    ++ (lure_signal v
        ++ (certificate_signal certificates
            ++ (privacy_signal infrastructure.rdap_org
                ++ (address_signal infrastructure.ip_addresses
                    ++ reputation_signal infrastructure.reputation_tags))))

-- `score_asset`: the score, the priority, the signals and the rationale
unfoldable pub score_asset :
    DomainVariation → List Text → DomainInfrastructure → ℕ × Text × List RiskSignal × Text
unfolding signals_of score_and_prioritize
score_asset v certificates infrastructure =
    let signals = signals_of v certificates infrastructure in
    let (score, label, why) = score_and_prioritize signals 70 40 100 in (score, label, signals, why)
