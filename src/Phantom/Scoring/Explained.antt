-- ===== src/Phantom/Scoring/Explained.antt =====
-- How many signals a priority takes.
use seclab.Prelude.{
  append-All, ℕ, ◌*◌, ◌≡◌, ◌≤◌, ◌<◌, refl, List, [], ◌∷◌, arith, length, leb, All, Option,
  Bool-cases, inl, inr,
}
use seclab.Prelude.Text.{Text, codes, text_eq}
use seclab.Phantom.Discovery.{DomainVariation}
use seclab.Phantom.Scoring.{
  RiskSignal, DomainInfrastructure, sum_weights, priority, score_and_prioritize, high_risk, lure,
  weighed, technique_signal, lure_signal, certificate_signal, privacy_signal, address_signal,
  reputation_signal, signals_of, score_asset,
}

abbrev pub IsLight : RiskSignal → Type 0
IsLight s = s.weight ≤ 30

weighed-All :
    (w : ℕ) (signal : ℕ → RiskSignal)
    → w ≤ 30
    → ((n : ℕ) → (signal n).weight ≡ n)
    → All IsLight (weighed w signal)
unfolding weighed
weighed-All w signal h e = elim (Bool-cases (leb w 0)) [
  | inl zero_weight ↦ rw zero_weight tt
  | inr some_weight ↦ let same = e w in rw some_weight (omega (arith, h, same), tt)
]

certificate_signal-All : (c : List Text) → All IsLight (certificate_signal c)
unfolding certificate_signal
certificate_signal-All [] = tt
certificate_signal-All (c ∷ sources) = (omega arith, tt)

privacy_signal-All : (o : Option Text) → All IsLight (privacy_signal o)
unfolding privacy_signal
privacy_signal-All o = ground arith

address_signal-All : (ips : List Text) → All IsLight (address_signal ips)
unfolding address_signal
address_signal-All [] = tt
address_signal-All (ip ∷ ips) = (omega arith, tt)

reputation_signal-All : (tags : List Text) → All IsLight (reputation_signal tags)
unfolding reputation_signal
reputation_signal-All [] = tt
reputation_signal-All (tag ∷ tags) = (ground arith, tt)

high_risk-le : (t : Text) → high_risk t ≤ 30
unfolding high_risk
high_risk-le t = ground arith

lure-le : (t : Text) → lure t ≤ 30
unfolding lure
lure-le t = ground arith

signals_of-All :
    (v : DomainVariation) (certificates : List Text) (infrastructure : DomainInfrastructure)
    → All IsLight (signals_of v certificates infrastructure)
unfolding signals_of technique_signal lure_signal
signals_of-All v certificates infrastructure =
    append-All IsLight (technique_signal v) _
      (weighed-All _ _ (high_risk-le v.technique) (λ n. refl))
      (append-All IsLight (lure_signal v) _ (weighed-All _ _ (lure-le v.technique) (λ n. refl)) (
        append-All IsLight (certificate_signal certificates) _ (certificate_signal-All certificates)
          (append-All IsLight (privacy_signal infrastructure.rdap_org) _
            (privacy_signal-All infrastructure.rdap_org)
            (append-All IsLight (address_signal infrastructure.ip_addresses) _
              (address_signal-All infrastructure.ip_addresses)
              (reputation_signal-All infrastructure.reputation_tags)))))

sum_weights-le :
    (signals : List RiskSignal) → All IsLight signals → sum_weights signals ≤ 30 * length signals
unfolding sum_weights
sum_weights-le [] h = omega arith
sum_weights-le (s ∷ signals) (p, h) = omega (arith, p, sum_weights-le signals h)

-- The score is bounded and has the label of its range, and a label that asks for attention rests
-- on several signals.
pub record IsExplained (score : ℕ) (label : Text) (signals : List RiskSignal) : Type 0 where
  pub bounded : score ≤ 100
  pub label_high : 70 ≤ score → label ≡ codes "high"
  pub label_medium : 40 ≤ score → score < 70 → label ≡ codes "medium"
  pub label_low : score < 40 → label ≡ codes "low"
  pub high : 70 ≤ score → 3 ≤ length signals
  pub medium : 40 ≤ score → 2 ≤ length signals
  pub silent : length signals ≡ 0 → score ≡ 0

-- Every asset has a score of at most 100, and the label high from 70 on, medium from 40 to 69 and
-- low below; a score of 40 or more rests on at least two signals, one of 70 or more on at least
-- three, and without a signal the score is 0.
pub score_asset-IsExplained :
    (v : DomainVariation) (certificates : List Text) (infrastructure : DomainInfrastructure)
    → IsExplained
        (score_asset v certificates infrastructure).0
        (score_asset v certificates infrastructure).1
        (score_asset v certificates infrastructure).2
unfolding score_asset score_and_prioritize
score_asset-IsExplained v certificates infrastructure =
    let signals = signals_of v certificates infrastructure in
    let total = sum_weights-le signals (signals_of-All v certificates infrastructure) in
    record {
      bounded = ground arith;
      label_high = λ h. unfold priority in ground (arith, h);
      label_medium = λ h k. unfold priority in ground (arith, h, k);
      label_low = λ h. unfold priority in ground (arith, h);
      high = λ h. ground (arith, h, total);
      medium = λ h. ground (arith, h, total);
      silent = λ h. ground (arith, h, total);
    }
