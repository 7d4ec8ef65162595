-- ===== src/Fusion/Correlated.antt =====
-- packages/modules/fusion/src/seclab_fusion/correlation.py: what the feed of findings promises.
use seclab.Prelude.{
  ℕ, ◌+◌, ◌*◌, ◌≡◌, ◌≤◌, ◌<◌, refl, Bool, true, false, Option, none, some, List, [], ◌∷◌, ◌++◌,
  arith, length, count, count-append, count-le, length-append, leb, All, All-map, append-All, Any,
  here, there, Bool-cases, inl, inr, IsDescending, order_desc-IsDescending, order_desc-All,
  order_desc-Any,
}
use seclab.Prelude.Parts.{append-Any, append_later}
use seclab.Prelude.Text.{Text}
use seclab.Monitor.{MonitorMatch}
use seclab.Fusion.{
  TrackedCve, ThreatArticle, exploited_cve, cve_match, threat_vector, FusionSignal, FusionFinding,
  max_threat_vector_signals, matched_product, cve_signal, signals_of_cve, cve_signals, is_trending,
  add_threat_signals, threat_vector_signals, threat_signal, round_tenth, sum_weights_of, finding_of,
  findings_of, signals_for, collect, correlate,
}

abbrev pub is_threat : FusionSignal → Bool
is_threat s = elim s.kind [ exploited_cve ↦ false | cve_match ↦ false | threat_vector ↦ true ]

cve_signal_kind : (cve : TrackedCve) (product : Text) → is_threat (cve_signal cve product) ≡ false
unfolding cve_signal
cve_signal_kind cve product = elim (Bool-cases cve.is_actively_exploited) [
  | inl e ↦ rw e refl
  | inr e ↦ rw e refl
]

signals_of_cve_kind :
    (cve : TrackedCve) (o : Option Text) → count is_threat (signals_of_cve cve o) ≡ 0
unfolding signals_of_cve count
signals_of_cve_kind cve none = refl
signals_of_cve_kind cve (some product) = rw (cve_signal_kind cve product) (omega arith)

cve_signals_kind :
    (m : MonitorMatch) (cves : List TrackedCve) → count is_threat (cve_signals m cves) ≡ 0
unfolding cve_signals
cve_signals_kind m [] = unfold count in refl
cve_signals_kind m (cve ∷ cves) =
    let first = signals_of_cve_kind cve (matched_product m cve.matched_products) in
    let others = cve_signals_kind m cves in
    let both =
      count-append is_threat (signals_of_cve cve (matched_product m cve.matched_products))
        (cve_signals m cves) in
    omega (arith, first, others, both)

add_threat_signals-le :
    (m : MonitorMatch) (articles : List ThreatArticle) (signals : List FusionSignal)
    → length signals < max_threat_vector_signals
    → length (add_threat_signals m articles signals) ≤ max_threat_vector_signals
unfolding add_threat_signals
add_threat_signals-le m [] signals h = omega (arith, h)
add_threat_signals-le m (article ∷ articles) signals h =
    let added = signals ++ (threat_signal m article ∷ []) in
    let one_more = length-append signals (threat_signal m article ∷ []) in
    elim (Bool-cases (is_trending m article)) [
      | inl e ↦ elim (Bool-cases (leb max_threat_vector_signals (length added))) [
        | inl full ↦ rw (e, full) (omega (arith, one_more, h))
        | inr room ↦ rw (e, room) (add_threat_signals-le m articles added (ground (arith, room)))
      ]
      | inr e ↦ rw e (add_threat_signals-le m articles signals h)
    ]

signals_for-capped :
    (sha256 : Text → Text) (articles : List ThreatArticle) (cves : List TrackedCve)
    (m : MonitorMatch)
    → count is_threat (signals_for sha256 articles cves m) ≤ max_threat_vector_signals
unfolding signals_for threat_vector_signals
signals_for-capped sha256 articles cves m =
    let both = count-append is_threat (cve_signals m cves) (add_threat_signals m articles []) in
    let of_cves = cve_signals_kind m cves in
    let counted = count-le is_threat (add_threat_signals m articles []) in
    let capped = add_threat_signals-le m articles [] (omega arith) in
    omega (arith, both, of_cves, counted, capped)

round_tenth_near : (n : ℕ) → (10 * round_tenth n ≤ n + 5) × (n ≤ 10 * round_tenth n + 5)
unfolding round_tenth
round_tenth_near n = ground arith

module _ (sha256 : Text → Text) (articles : List ThreatArticle) (cves : List TrackedCve) where
  -- A finding of one of the matches: its score is a tenth of the match's, to the nearest, and the
  -- weights of its signals, of which there are some, and not too many of the articles.
  pub record IsCorrelated (matches : List MonitorMatch) (f : FusionFinding) : Type 0 where
    pub hit : MonitorMatch
    pub listed : Any (λ m. m ≡ hit) matches
    pub base : ℕ
    pub near : (10 * base ≤ hit.score + 5) × (hit.score ≤ 10 * base + 5)
    pub scored : f.score ≡ base + sum_weights_of f.signals
    pub joined : f.signals ≡ signals_for sha256 articles cves hit
    pub grounded : 1 ≤ length f.signals
    pub capped : count is_threat f.signals ≤ max_threat_vector_signals

  IsCorrelated-later :
      (m : MonitorMatch) (matches : List MonitorMatch) (f : FusionFinding)
      → IsCorrelated matches f
      → IsCorrelated (m ∷ matches) f
  IsCorrelated-later m matches f h = record {
    hit = h.hit;
    listed = there h.listed;
    base = h.base;
    near = h.near;
    scored = h.scored;
    joined = h.joined;
    grounded = h.grounded;
    capped = h.capped;
  }

  findings_of-All :
      (m : MonitorMatch) (matches : List MonitorMatch) (signals : List FusionSignal)
      → signals ≡ signals_for sha256 articles cves m
      → All (IsCorrelated (m ∷ matches)) (findings_of sha256 m signals)
  unfolding findings_of finding_of
  findings_of-All m matches [] same = tt
  findings_of-All m matches (s ∷ signals) same = (
    record {
      hit = m;
      listed = here refl;
      base = round_tenth m.score;
      near = round_tenth_near m.score;
      scored = refl;
      joined = same;
      grounded = omega arith;
      capped = rw same (signals_for-capped sha256 articles cves m);
    },
    tt,
  )

  collect-All :
      (matches : List MonitorMatch)
      → All (IsCorrelated matches) (collect sha256 matches articles cves)
  unfolding collect
  collect-All [] = tt
  collect-All (m ∷ matches) =
      append-All _ (findings_of sha256 m (signals_for sha256 articles cves m)) _
        (findings_of-All m matches (signals_for sha256 articles cves m) refl)
        (All-map (λ f h. IsCorrelated-later m matches f h) _ (collect-All matches))

  -- The finding that a match with a signal must have.
  abbrev pub IsReported : List FusionFinding → MonitorMatch → Type 0
  IsReported findings m =
      1 ≤ length (signals_for sha256 articles cves m)
      → Any (λ f. f ≡ finding_of sha256 m (signals_for sha256 articles cves m)) findings

  findings_of-Any :
      (m : MonitorMatch) (signals : List FusionSignal)
      → 1 ≤ length signals
      → Any (λ f. f ≡ finding_of sha256 m signals) (findings_of sha256 m signals)
  unfolding findings_of
  findings_of-Any m [] h = absurd (omega (arith, h))
  findings_of-Any m (s ∷ signals) h = here refl

  collect-IsReported :
      (matches : List MonitorMatch)
      → All (IsReported (collect sha256 matches articles cves)) matches
  unfolding collect
  collect-IsReported [] = tt
  collect-IsReported (m ∷ matches) = (
    λ some_signal.
        append-Any _ (findings_of sha256 m (signals_for sha256 articles cves m))
          (collect sha256 matches articles cves)
          (findings_of-Any m (signals_for sha256 articles cves m) some_signal),
    All-map
        (λ k h some_signal.
          append_later _ (findings_of sha256 m (signals_for sha256 articles cves m))
            (collect sha256 matches articles cves) (h some_signal))
        matches (collect-IsReported matches),
  )

  pub record IsFeed (matches : List MonitorMatch) (findings : List FusionFinding) : Type 0 where
    pub ranked : IsDescending (λ f. f.score) findings
    pub correlated : All (IsCorrelated matches) findings
    pub complete : All (IsReported findings) matches

  -- The findings stand in the order of their scores, the highest first. Each is of one of the
  -- matches and has its signals, at least one and at most five of articles; its score is a tenth
  -- of the match's score, to the nearest whole number, and the weights of the signals. Every match
  -- that has a signal has its finding.
  pub correlate-IsFeed :
      (matches : List MonitorMatch) → IsFeed matches (correlate sha256 matches articles cves)
  unfolding correlate
  correlate-IsFeed matches = record {
    ranked = order_desc-IsDescending (λ f. f.score) (collect sha256 matches articles cves);
    correlated =
        order_desc-All (λ f. f.score) _ (collect sha256 matches articles cves)
          (collect-All matches);
    complete =
        All-map
          (λ m h some_signal.
            order_desc-Any (λ f. f.score) _ (collect sha256 matches articles cves) (h some_signal))
          matches (collect-IsReported matches);
  }
