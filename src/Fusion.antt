-- ===== src/Fusion.antt =====
-- packages/modules/fusion/src/seclab_fusion: correlation.py, models.py and service.py. `sha256` is
-- the hex digest of hashlib. Of the articles, CVEs and digests of the other modules only the
-- fields that are read here are kept; a digest is stored as its payload, which `parse` reads, with
-- `none` for an exception. The needles are a set, of which any element may match a product; here
-- the keyword is tried first.
pub mod Correlated
pub mod Feed
use seclab.Prelude.{
  ℕ, suc, ◌+◌, ◌/◌, ◌%◌, Bool, true, false, Option, none, some, List, [], ◌∷◌, ◌++◌, map, any, find,
  select, take, length, leb, ltb, order_desc, ◌==◌, not, ◌&&◌, if◌then◌else◌,
}
use seclab.Prelude.Text.{Text, codes, contains, decimal, is_empty, lower, strip, text_eq}
use seclab.Security.Models.{Result, ok, err, value_error}
use seclab.Db.Repository.{get_by}
use seclab.Reporting.{join}
use seclab.Monitor.{MonitorMatch}

pub record TrackedCve : Type 0 where
  pub cve_id : Text
  pub is_actively_exploited : Bool
  pub matched_products : List Text

pub record ThreatArticle : Type 0 where
  pub title : Text
  pub source : Text
  pub summary : Text
  pub vectors : List Text

pub data SignalKind : Type 0 where
  exploited_cve cve_match threat_vector : SignalKind

pub record FusionSignal : Type 0 where
  pub source_module : Text
  pub kind : SignalKind
  pub label : Text
  pub detail : Text
  pub severity : Text

pub record FusionFinding : Type 0 where
  pub id : Text
  pub title : Text
  pub score : ℕ
  pub signals : List FusionSignal
  pub rationale : Text

unfoldable pub weight_by_kind : SignalKind → ℕ
weight_by_kind exploited_cve = 3
weight_by_kind cve_match = 1
weight_by_kind threat_vector = 1

unfoldable pub kind_text : SignalKind → Text
kind_text exploited_cve = codes "exploited_cve"
kind_text cve_match = codes "cve_match"
kind_text threat_vector = codes "threat_vector"

abbrev pub max_threat_vector_signals : ℕ
max_threat_vector_signals = 5

unfoldable pub keyword_in_text : Text → Text → Bool
keyword_in_text keyword text =
    not (is_empty keyword) && (not (is_empty text) && contains (lower keyword) (lower text))

-- the first product that some needle is in
unfoldable pub matched_product : MonitorMatch → List Text → Option Text
unfolding keyword_in_text
matched_product m products =
    find (λ p. any (λ n. keyword_in_text n p) (m.matched_keyword ∷ m.domain ∷ [])) products

unfoldable pub cve_signal : TrackedCve → Text → FusionSignal
cve_signal cve product =
    if cve.is_actively_exploited
    then record {
      source_module = codes "cve_watch";
      kind = exploited_cve;
      label = codes "Actively exploited CVE matches product '" ++ (product ++ codes "'");
      detail =
          cve.cve_id
          ++ (codes " (CISA KEV) matches product '"
              ++ (product ++ codes "', correlated via monitor keyword/domain."));
      severity = codes "critical";
    }
    else record {
      source_module = codes "cve_watch";
      kind = cve_match;
      label = codes "Tracked CVE matches product '" ++ (product ++ codes "'");
      detail =
          cve.cve_id
          ++ (codes " matches product '"
              ++ (product ++ codes "', correlated via monitor keyword/domain."));
      severity = codes "medium";
    }

-- the signals of one CVE, none or one
unfoldable pub signals_of_cve : TrackedCve → Option Text → List FusionSignal
unfolding cve_signal
signals_of_cve cve none = []
signals_of_cve cve (some product) = cve_signal cve product ∷ []

unfoldable pub cve_signals : MonitorMatch → List TrackedCve → List FusionSignal
unfolding signals_of_cve matched_product
cve_signals m [] = []
cve_signals m (cve ∷ tracked_cves) =
    signals_of_cve cve (matched_product m cve.matched_products) ++ cve_signals m tracked_cves

unfoldable pub threat_signal : MonitorMatch → ThreatArticle → FusionSignal
threat_signal m article =
    let vector_names = join (codes ", ") article.vectors in
    record {
      source_module = codes "threatlens";
      kind = threat_vector;
      label = codes "Trending vector(s): " ++ vector_names;
      detail =
          codes "Article '"
          ++ (article.title
              ++ (codes "' ("
                  ++ (article.source
                      ++ (codes ") tags vector(s) "
                          ++ (vector_names
                              ++ (codes ", matched via monitor keyword '"
                                  ++ (m.matched_keyword ++ codes "'.")))))));
      severity = codes "medium";
    }

-- the two tests that skip an article
unfoldable pub is_trending : MonitorMatch → ThreatArticle → Bool
unfolding keyword_in_text
is_trending m article =
    let text = article.title ++ (b' ' ∷ article.summary) in
    elim article.vectors [ [] ↦ false | v ∷ vs ↦ keyword_in_text m.matched_keyword text ]

-- the loop over the articles, with the signals so far
unfoldable pub add_threat_signals :
    MonitorMatch → List ThreatArticle → List FusionSignal → List FusionSignal
unfolding threat_signal is_trending
add_threat_signals m [] signals = signals
add_threat_signals m (article ∷ articles) signals =
    let skipped = add_threat_signals m articles signals in
    let added = signals ++ (threat_signal m article ∷ []) in
    let more = add_threat_signals m articles added in
    if is_trending m article
    then (if leb max_threat_vector_signals (length added) then added else more)
    else skipped

unfoldable pub threat_vector_signals : MonitorMatch → List ThreatArticle → List FusionSignal
unfolding add_threat_signals
threat_vector_signals m articles = add_threat_signals m articles []

-- `round(n / 10)`, which rounds a half to the even neighbour
unfoldable pub round_tenth : ℕ → ℕ
round_tenth n =
    if ltb (n % 10) 5
    then n / 10
    else if ltb 5 (n % 10)
    then suc (n / 10)
    else n / 10 + (n / 10) % 2

unfoldable pub sum_weights_of : List FusionSignal → ℕ
unfolding weight_by_kind
sum_weights_of [] = 0
sum_weights_of (s ∷ signals) = weight_by_kind s.kind + sum_weights_of signals

module _ (sha256 : Text → Text) where
  unfoldable pub finding_id : Text → Text
  finding_id domain = take 16 (sha256 (lower (strip domain)))

  unfoldable pub finding_of : MonitorMatch → List FusionSignal → FusionFinding
  unfolding kind_text sum_weights_of round_tenth finding_id
  finding_of m signals =
      let base_score = round_tenth m.score in
      record {
        id = finding_id m.domain;
        title = m.domain ++ (codes " (keyword '" ++ (m.matched_keyword ++ codes "')"));
        score = base_score + sum_weights_of signals;
        signals = signals;
        rationale = join (codes " + ") (
            (codes "monitor_score/10 (" ++ (decimal base_score ++ codes ")"))
            ∷ map
                (λ s.
                  kind_text s.kind
                  ++ (codes " (" ++ (decimal (weight_by_kind s.kind) ++ (codes "): " ++ s.detail))))
                signals);
      }

  -- the finding of one match, if it has a signal
  unfoldable pub findings_of : MonitorMatch → List FusionSignal → List FusionFinding
  unfolding finding_of
  findings_of m [] = []
  findings_of m (s ∷ signals) = finding_of m (s ∷ signals) ∷ []

  unfoldable pub signals_for :
      List ThreatArticle → List TrackedCve → MonitorMatch → List FusionSignal
  unfolding cve_signals threat_vector_signals
  signals_for articles tracked_cves m =
      cve_signals m tracked_cves ++ threat_vector_signals m articles

  -- the loop over the matches
  unfoldable pub collect :
      List MonitorMatch → List ThreatArticle → List TrackedCve → List FusionFinding
  unfolding findings_of signals_for
  collect [] articles tracked_cves = []
  collect (m ∷ matches) articles tracked_cves =
      findings_of m (signals_for articles tracked_cves m) ++ collect matches articles tracked_cves

  unfoldable pub correlate :
      List MonitorMatch → List ThreatArticle → List TrackedCve → List FusionFinding
  unfolding collect
  correlate matches articles tracked_cves =
      order_desc (λ f. f.score) (collect matches articles tracked_cves)
