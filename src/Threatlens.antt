-- ===== src/Threatlens.antt =====
-- packages/modules/threatlens/src/seclab_threatlens/vectors.py, and tagging.py of
-- packages/modules/cve_watch/src/seclab_cve_watch: tags by keywords.
pub mod Tagged
use seclab.Prelude.{
  ℕ, Bool, true, false, not, ◌&&◌, List, [], ◌∷◌, ◌++◌, map, select, length, if◌then◌else◌,
}
use seclab.Prelude.Text.{Text, codes, contains, is_empty, lower}
use seclab.Reporting.{join}
use seclab.Phantom.Scoring.{RiskSignal}
use seclab.AttackSurface.{add_ips}

-- a tag with the keywords that it is given for
abbrev pub Row : Type 0
Row = Text × List Text

unfoldable pub vector_keywords : List Row
vector_keywords =
    (codes "ransomware", codes "ransomware" ∷ codes "encrypted files" ∷ codes "extortion" ∷ [])
    ∷ (
      codes "phishing",
      codes "phishing"
          ∷ codes "business email compromise"
          ∷ codes "credential harvesting"
          ∷ codes "bec"
          ∷ [],
    )
    ∷ (
      codes "zero_day",
      codes "zero-day" ∷ codes "zero day" ∷ codes "0-day" ∷ codes "unpatched" ∷ [],
    )
    ∷ (
      codes "supply_chain",
      codes "supply chain"
          ∷ codes "npm package"
          ∷ codes "pypi package"
          ∷ codes "compromised dependency"
          ∷ [],
    )
    ∷ (codes "remote_code_execution", codes "remote code execution" ∷ codes "rce" ∷ [])
    ∷ (codes "ddos", codes "ddos" ∷ codes "denial of service" ∷ [])
    ∷ (
      codes "data_breach",
      codes "data breach" ∷ codes "leaked database" ∷ codes "exposed database" ∷ [],
    )
    ∷ (
      codes "credential_attack",
      codes "credential stuffing"
          ∷ codes "password spraying"
          ∷ codes "stolen credentials"
          ∷ codes "harvests credentials"
          ∷ codes "harvested credentials"
          ∷ codes "credential theft"
          ∷ [],
    )
    ∷ (codes "malware", codes "malware" ∷ codes "trojan" ∷ codes "backdoor" ∷ codes "botnet" ∷ [])
    ∷ (
      codes "cloud_misconfiguration",
      codes "misconfigured" ∷ codes "publicly exposed bucket" ∷ codes "open s3 bucket" ∷ [],
    )
    ∷ []

-- `[kw for kw in keywords if kw in haystack]`
unfoldable pub matched_in : Text → List Text → List Text
matched_in haystack keywords = select (λ k. contains k haystack) keywords

unfoldable pub vector_signal : Text → List Text → RiskSignal
vector_signal vector matched = record {
  code = codes "vector:" ++ vector;
  severity = codes "info";
  reason = codes "Matched keyword(s): " ++ (join (codes ", ") matched ++ codes ".");
  weight = length matched;
  evidence = matched;
}

-- one turn of the loop over the table, in front of what the later ones give
unfoldable pub add_vector :
    Text → List Text → List RiskSignal × List Text → List RiskSignal × List Text
unfolding vector_signal
add_vector vector [] tagged = tagged
add_vector vector (k ∷ matched) (signals, vectors) =
    (vector_signal vector (k ∷ matched) ∷ signals, vector ∷ vectors)

unfoldable pub tag_by : List Row → Text → List RiskSignal × List Text
unfolding add_vector matched_in
tag_by [] haystack = ([], [])
tag_by ((vector, keywords) ∷ rows) haystack =
    add_vector vector (matched_in haystack keywords) (tag_by rows haystack)

-- `tag_article`, of the title and the summary
unfoldable pub tag_article : Text → Text → List RiskSignal × List Text
unfolding tag_by
tag_article title summary = tag_by vector_keywords (lower (title ++ (b' ' ∷ summary)))

pub record WatchedProduct : Type 0 where
  pub vendor : Text
  pub product : Text

unfoldable pub hits_of : Text → WatchedProduct → List Text
hits_of haystack w =
    select (λ k. not (is_empty k) && contains (lower k) haystack) (w.vendor ∷ w.product ∷ [])

unfoldable pub watch_signal : WatchedProduct → List Text → RiskSignal
watch_signal w hits = record {
  code = codes "watchlist:" ++ (w.vendor ++ (b'/' ∷ w.product));
  severity = codes "info";
  reason =
      codes "Matched watchlist entry via keyword(s): " ++ (join (codes ", ") hits ++ codes ".");
  weight = length hits;
  evidence = hits;
}

-- one turn of the loop over the watchlist
unfoldable pub add_watched :
    WatchedProduct → List Text → List RiskSignal × List Text → List RiskSignal × List Text
unfolding watch_signal
add_watched w [] tagged = tagged
add_watched w (k ∷ hits) (signals, names) =
    (watch_signal w (k ∷ hits) ∷ signals, (k ∷ hits) ++ names)

unfoldable pub tag_watched : List WatchedProduct → Text → List RiskSignal × List Text
unfolding add_watched hits_of
tag_watched [] haystack = ([], [])
tag_watched (w ∷ watchlist) haystack =
    add_watched w (hits_of haystack w) (tag_watched watchlist haystack)

-- `tag_cve`, of the description and the products of the entry; every name once
unfoldable pub tag_cve : Text → List Text → List WatchedProduct → List RiskSignal × List Text
unfolding tag_watched
tag_cve description matched_products watchlist =
    let (signals, names) =
      tag_watched watchlist (lower (description ++ (b' ' ∷ join (b' ' ∷ []) matched_products))) in
    (signals, add_ips names [])
