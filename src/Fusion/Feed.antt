-- ===== src/Fusion/Feed.antt =====
-- packages/modules/fusion/src/seclab_fusion/service.py: the feed over the stored digests.
use seclab.Prelude.{ℕ, Option, none, some, List, [], ◌∷◌, length, take, order_desc}
use seclab.Prelude.Text.{Text}
use seclab.Security.Models.{Result, ok, err, value_error}
use seclab.Db.Repository.{get_by}
use seclab.Monitor.{MonitorMatch}
use seclab.Fusion.{TrackedCve, ThreatArticle, FusionFinding, correlate}

pub record DigestRun : Type 0 where
  pub digest_id : Text
  pub created_at : ℕ
  pub payload_json : Text

-- a digest, with the articles or CVEs that it lists
pub record Digest (A : Type 0) : Type 0 where
  pub digest_id : Text
  pub items : List A

pub record FusionFeedResponse : Type 0 where
  pub findings : List FusionFinding
  pub monitor_match_count : ℕ
  pub threatlens_digest_id : Option Text
  pub cve_watch_digest_id : Option Text

abbrev pub or_raise : {A : Type 0} → Option A → Result A
or_raise none = err value_error
or_raise (some a) = ok a

abbrev pub then_do : {A B : Type 0} → Result A → (A → Result B) → Result B
then_do (ok a) f = f a
then_do (err e) f = err e

module _ {A : Type 0} (parse : Text → Option (Digest A)) where
  -- `get(digest_id)`
  unfoldable pub get_digest : Text → List DigestRun → Result (Option (Digest A))
  get_digest digest_id runs = elim (get_by (λ r. r.digest_id) digest_id runs) [
    | none ↦ ok none
    | some run ↦ then_do (or_raise (parse run.payload_json)) (λ d. ok (some d))
  ]

  abbrev pub items_of : Option (Digest A) → List A
  items_of none = []
  items_of (some d) = d.items

  -- the id and the items of the digest that `list_recent(limit=1)` gives
  unfoldable pub latest : List DigestRun → Result (Option Text × List A)
  unfolding get_digest
  latest runs = elim (take 1 (order_desc (λ r. r.created_at) runs)) [
    | [] ↦ ok (none, [])
    | run ∷ others ↦ then_do (or_raise (parse run.payload_json)) (λ recent.
        then_do (get_digest recent.digest_id runs) (λ d. ok (some recent.digest_id, items_of d)))
  ]

unfoldable pub get_feed :
    (Text → Text)
    → (Text → Option (Digest ThreatArticle))
    → (Text → Option (Digest TrackedCve))
    → ℕ
    → ℕ
    → List MonitorMatch
    → List DigestRun
    → List DigestRun
    → Result FusionFeedResponse
unfolding latest
get_feed sha256 parse_threats parse_cves limit monitor_limit matches threat_runs cve_runs =
    let monitor_matches = take monitor_limit (order_desc (λ m. m.created_at) matches) in
    then_do (latest parse_threats threat_runs) λ threats.
      then_do (latest parse_cves cve_runs) λ cves. ok (record {
        findings = take limit (correlate sha256 monitor_matches threats.1 cves.1);
        monitor_match_count = length monitor_matches;
        threatlens_digest_id = threats.0;
        cve_watch_digest_id = cves.0;
      })
