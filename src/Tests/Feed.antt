-- ===== src/Tests/Feed.antt =====
-- A match of the certificate stream, the alert for it, and the feed that joins it with the rest.
use seclab.Prelude.{ℕ, true, none, some, List, [], ◌∷◌, ◌++◌}
use seclab.Prelude.Text.{Text, codes, lower}
use seclab.Security.Models
use seclab.Security.Models.{Result, ok, Json}
use seclab.Core.Http.{Outcome, done}
use seclab.Core.Events.{Event, World}
use seclab.Phantom.Scoring.{RiskSignal, DomainInfrastructure}
use seclab.Monitor.{MonitorMatch}
use seclab.Monitor.Listener.{sanitize_filename}
use seclab.Monitor.Capture.{CaptureResult, MonitorSettings, Pipe}
use seclab.Monitor.Pipeline.{handle_match}
use seclab.Monitor.Watched.{IsHandled, handle_match-IsHandled}
use seclab.Monitor.Artifact.{IsSafeName, sanitize_filename-IsSafeName}
use seclab.Fusion.{TrackedCve, ThreatArticle, correlate}
use seclab.Fusion.Correlated.{IsFeed, correlate-IsFeed}
use seclab.Phantom.Discovery.{
  TargetType, TargetRequest, build_target_profile, generate_domain_variants,
}
use seclab.Phantom.Service.{analyze}
use seclab.Phantom.Ranked.{IsRanking, analyze-IsRanking}
use seclab.Threatlens.{vector_keywords, tag_article}
use seclab.Threatlens.Tagged.{IsTagged, tag_article-IsTagged}
use seclab.Tests.Data.{digest, empty_store}
use seclab.Tests.Http.{idle}

abbrev match_with : Text → ℕ → MonitorMatch
match_with keyword score = record {
  domain = codes "login.acme.example";
  issuer = codes "issuer";
  matched_keyword = keyword;
  technique = codes "live-ct-match";
  score = score;
  priority = codes "medium";
  score_rationale = [];
  capture_status = codes "skipped";
  created_at = 5;
}

abbrev articles : List ThreatArticle
articles =
    record {
      title = codes "ACME under attack";
      source = codes "news";
      summary = [];
      vectors = codes "phishing" ∷ [];
    }
    ∷ []

abbrev cves : List TrackedCve
cves =
    record {
      cve_id = codes "CVE-2025-1";
      is_actively_exploited = true;
      matched_products = codes "acme server" ∷ [];
    }
    ∷ []

abbrev two_matches : List MonitorMatch
two_matches = match_with (codes "acme") 45 ∷ match_with (codes "other") 90 ∷ []

correlate-IsFeed_example :
    IsFeed digest articles cves two_matches (correlate digest two_matches articles cves)
correlate-IsFeed_example = correlate-IsFeed digest articles cves two_matches

abbrev enrich : Text → Result DomainInfrastructure
enrich domain =
    ok (record { rdap_org = none; ip_addresses = codes "8.8.8.8" ∷ []; reputation_tags = [] })

abbrev capture : Text → Result CaptureResult
capture domain = ok (record {
  status = codes "captured";
  screenshot_bytes = some (codes "png");
  html_content = none;
})

abbrev egress : ℕ → Text → Outcome (Text × Text)
egress n url = done (codes "login.acme.example", codes "8.8.8.8")

abbrev artifact_path : Text → Text → Result Text
artifact_path directory name = ok (directory ++ name)

abbrev write_bytes : Text → Text → Result (Unit {0})
write_bytes path raw = ok tt

abbrev strftime : ℕ → Text
strftime t = codes "20250101_000000"

abbrev dump : List RiskSignal → Json
dump signals = Models.null

abbrev announce : Event → World → World
announce e w = record w { logged = e ∷ w.logged }

abbrev settings : MonitorSettings
settings = record { capture_enabled = true; capture_artifact_dir = codes "/var/artifacts/" }

abbrev start : Pipe
start = record {
  session = record { work = empty_store; saved = empty_store; clock = λ n. n; ticks = 0 };
  world = record { logged = []; posted = []; called = []; wire = idle };
  lookups = 0;
  visited = [];
  written = [];
  steps = [];
}

handle_match-IsHandled_example :
    IsHandled digest enrich capture egress artifact_path write_bytes strftime dump announce settings
      (codes "login.acme.example")
      (codes "issuer")
      (codes "acme")
      3
      (codes "now")
      start
      (handle_match digest enrich capture egress artifact_path write_bytes strftime dump announce
        settings
        (codes "login.acme.example")
        (codes "issuer")
        (codes "acme")
        3
        (codes "now")
        start)
handle_match-IsHandled_example =
    handle_match-IsHandled digest enrich capture egress artifact_path write_bytes strftime dump
      announce settings (codes "login.acme.example") (codes "issuer") (codes "acme") 3 (codes "now")
      start

sanitize_filename-IsSafeName_example : IsSafeName (sanitize_filename (codes "../../etc/passwd"))
sanitize_filename-IsSafeName_example = sanitize_filename-IsSafeName (codes "../../etc/passwd")

tag_article-IsTagged_example :
    IsTagged vector_keywords
      (lower (codes "Open source" ++ (b' ' ∷ codes "A zero-day")))
      (tag_article (codes "Open source") (codes "A zero-day"))
tag_article-IsTagged_example = tag_article-IsTagged (codes "Open source") (codes "A zero-day")

abbrev some_host : Text → DomainInfrastructure × Text
some_host domain = (
  record { rdap_org = none; ip_addresses = codes "192.0.2.7" ∷ []; reputation_tags = [] },
  codes "composite-enrichment",
)

abbrev no_certificates : Text → List Text
no_certificates domain = []

abbrev acme : TargetRequest
acme = record { target = codes "Acme.com "; target_type = TargetType.domain }

analyze-IsRanking_example :
    IsRanking no_certificates some_host
      (generate_domain_variants (build_target_profile acme) 10)
      (analyze no_certificates some_host acme 10)
analyze-IsRanking_example = analyze-IsRanking no_certificates some_host acme 10
