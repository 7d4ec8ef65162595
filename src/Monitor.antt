-- ===== src/Monitor.antt =====
-- packages/modules/monitor/src/seclab_monitor/models.py: a match of a certificate with a keyword.
pub mod Listener
pub mod Capture
pub mod Pipeline
pub mod Row
pub mod Still
pub mod Watched
pub mod Artifact
use seclab.Prelude.{ℕ}
use seclab.Prelude.Text.{Text}

pub record MonitorMatch : Type 0 where
  pub domain : Text
  pub issuer : Text
  pub matched_keyword : Text
  pub technique : Text
  pub score : ℕ
  pub priority : Text
  pub score_rationale : Text
  pub capture_status : Text
  pub created_at : ℕ
