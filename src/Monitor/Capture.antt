-- ===== src/Monitor/Capture.antt =====
-- packages/modules/monitor/src/seclab_monitor/pipeline.py: what a match leaves, and
-- `_capture_and_store`. `capture` stands for the headless browser, `artifact_path` for pathlib's
-- path of a name in a directory that is made if it is not there, `write_bytes` for the method of
-- `Path` and `strftime` for that of `datetime`; all but the last may raise an exception, as an
-- `err`. `egress` is the check of Core/Http, given how many name look-ups were made before.
use seclab.Prelude.{
  ℕ, suc, ◌+◌, Bool, Option, none, some, List, [], ◌∷◌, ◌++◌, ◌==◌, ◌||◌, if◌then◌else◌, nat_eq,
}
use seclab.Prelude.Text.{Text, codes, is_empty, starts_with, text_eq}
use seclab.Security.Models.{Result, ok, err, value_error}
use seclab.Security.Evidence.{store, store_bytes}
use seclab.Db.{Store, Session}
use seclab.Core.Http.{Outcome, done, failed, egress_blocked, http_failure, value_failure}
use seclab.Core.Events.{Event, World, replace_char}
use seclab.Monitor.{MonitorMatch}
use seclab.Monitor.Listener.{sanitize_filename}

pub record CaptureResult : Type 0 where
  pub status : Text
  pub screenshot_bytes : Option Text
  pub html_content : Option Text

pub record MonitorSettings : Type 0 where
  pub capture_enabled : Bool
  pub capture_artifact_dir : Text

-- a commit, with the tables that it made permanent, or an event that was published
pub data Step : Type 0 where
  committed : Store → Step
  published : Event → Step

-- The session, the event bus, the domains that the browser visited, the files that were written,
-- and the commits and events in their order, the newest first.
pub record Pipe : Type 0 where
  pub session : Session
  pub world : World
  pub lookups : ℕ
  pub visited : List Text
  pub written : List (Text × Text)
  pub steps : List Step

-- `domain if domain.startswith(("http://", "https://")) else f"http://{domain}"`
unfoldable pub capture_url : Text → Text
capture_url domain =
    if starts_with (codes "http://") domain || starts_with (codes "https://") domain
    then domain
    else codes "http://" ++ domain

-- `match.capture_status = status`, on the row that was added last
unfoldable pub set_status : Text → List MonitorMatch → List MonitorMatch
set_status status [] = []
set_status status (m ∷ rows) = record m { capture_status = status } ∷ rows

abbrev pub in_session : (Session → Session) → Pipe → Pipe
in_session f p = record p { session = f p.session }

module _ (sha256 : Text → Text) (capture : Text → Result CaptureResult)
    (egress : ℕ → Text → Outcome (Text × Text)) (artifact_path : Text → Text → Result Text)
    (write_bytes : Text → Text → Result (Unit {0})) (strftime : ℕ → Text)
    (settings : MonitorSettings) where
  -- the evidence of a file, by how the writing of it ended
  unfoldable pub store_written :
      Text → Text → Text → Result (Unit {0}) → Pipe → Pipe × Result (Unit {0})
  store_written domain raw path (err e) p = (p, err e)
  store_written domain raw path (ok u) p = (
    in_session
        (λ s.
          (store_bytes sha256 (codes "monitor") (codes "domain") domain (codes "screenshot") raw
            path [] s).0)
        (record p { written = (path, raw) ∷ p.written }),
    ok tt,
  )

  -- `write_artifact` and the evidence of the file, by its path
  unfoldable pub store_file : Text → Text → Result Text → Pipe → Pipe × Result (Unit {0})
  unfolding store_written
  store_file domain raw (err e) p = (p, err e)
  store_file domain raw (ok path) p = store_written domain raw path (write_bytes path raw) p

  -- the screenshot, unless it is empty
  unfoldable pub store_screenshot : Text → Text → Option Text → Pipe → Pipe × Result (Unit {0})
  unfolding store_file
  store_screenshot domain timestamp none p = (p, ok tt)
  store_screenshot domain timestamp (some raw) p =
      let name =
        replace_char b'*' (codes "wildcard") domain ++ (b'_' ∷ (timestamp ++ codes ".png")) in
      if is_empty raw
      then (p, ok tt)
      else store_file domain raw
          (artifact_path settings.capture_artifact_dir (sanitize_filename name)) p

  -- the HTML, unless it is empty
  unfoldable pub store_html : Text → Option Text → Pipe → Pipe
  store_html domain none p = p
  store_html domain (some content) p =
      if is_empty content
      then p
      else in_session
          (λ s.
            (store sha256 (codes "monitor") (codes "domain") domain (codes "html_dump") content
              (codes "text") none [] s).0)
          p

  -- what follows the screenshot; a ValueError is passed on
  unfoldable pub then_html :
      Text → CaptureResult → Pipe × Result (Unit {0}) → Pipe × Result (Unit {0})
  unfolding store_html
  then_html domain result (p, ok u) = (store_html domain result.html_content p, ok u)
  then_html domain result (p, err e) = (p, err e)

  -- the part of `_capture_and_store` behind the browser
  unfoldable pub store_capture : Text → CaptureResult → Pipe → Pipe × Result (Unit {0})
  unfolding store_screenshot then_html set_status
  store_capture domain result p =
      let marked =
        in_session
          (λ s. record s {
            work = record s.work { matches = set_status result.status s.work.matches };
          })
          p in
      let timestamp = strftime (p.session.clock p.session.ticks) in
      let timed = in_session (λ s. record s { ticks = s.ticks + 1 }) marked in
      let stored =
        then_html domain result (store_screenshot domain timestamp result.screenshot_bytes timed) in
      if result.status == codes "captured" then stored else (marked, ok tt)

  -- the part of `_capture_and_store` behind the egress check
  unfoldable pub on_capture : Text → Pipe → Result CaptureResult → Pipe × Result (Unit {0})
  unfolding store_capture
  on_capture domain p (err e) = (p, err e)
  on_capture domain p (ok result) = store_capture domain result p

  -- `_capture_and_store`, by the answer of the egress check
  unfoldable pub on_check : Text → Pipe → Outcome (Text × Text) → Pipe × Result (Unit {0})
  unfolding on_capture set_status
  on_check domain p (failed egress_blocked) = (
    in_session
        (λ s. record s {
          work = record s.work { matches = set_status (codes "skipped") s.work.matches };
        })
        p,
    ok tt,
  )
  on_check domain p (failed http_failure) = (p, err value_error)
  on_check domain p (failed value_failure) = (p, err value_error)
  on_check domain p (done to) =
      on_capture domain (record p { visited = domain ∷ p.visited }) (capture domain)

  unfoldable pub capture_and_store : Text → Pipe → Pipe × Result (Unit {0})
  unfolding on_check capture_url
  capture_and_store domain p =
      on_check domain (record p { lookups = suc p.lookups }) (egress p.lookups (capture_url domain))
