-- ===== src/Monitor/Still.antt =====
-- packages/modules/monitor/src/seclab_monitor/pipeline.py: the steps before the commit.
use seclab.Prelude.{
  ℕ, ◌≡◌, ◌⊎◌, refl, ap, ◌∙◌, Option, none, some, List, [], ◌∷◌, Any, there, Bool-cases, inl, inr,
  ◌==◌,
}
use seclab.Prelude.Text.{Text, codes, is_empty, text_eq}
use seclab.Security.Models.{Result, ok, err, EvidenceArtifact}
use seclab.Security.Evidence.{store, store_bytes}
use seclab.Core.Http.{Outcome, done, failed, egress_blocked, http_failure, value_failure}
use seclab.Monitor.{MonitorMatch}
use seclab.Monitor.Capture.{
  CaptureResult, MonitorSettings, Pipe, capture_url, set_status, store_written, store_file,
  store_screenshot, store_html, then_html, store_capture, on_capture, on_check,
}

-- Nothing was committed and nothing published, and the browser visited nothing, or the domain
-- whose address the egress policy permits.
pub record IsQuiet (egress : ℕ → Text → Outcome (Text × Text)) (domain : Text) (before after : Pipe)
    : Type 0 where
  pub uncommitted : after.session.saved ≡ before.session.saved
  pub unpublished : after.world ≡ before.world
  pub no_step : after.steps ≡ before.steps
  pub visits :
      (after.visited ≡ before.visited)
      ⊎ ((after.visited ≡ domain ∷ before.visited)
          × ((n : ℕ) × (to : Text × Text) × (egress n (capture_url domain) ≡ done to)))

-- The matches are the same, but for the capture status of the last one, and no evidence is lost.
pub record IsMarked (before after : Pipe) : Type 0 where
  pub rows : set_status [] after.session.work.matches ≡ set_status [] before.session.work.matches
  pub kept :
      (e : EvidenceArtifact)
      → Any (λ k. k ≡ e) before.session.work.evidence
      → Any (λ k. k ≡ e) after.session.work.evidence

-- Of the steps that leave the browser alone.
pub record IsStill (before after : Pipe) : Type 0 where
  pub uncommitted : after.session.saved ≡ before.session.saved
  pub unpublished : after.world ≡ before.world
  pub no_step : after.steps ≡ before.steps
  pub unvisited : after.visited ≡ before.visited
  pub marked : IsMarked before after

set_status_twice :
    (status : Text) (rows : List MonitorMatch)
    → set_status [] (set_status status rows) ≡ set_status [] rows
unfolding set_status
set_status_twice status [] = refl
set_status_twice status (m ∷ rows) = refl

abbrev pub still : (p : Pipe) → IsStill p p
still p = record {
  uncommitted = refl;
  unpublished = refl;
  no_step = refl;
  unvisited = refl;
  marked = record { rows = refl; kept = λ e m. m };
}

-- One more evidence, and nothing else that is watched.
abbrev with_evidence :
    (p q : Pipe) (rows : q.session.work.matches ≡ p.session.work.matches)
    (kept : (e : EvidenceArtifact)
      → Any (λ k. k ≡ e) p.session.work.evidence
      → Any (λ k. k ≡ e) q.session.work.evidence)
    → IsMarked p q
with_evidence p q rows kept = record { rows = ap (set_status []) rows; kept = kept }

pub IsMarked-next : (p q r : Pipe) → IsMarked p q → IsMarked q r → IsMarked p r
IsMarked-next p q r h k = record { rows = k.rows ∙ h.rows; kept = λ e m. k.kept e (h.kept e m) }

IsStill-next : (p q r : Pipe) → IsStill p q → IsStill q r → IsStill p r
IsStill-next p q r h k = record {
  uncommitted = k.uncommitted ∙ h.uncommitted;
  unpublished = k.unpublished ∙ h.unpublished;
  no_step = k.no_step ∙ h.no_step;
  unvisited = k.unvisited ∙ h.unvisited;
  marked = IsMarked-next p q r h.marked k.marked;
}

module _ (sha256 : Text → Text) (capture : Text → Result CaptureResult)
    (egress : ℕ → Text → Outcome (Text × Text)) (artifact_path : Text → Text → Result Text)
    (write_bytes : Text → Text → Result (Unit {0})) (strftime : ℕ → Text)
    (settings : MonitorSettings) (domain : Text) where
  store_written-IsStill :
      (raw path : Text) (o : Result (Unit {0})) (p : Pipe)
      → IsStill p
          (store_written sha256 capture egress artifact_path write_bytes strftime settings domain
            raw path o p).0
  unfolding store_written store_bytes
  store_written-IsStill raw path (err e) p = still p
  store_written-IsStill raw path (ok u) p = record {
    uncommitted = refl;
    unpublished = refl;
    no_step = refl;
    unvisited = refl;
    marked = with_evidence p _ refl (λ e m. there m);
  }

  store_file-IsStill :
      (raw : Text) (o : Result Text) (p : Pipe)
      → IsStill p
          (store_file sha256 capture egress artifact_path write_bytes strftime settings domain raw o
            p).0
  unfolding store_file
  store_file-IsStill raw (err e) p = still p
  store_file-IsStill raw (ok path) p = store_written-IsStill raw path (write_bytes path raw) p

  store_screenshot-IsStill :
      (timestamp : Text) (raw : Option Text) (p : Pipe)
      → IsStill p
          (store_screenshot sha256 capture egress artifact_path write_bytes strftime settings domain
            timestamp raw p).0
  unfolding store_screenshot
  store_screenshot-IsStill timestamp none p = still p
  store_screenshot-IsStill timestamp (some raw) p = elim (Bool-cases (is_empty raw)) [
    | inl e ↦ rw e (still p)
    | inr e ↦ rw e (store_file-IsStill raw _ p)
  ]

  store_html-IsStill :
      (html : Option Text) (p : Pipe)
      → IsStill p (
          store_html sha256 capture egress artifact_path write_bytes strftime settings domain html
            p)
  unfolding store_html store
  store_html-IsStill none p = still p
  store_html-IsStill (some content) p = elim (Bool-cases (is_empty content)) [
    | inl e ↦ rw e (still p)
    | inr e ↦ rw e (record {
      uncommitted = refl;
      unpublished = refl;
      no_step = refl;
      unvisited = refl;
      marked = with_evidence p _ refl (λ e m. there m);
    })
  ]

  then_html-IsStill :
      (result : CaptureResult) (p : Pipe) (o : Pipe × Result (Unit {0}))
      → IsStill p o.0
      → IsStill p
          (then_html sha256 capture egress artifact_path write_bytes strftime settings domain result
            o).0
  unfolding then_html
  then_html-IsStill result p (q, ok u) h =
      IsStill-next p q _ h (store_html-IsStill result.html_content q)
  then_html-IsStill result p (q, err e) h = h

  abbrev status_set :
      (status : Text) (p q : Pipe)
      (same : q.session.work.matches ≡ set_status status p.session.work.matches)
      (kept : (e : EvidenceArtifact)
        → Any (λ k. k ≡ e) p.session.work.evidence
        → Any (λ k. k ≡ e) q.session.work.evidence)
      → IsMarked p q
  status_set status p q same kept = record {
    rows = ap (set_status []) same ∙ set_status_twice status p.session.work.matches;
    kept = kept;
  }

  store_capture-IsStill :
      (result : CaptureResult) (p : Pipe)
      → IsStill p
          (store_capture sha256 capture egress artifact_path write_bytes strftime settings domain
            result p).0
  unfolding store_capture
  store_capture-IsStill result p = elim (Bool-cases (result.status == codes "captured")) [
    | inl e ↦ rw e (
        then_html-IsStill result p _ (
          IsStill-next p _ _
            (record {
              uncommitted = refl;
              unpublished = refl;
              no_step = refl;
              unvisited = refl;
              marked = status_set result.status p _ refl (λ e m. m);
            })
            (store_screenshot-IsStill _ result.screenshot_bytes _)))
    | inr e ↦ rw e (record {
      uncommitted = refl;
      unpublished = refl;
      no_step = refl;
      unvisited = refl;
      marked = status_set result.status p _ refl (λ e m. m);
    })
  ]

  on_capture-IsStill :
      (p : Pipe) (o : Result CaptureResult)
      → IsStill p
          (on_capture sha256 capture egress artifact_path write_bytes strftime settings domain p
            o).0
  unfolding on_capture
  on_capture-IsStill p (err e) = still p
  on_capture-IsStill p (ok result) = store_capture-IsStill result p

  -- No visit, and the capture status that is set or not.
  unvisited-IsQuiet : (p q : Pipe) → IsStill p q → IsQuiet egress domain p q × IsMarked p q
  unvisited-IsQuiet p q h = (
    record {
      uncommitted = h.uncommitted;
      unpublished = h.unpublished;
      no_step = h.no_step;
      visits = inl h.unvisited;
    },
    h.marked,
  )

  pub on_check-IsQuiet :
      (p : Pipe) (n : ℕ) (o : Outcome (Text × Text))
      → egress n (capture_url domain) ≡ o
      → let q =
          (on_check sha256 capture egress artifact_path write_bytes strftime settings domain p
            o).0 in
        IsQuiet egress domain p q × IsMarked p q
  unfolding on_check
  on_check-IsQuiet p n (failed egress_blocked) e = unvisited-IsQuiet p _ (record {
    uncommitted = refl;
    unpublished = refl;
    no_step = refl;
    unvisited = refl;
    marked = status_set (codes "skipped") p _ refl (λ e m. m);
  })
  on_check-IsQuiet p n (failed http_failure) e = unvisited-IsQuiet p p (still p)
  on_check-IsQuiet p n (failed value_failure) e = unvisited-IsQuiet p p (still p)
  on_check-IsQuiet p n (done to) e =
      let h = on_capture-IsStill (record p { visited = domain ∷ p.visited }) (capture domain) in
      (
        record {
          uncommitted = h.uncommitted;
          unpublished = h.unpublished;
          no_step = h.no_step;
          visits = inr (h.unvisited, (n, to, e));
        },
        record { rows = h.marked.rows; kept = h.marked.kept },
      )
