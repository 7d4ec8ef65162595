-- ===== src/AttackSurface/Persisted.antt =====
-- packages/modules/attack_surface/src/seclab_attack_surface/service.py: what a scan leaves behind.
use seclab.Prelude.{ℕ, ◌≡◌, sym, Bool, Option, none, some, List, arith, Bool-cases, inl, inr}
use seclab.Prelude.Text.{Text, text_eq}
use seclab.Security.Models.{Result, ok, err, ok_injective}
use seclab.Security.Scope.{TargetValidationResult}
use seclab.AttackSurface.{SurfaceScanResult, SurfaceScanRun, SurfaceScanRequest, get}
use seclab.AttackSurface.Kept.{put_result, IsReadBack, get-save}
use seclab.AttackSurface.Service.{
  Contact, Lab, scan_found, scan_validated, persist, run_scan, get_scan,
}

module _ (bracketed_ok : Text → Bool) (fetch : Text → Option (List (List Text)))
    (getaddrinfo : Text → Option (List Text)) (connector : Text → ℕ → Bool) (isoformat : ℕ → Text)
    (dump : SurfaceScanResult → Text) (parse : Text → Option SurfaceScanResult) where
  -- The outcome left the result in the table of the session, if it has one.
  abbrev pub IsPersisted : Lab → Lab × Result SurfaceScanResult → Type 0
  IsPersisted before outcome =
      (rows : List SurfaceScanRun) (r : SurfaceScanResult)
      → before.table ≡ some rows
      → outcome.1 ≡ ok r
      → IsReadBack dump parse r
      → (j : Text) → get_scan parse j outcome.0 ≡ put_result r (λ k. get parse k rows) j

  persist-IsPersisted :
      (before : Lab) (sent : List Contact) (r : SurfaceScanResult)
      → IsPersisted before (
        persist bracketed_ok fetch getaddrinfo connector isoformat dump r
            (record before { sent = sent }),
        ok r,
      )
  unfolding get_scan persist
  persist-IsPersisted before sent r rows r' there_is same inverse j =
      let is_r : r' ≡ r = sym (ok_injective r r' same) in
      rw (there_is, is_r) (get-save dump parse r j rows (rw is_r at inverse))

  module _ (request : SurfaceScanRequest) (scan_id : Text) (created_at : ℕ) (lab : Lab) where
    scan_found-IsPersisted :
        (s : TargetValidationResult) (sent : List Contact) (found : Option (List (List Text)))
        → IsPersisted lab (
            scan_found bracketed_ok fetch getaddrinfo connector isoformat dump request scan_id
              created_at s
              (record lab { sent = sent })
              found)
    unfolding scan_found
    scan_found-IsPersisted s sent none rows r there_is same inverse j =
        absurd (ground (arith, same))
    scan_found-IsPersisted s sent (some observations) rows r there_is same inverse j =
        persist-IsPersisted lab _ _ rows r there_is same inverse j

    scan_validated-IsPersisted :
        (t : Result TargetValidationResult)
        → IsPersisted lab (
            scan_validated bracketed_ok fetch getaddrinfo connector isoformat dump request scan_id
              created_at lab t)
    unfolding scan_validated
    scan_validated-IsPersisted (err e) =
        λ rows r there_is same inverse j. absurd (ground (arith, same))
    scan_validated-IsPersisted (ok s) = elim (Bool-cases s.in_scope) [
      | inl e ↦ rw e (scan_found-IsPersisted s _ (fetch request.domain))
      | inr e ↦ rw e (persist-IsPersisted lab lab.sent _)
    ]

    -- Whatever scan returned a result, in scope or not: where the session has a database, reading
    -- the scan by its id gives this result, and reading any other id gives what it gave before;
    -- if the payload of the result is parsed to the result.
    pub get_scan-run_scan :
        (rows : List SurfaceScanRun) (r : SurfaceScanResult) (j : Text)
        → lab.table ≡ some rows
        → (run_scan bracketed_ok fetch getaddrinfo connector isoformat dump request scan_id
            created_at lab).1
          ≡ ok r
        → IsReadBack dump parse r
        → get_scan parse j
            (run_scan bracketed_ok fetch getaddrinfo connector isoformat dump request scan_id
              created_at lab).0
          ≡ put_result r (λ k. get parse k rows) j
    unfolding run_scan
    get_scan-run_scan rows r j there_is returned inverse =
        scan_validated-IsPersisted _ rows r there_is returned inverse j
