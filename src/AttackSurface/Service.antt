-- ===== src/AttackSurface/Service.antt =====
-- packages/modules/attack_surface/src/seclab_attack_surface/service.py: one scan. `fetch` stands
-- for the certificate transparency provider, with `none` for an exception. The session of the
-- database is there or is not. What is sent over the network is a list of contacts, the newest
-- first; of the ports of a host, which are probed at once, the list has the order of
-- `COMMON_PORTS`.
use mathlib.Core.Option
use seclab.Prelude.{
  ℕ, Bool, true, false, Option, none, some, List, [], ◌∷◌, length, ltb, leb, nat_beq, ◌&&◌,
  if◌then◌else◌,
}
use seclab.Prelude.Sorted.{sorted}
use seclab.Prelude.Text.{Text, codes, strip, lower, drop_while, is_empty, text_eq}
use seclab.Security.Models
use seclab.Security.Models.{Result, ok, err, value_error, http_error, Json}
use seclab.Security.Scope.{TargetValidationResult}
use seclab.Security.Scope.Guard.{validate_target_in_scope}
use seclab.AttackSurface.{
  DiscoveredHost, SurfaceScanRequest, SurfaceScanResult, SurfaceScanRun, SurfaceScanListItem,
  add_new, common_ports, tag_open_ports, resolve_hostname, probe_ports, count_tags, save, get,
  list_recent,
}
use seclab.AttackSurface.Report.{build_markdown_report}

pub data Contact : Type 0 where
  ct_fetch : Text → Contact
  name_lookup : Text → Contact
  port_probe : Text → ℕ → Contact

pub record Lab : Type 0 where
  pub sent : List Contact
  pub table : Option (List SurfaceScanRun)

-- `c in "*."`
unfoldable pub is_wildcard_char : ℕ → Bool
is_wildcard_char c = if nat_beq c b'*' then true else nat_beq c b'.'

-- `identity.strip().lower().lstrip("*.")`
unfoldable pub cleaned : Text → Text
unfolding is_wildcard_char
cleaned identity = drop_while is_wildcard_char (lower (strip identity))

-- the loop over the identities of one observation
unfoldable pub add_identities : List Text → List Text → List Text
unfolding cleaned
add_identities [] hostnames = hostnames
add_identities (identity ∷ identities) hostnames =
    add_identities identities
      (if is_empty (cleaned identity) then hostnames else add_new (cleaned identity) hostnames)

-- the loop over the observations, each with its `matching_identities`
unfoldable pub add_observations : List (List Text) → List Text → List Text
unfolding add_identities
add_observations [] hostnames = hostnames
add_observations (identities ∷ observations) hostnames =
    add_observations observations (add_identities identities hostnames)

-- `_extract_hostnames`
unfoldable pub extract_hostnames : Text → List (List Text) → List Text
unfolding add_observations
extract_hostnames domain observations = add_observations observations (domain ∷ [])

-- the connection attempts of `probe_ports`
unfoldable pub add_probes : Text → List ℕ → List Contact → List Contact
add_probes host [] sent = sent
add_probes host (p ∷ ports) sent = add_probes host ports (port_probe host p ∷ sent)

module _ (getaddrinfo : Text → Option (List Text)) (connector : Text → ℕ → Bool) where
  unfoldable pub discovered_host : Text → DiscoveredHost
  discovered_host hostname =
      let open_ports = probe_ports connector common_ports hostname in
      record {
        hostname = hostname;
        ip_addresses = resolve_hostname getaddrinfo hostname;
        open_ports = sorted ltb open_ports;
        unexpected_exposure_tags = tag_open_ports open_ports;
      }

  -- the loop over the hostnames
  unfoldable pub survey : List Text → List Contact → List Contact × List DiscoveredHost
  unfolding discovered_host add_probes
  survey [] sent = (sent, [])
  survey (hostname ∷ hostnames) sent =
      let (after, hosts) =
        survey hostnames (add_probes hostname common_ports (name_lookup hostname ∷ sent)) in
      (after, discovered_host hostname ∷ hosts)

module _ (bracketed_ok : Text → Bool) (fetch : Text → Option (List (List Text)))
    (getaddrinfo : Text → Option (List Text)) (connector : Text → ℕ → Bool) (isoformat : ℕ → Text)
    (dump : SurfaceScanResult → Text) where
  unfoldable pub with_report : SurfaceScanResult → SurfaceScanResult
  with_report result = record result { report_markdown = build_markdown_report isoformat result }

  -- `_persist`
  unfoldable pub persist : SurfaceScanResult → Lab → Lab
  persist result lab = record lab { table = Option.map (save dump result) lab.table }

  unfoldable pub scan_blocked :
      SurfaceScanRequest → Text → ℕ → TargetValidationResult → SurfaceScanResult
  unfolding with_report
  scan_blocked request scan_id created_at scope_result = with_report (record {
    scan_id = scan_id;
    created_at = created_at;
    domain = request.domain;
    in_scope = false;
    hosts = [];
    report_markdown = [];
    metadata =
        (codes "scope_code", Models.text scope_result.code)
        ∷ (codes "scope_message", Models.text scope_result.message)
        ∷ [];
  })

  unfoldable pub scan_completed :
      SurfaceScanRequest
      → Text
      → ℕ
      → TargetValidationResult
      → List DiscoveredHost
      → SurfaceScanResult
  unfolding with_report
  scan_completed request scan_id created_at scope_result hosts = with_report (record {
    scan_id = scan_id;
    created_at = created_at;
    domain = request.domain;
    in_scope = true;
    hosts = hosts;
    report_markdown = [];
    metadata =
        (codes "scope_code", Models.text scope_result.code)
        ∷ (codes "host_count", Models.number (length hosts))
        ∷ (codes "exposure_tag_count", Models.number (count_tags hosts))
        ∷ [];
  })

  -- `run_scan` behind the answer of the provider
  unfoldable pub scan_found :
      SurfaceScanRequest
      → Text
      → ℕ
      → TargetValidationResult
      → Lab
      → Option (List (List Text))
      → Lab × Result SurfaceScanResult
  unfolding survey extract_hostnames scan_completed persist
  scan_found request scan_id created_at scope_result lab none = (lab, err value_error)
  scan_found request scan_id created_at scope_result lab (some observations) =
      let (sent, hosts) =
        survey getaddrinfo connector (extract_hostnames request.domain observations) lab.sent in
      let result = scan_completed request scan_id created_at scope_result hosts in
      (persist result (record lab { sent = sent }), ok result)

  -- `run_scan` behind the scope check
  unfoldable pub scan_validated :
      SurfaceScanRequest
      → Text
      → ℕ
      → Lab
      → Result TargetValidationResult
      → Lab × Result SurfaceScanResult
  unfolding scan_found scan_blocked
  scan_validated request scan_id created_at lab (err e) = (lab, err e)
  scan_validated request scan_id created_at lab (ok scope_result) =
      let fetched : Lab = record lab { sent = ct_fetch request.domain ∷ lab.sent } in
      let blocked = scan_blocked request scan_id created_at scope_result in
      if scope_result.in_scope
      then scan_found request scan_id created_at scope_result fetched (fetch request.domain)
      else (persist blocked lab, ok blocked)

  unfoldable pub run_scan : SurfaceScanRequest → Text → ℕ → Lab → Lab × Result SurfaceScanResult
  unfolding scan_validated
  run_scan request scan_id created_at lab =
      scan_validated request scan_id created_at lab
        (validate_target_in_scope bracketed_ok request.scope_policy request.domain (codes "domain"))

module _ (parse : Text → Option SurfaceScanResult) where
  unfoldable pub get_scan : Text → Lab → Option SurfaceScanResult
  get_scan scan_id lab = elim lab.table [ none ↦ none | some rows ↦ get parse scan_id rows ]

  unfoldable pub list_recent_scans : ℕ → Lab → List SurfaceScanListItem
  list_recent_scans limit lab = elim lab.table [ none ↦ [] | some rows ↦ list_recent limit rows ]

  -- the routes: `GET /scans`, whose limit is checked first, and `GET /scans/{scan_id}`
  unfoldable pub list_scans : ℕ → Lab → Result (List SurfaceScanListItem)
  unfolding list_recent_scans
  list_scans limit lab =
      if leb 1 limit && leb limit 50
      then ok (list_recent_scans limit lab)
      else err (http_error 422 (codes "limit"))

  unfoldable pub read_scan : Text → Lab → Result SurfaceScanResult
  unfolding get_scan
  read_scan scan_id lab = elim (get_scan scan_id lab) [
    | none ↦ err (http_error 404 (codes "scan not found"))
    | some result ↦ ok result
  ]
