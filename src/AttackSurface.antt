-- ===== src/AttackSurface.antt =====
-- packages/modules/attack_surface/src/seclab_attack_surface: models.py, tagging.py, probing.py
-- and db.py. A scan's clock and its `uuid4` are arguments. `getaddrinfo` stands for the event
-- loop's, with `none` for an `OSError`; `connector` for the TCP connection attempt, which
-- `default_connector` answers with a truth value whatever happens.
pub mod Report
pub mod Service
pub mod Gated
pub mod Probed
pub mod Named
pub mod Kept
pub mod Persisted
pub mod Honest
use seclab.Prelude.{
  ℕ, Bool, true, false, Option, none, some, List, [], ◌∷◌, ◌++◌, ◌+◌, map, any, select, take,
  length, order_desc, ◌==◌, if◌then◌else◌, nat_eq,
}
use seclab.Prelude.Text.{Text, codes, text_eq}
use seclab.Security.Models.{Json}
use seclab.Security.Scope.{ProgramPolicy}
use seclab.Db.Repository.{get_by, save_by}

pub record DiscoveredHost : Type 0 where
  pub hostname : Text
  pub ip_addresses : List Text
  pub open_ports : List ℕ
  pub unexpected_exposure_tags : List Text

pub record SurfaceScanRequest : Type 0 where
  pub domain : Text
  pub scope_policy : ProgramPolicy

pub record SurfaceScanResult : Type 0 where
  pub scan_id : Text
  pub created_at : ℕ
  pub domain : Text
  pub in_scope : Bool
  pub hosts : List DiscoveredHost
  pub report_markdown : Text
  pub metadata : List (Text × Json)

pub record SurfaceScanListItem : Type 0 where
  pub scan_id : Text
  pub created_at : ℕ
  pub domain : Text
  pub in_scope : Bool
  pub host_count : ℕ
  pub exposure_tag_count : ℕ

-- `item not in items` and `items.append(item)`
unfoldable pub add_new : Text → List Text → List Text
add_new item items = if any (λ i. i == item) items then items else items ++ (item ∷ [])

abbrev pub common_ports : List ℕ
common_ports = 80 ∷ 443 ∷ 22 ∷ 21 ∷ 3389 ∷ []

abbrev pub exposure_tags : List (ℕ × Text)
exposure_tags =
    (21, codes "ftp-exposed") ∷ (23, codes "telnet-exposed") ∷ (3389, codes "rdp-exposed") ∷ []

unfoldable pub tag_open_ports : List ℕ → List Text
tag_open_ports open_ports =
    map (λ row. row.1) (select (λ row. any (λ p. p == row.0) open_ports) exposure_tags)

-- the addresses of `getaddrinfo`, each once
unfoldable pub add_ips : List Text → List Text → List Text
unfolding add_new
add_ips [] ips = ips
add_ips (item ∷ results) ips = add_ips results (add_new item ips)

-- `resolve_hostname` with the `default_resolver`
unfoldable pub resolve_hostname : (Text → Option (List Text)) → Text → List Text
unfolding add_ips
resolve_hostname getaddrinfo hostname = elim (getaddrinfo hostname) [
  | none ↦ []
  | some results ↦ add_ips results []
]

-- the ports that answer, in the order of `ports`
unfoldable pub probe_ports : (Text → ℕ → Bool) → List ℕ → Text → List ℕ
probe_ports connector ports host = select (connector host) ports

pub record SurfaceScanRun : Type 0 where
  pub scan_id : Text
  pub created_at : ℕ
  pub domain : Text
  pub in_scope : Bool
  pub host_count : ℕ
  pub exposure_tag_count : ℕ
  pub payload_json : Text

-- `sum(len(host.unexpected_exposure_tags) for host in hosts)`
unfoldable pub count_tags : List DiscoveredHost → ℕ
count_tags [] = 0
count_tags (h ∷ hosts) = length h.unexpected_exposure_tags + count_tags hosts

-- `SurfaceScanRepository`; `dump` and `parse` stand for pydantic's `model_dump_json` and
-- `model_validate_json`.
unfoldable pub save :
    (SurfaceScanResult → Text) → SurfaceScanResult → List SurfaceScanRun → List SurfaceScanRun
unfolding count_tags
save dump result rows =
    save_by (λ r. r.scan_id) result.scan_id
      (λ existing. record existing {
        payload_json = dump result;
        in_scope = result.in_scope;
        host_count = length result.hosts;
        exposure_tag_count = count_tags result.hosts;
      })
      (record {
        scan_id = result.scan_id;
        created_at = result.created_at;
        domain = result.domain;
        in_scope = result.in_scope;
        host_count = length result.hosts;
        exposure_tag_count = count_tags result.hosts;
        payload_json = dump result;
      })
      rows

unfoldable pub get :
    (Text → Option SurfaceScanResult) → Text → List SurfaceScanRun → Option SurfaceScanResult
get parse scan_id rows = elim (get_by (λ r. r.scan_id) scan_id rows) [
  | none ↦ none
  | some row ↦ parse row.payload_json
]

unfoldable pub list_item : SurfaceScanRun → SurfaceScanListItem
list_item row = record {
  scan_id = row.scan_id;
  created_at = row.created_at;
  domain = row.domain;
  in_scope = row.in_scope;
  host_count = row.host_count;
  exposure_tag_count = row.exposure_tag_count;
}

unfoldable pub list_recent : ℕ → List SurfaceScanRun → List SurfaceScanListItem
unfolding list_item
list_recent limit rows = map list_item (take limit (order_desc (λ r. r.created_at) rows))
