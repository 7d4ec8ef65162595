-- ===== src/AttackSurface/Report.antt =====
-- packages/modules/attack_surface/src/seclab_attack_surface/reporting.py: the report of a scan.
-- `isoformat` stands for the method of `datetime`.
use seclab.Prelude.{ℕ, List, [], ◌∷◌, ◌++◌, map, length, if◌then◌else◌, not}
use seclab.Prelude.Sorted.{sorted, text_ltb}
use seclab.Prelude.Text.{Text, codes, decimal}
use seclab.Reporting.{
  MarkdownReportBuilder, join, markdown_report_builder, meta, section, section_of, paragraph,
  bullets, build, str_of_bool,
}
use seclab.AttackSurface.{DiscoveredHost, SurfaceScanResult, add_ips}

-- `', '.join(texts) or otherwise`
unfoldable pub listed_or : Text → List Text → Text
listed_or otherwise [] = otherwise
listed_or otherwise (t ∷ texts) = join (codes ", ") (t ∷ texts)

unfoldable pub host_lines : List DiscoveredHost → MarkdownReportBuilder → MarkdownReportBuilder
unfolding listed_or
host_lines [] lines = lines
host_lines (host ∷ hosts) lines = host_lines hosts (
    bullets
      ((codes "IP addresses: " ++ listed_or (codes "none resolved") host.ip_addresses)
        ∷ (codes "Open ports: " ++ listed_or (codes "none open") (map decimal host.open_ports))
        ∷ (codes "Exposure tags: " ++ listed_or (codes "none") host.unexpected_exposure_tags)
        ∷ [])
      (section_of 3 host.hostname lines))

unfoldable pub all_tags : List DiscoveredHost → List Text
all_tags [] = []
all_tags (host ∷ hosts) = host.unexpected_exposure_tags ++ all_tags hosts

-- `or_else` of an empty list
unfoldable pub items_or : Text → List Text → List Text
items_or otherwise [] = otherwise ∷ []
items_or otherwise (t ∷ texts) = t ∷ texts

unfoldable pub build_markdown_report : (ℕ → Text) → SurfaceScanResult → Text
unfolding items_or all_tags host_lines
build_markdown_report isoformat result =
    let head =
      meta
        ((codes "scan_id", result.scan_id)
          ∷ (codes "created_at", isoformat result.created_at)
          ∷ (codes "domain", result.domain)
          ∷ (codes "in_scope", str_of_bool result.in_scope)
          ∷ (codes "hosts_discovered", decimal (length result.hosts))
          ∷ [])
        (markdown_report_builder (codes "Attack Surface Scan")) in
    let summary =
      items_or (codes "No unexpected exposures detected.")
        (sorted text_ltb (add_ips (all_tags result.hosts) [])) in
    let listed = section (codes "Discovered Hosts") head in
    let hosts : MarkdownReportBuilder = elim result.hosts [
      | [] ↦ paragraph (codes "No hosts discovered for this domain.") listed
      | first ∷ others ↦ host_lines (first ∷ others) listed
    ] in
    build (
      if not result.in_scope
      then paragraph
          (b'\''
            ∷ (result.domain
                ++ codes
                    "' is not covered by the submitted scope policy's allowlist. No subdomain discovery, DNS resolution, or port probing was performed - this scan made zero outbound network calls."))
          (section (codes "Scope Gate: Blocked") head)
      else bullets summary (section (codes "Exposure Summary") hosts))
