-- ===== src/Lib.antt =====
-- The verification library of seclab: the security core
-- (packages/seclab-core/src/seclab/security), the guarded HTTP client
-- (packages/seclab-core/src/seclab/core/http.py), the
-- event bus and the retention of rows (core/events.py and core/retention.py there), the recon
-- module (packages/modules/recon/src/seclab_recon), whose API takes a bug bounty hypothesis from a
-- program with a scope policy over a human approval to an execution and its finding, and the
-- modules that scan, watch, trap and correlate: attack_surface, phantom, monitor, sensor_chimera,
-- threatlens, cve_watch and fusion.
--
-- Prelude holds the shared names: Boolean tests, lists, Python texts as lists of code points
-- (Prelude/Text), rows ordered by a key (Prelude/Order), sorted lists (Prelude/Sorted) and parts of
-- lists (Prelude/Parts).
--
-- Db models core/db.py and the use of SQLAlchemy. A Session has the tables at work, the saved
-- tables, a clock as a sequence of readings, and how many were taken. A service method is an
-- Exec: it returns or raises, and what it wrote before it raised stays in the session. commit
-- saves; handle closes the session at the end of a request, so that what was not committed is
-- lost (get_db). Rows stand newest first and are numbered from 1; Db/Rows and Db/Updates hold the
-- laws of tables, Db/Keeps the rules by which an invariant goes through a method.
--
-- Security/Models is models.py, Security/Audit is audit.py, Security/Evidence is evidence.py.
-- Security/Scope and Security/Scope/Guard are scope_guard.py (ProgramPolicy, _normalize_str_list,
-- _domain_matches, _normalize_target, validate_target_in_scope, requires_manual_approval,
-- block_prohibited_action, validate_action), over Security/Url, which is what
-- urllib.parse.urlparse does with ASCII texts as far as the guard reads its result.
-- Security/Approval and Security/Approval/Gate are approval.py (request, list_pending, decide,
-- approve, reject, evaluate_execution_gate, expire_if_needed, expire_pending_for_subject).
--
-- Security/Auth is auth.py with hash_api_key of keys.py. Phantom/Discovery is discovery.py of the
-- module packages/modules/phantom: the profile of a target and the variants of its domain.
--
-- Phantom/Scoring is scoring.py of packages/seclab-core/src/seclab/reporting, with the rules of
-- scoring.py of the phantom module.
--
-- Recon/Models, Recon/Services, Recon/Approvals, Recon/Executions and Recon/Routes are models.py
-- with enums.py, services.py and routes.py of recon. Routes.serve runs any requests of any users
-- one after another. Recon/Frame, Recon/Approving and Recon/Serving give one rule for each method,
-- Recon/Invariant, Recon/Lineage, Recon/Cleared and Recon/Tally the invariants. Tests holds runs
-- at concrete data.
--
-- AttackSurface is packages/modules/attack_surface/src/seclab_attack_surface: models.py, tagging.py,
-- probing.py and db.py in AttackSurface, reporting.py in AttackSurface/Report over Reporting (the
-- MarkdownReportBuilder of reporting/exporters.py), service.py and routes.py in
-- AttackSurface/Service. A Lab has the contacts made and the table of scans, if there is a
-- database; Db/Repository is the shared way in which a module keeps its results under a key.
--
-- Core/Events is core/events.py: the texts of an alert, the two sinks, the bus that
-- configure_event_bus makes and the sinks that others register on it, over the HTTP client. A World
-- has what the sinks were given: posted has the embeds handed to the HTTP client once each, and the
-- attempts that it then makes are in the wire. Sensor is the honeypot
-- packages/modules/sensor_chimera/src/seclab_sensor_chimera: Sensor/Body is the class
-- RequestSizeLimitMiddleware of middleware.py, Sensor/Geoip geoip.py, Sensor/App detection.py,
-- decoys.py and the handler catch_all of app.py, which looks a location up, waits, publishes an event
-- and answers. The loop of Sensor/Body over the messages of the server has fuel, since the source's loop
-- does not end on empty chunks; one unit more than the bytes allowed is enough if every chunk
-- that announces another has a byte.
--
-- Monitor is packages/modules/monitor/src/seclab_monitor: Monitor/Listener has _extract_matches of
-- listener.py and _sanitize_filename of capture.py, Monitor/Pipeline handle_match and
-- Monitor/Capture _capture_and_store of pipeline.py, over the session of Db, the evidence store and the risk score;
-- a Pipe also has the commits and events in their order. Monitor/Row is about the
-- row of a match, Monitor/Still about the steps before the commit, Monitor/Watched about the whole.
-- Threatlens is vectors.py of packages/modules/threatlens and tagging.py of
-- packages/modules/cve_watch. Phantom/Service is the loop of analyze in service.py of phantom,
-- over the variants and the risk score. Fusion is packages/modules/fusion/src/seclab_fusion:
-- correlation.py, and service.py in Fusion/Feed. Core/Retention is core/retention.py.
--
-- Core/Http models core/http.py: EgressPolicy.check, _pin_host as far as it can fail,
-- _send_validated, the two loops over redirects, which are one function here that takes the
-- decoder of the answer, and the attempts of get_json, get_text and post_json. A Wire records the
-- contacts made. The loop over redirects is recursion on the number of requests that the source's
-- range still allows, six at first, and the attempts are recursion on the retries that are set.
--
-- Parameters: bracketed_ok is the check that ipaddress makes on a host in square brackets, sha256
-- the hex digest of hashlib, hmac its keyed digest; nothing is assumed of these, nor of
-- ip_address, getaddrinfo, reply (the transport) and urljoin in Core/Http, of the certificate
-- log, the name resolution, the connections and isoformat in AttackSurface; a theorem that reads
-- a stored result back assumes that the JSON of that result is parsed to it. All other loops are
-- recursion on lists, so that no fuel is needed. isprintable, upper, json_dumps and randint in
-- Sensor and Core/Events, artifact_path, write_bytes and strftime in Monitor are functions of Python's library;
-- enrich stands there and in Phantom/Service for the enrichment providers, ct_fetch for the
-- certificate log, capture for the browser, and other for the sinks of other parts. The random delay
-- is assumed to lie within the bounds that randint is asked for.
--
-- Not modelled: requests that overlap in time; failures of the database, and in Phantom/Service of
-- the enrichment providers; summaries and suggestions of language models; the bounds of pydantic on the lengths of texts;
-- case and white space outside ASCII; log lines; the column confidence, the time stamps of
-- updates and the row ids of users, audit entries and evidence. Among rows with one time stamp
-- the database may choose the first; here it is the one inserted last.
pub mod Prelude
pub mod Security
pub mod Recon
pub mod Db
pub mod Core
pub mod Phantom
pub mod Reporting
pub mod AttackSurface
pub mod Sensor
pub mod Monitor
pub mod Fusion
pub mod Threatlens
pub mod Tests
