-- ===== src/Tests/Sensor.antt =====
-- The honeypot: an oversized upload, a cached location, and a hit on a secret.
use seclab.Prelude.{
  ℕ, ◌≡◌, refl, arith, Bool, true, Option, none, some, List, [], ◌∷◌, any, ◌==◌, nat_eq,
  if◌then◌else◌,
}
use seclab.Prelude.Text.{Text, codes, text_beq, text_eq}
use seclab.Core.Events.{Event, World, EventSink, other_sink, publish, configure_event_bus}
use seclab.Core.Events.Delivery.{IsDelivered, registered, publish-IsDelivered}
use seclab.Core.Http.{Outcome, done, failed, http_failure}
use seclab.Sensor.Body.{Message, http_request, Scope, answered, payload_too_large, is_limited, call}
use seclab.Sensor.Body
use seclab.Sensor.Limited.{IsGuarded, IsProgress, call-IsLimited, call-Returns}
use seclab.Sensor.Geoip.{Location, Entry, replied, not_a_dict, lookup}
use seclab.Sensor.Cache.{IsCache}
use seclab.Sensor.Fresh.{IsLookup, lookup-IsLookup}
use seclab.Sensor.App.{Request, Trap, catch_all}
use seclab.Sensor.Trap.{IsHit, catch_all-IsHit}
use seclab.Core.Retention.{Table, IsPurged, purge_older_than, purge_older_than-IsPurged}
use seclab.Tests.Data.{no_brackets}
use seclab.Tests.Http.{ip_address, getaddrinfo, reply, second, decode, idle}

-- a client that sends one byte after another
abbrev drip : ℕ → Message
drip n = http_request (b'x' ∷ []) true

abbrev upload : Scope
upload = record { type = codes "http"; method = codes "POST" }

too_long : call drip 3 4 upload ≡ some (answered payload_too_large)
unfolding call is_limited text_beq codes any
too_long = refl

call-IsLimited_example : IsGuarded drip 3 upload (answered payload_too_large)
call-IsLimited_example = call-IsLimited drip 3 4 upload (answered payload_too_large) too_long

drip-IsProgress : (n : ℕ) → IsProgress drip 3 (drip n)
drip-IsProgress n more = omega arith

call-Returns_example : (outcome : Body.Outcome) × (call drip 3 4 upload ≡ some outcome)
call-Returns_example = call-Returns drip 3 upload drip-IsProgress

abbrev printable : ℕ → Bool
printable c = true

abbrev here : Location
here = record {
  country = codes "Iceland";
  country_code = codes "is";
  city = codes "Unknown";
  isp = codes "Unknown";
}

abbrev cache : List Entry
cache = record { ip = codes "192.0.2.1"; stored = 5; location = here } ∷ []

cache-IsCache : IsCache cache
cache-IsCache = record { distinct = (tt, tt); bounded = omega arith }

abbrev raw : Text → Option Text
raw key = some (codes "IS")

lookup-IsLookup_example :
    IsLookup printable
      (codes "192.0.2.2")
      7
      (replied raw)
      8
      cache
      (lookup printable (codes "192.0.2.2") 7 (replied raw) 8 cache)
lookup-IsLookup_example =
    lookup-IsLookup printable (codes "192.0.2.2") 7 (replied raw) 8 cache cache-IsCache

abbrev same : Text → Text
same t = t

abbrev hit : Event
hit = record {
  source = codes "sensor_chimera";
  kind = codes "trap_triggered";
  summary = codes "Probe hit on /*@everyone";
  severity = codes "warning";
  payload = (codes "path", codes "/`x") ∷ [];
  occurred_at = codes "now";
}

abbrev calm : World
calm = record { logged = []; posted = []; called = []; wire = idle }

-- a sink that fails, in front of one that does not
abbrev others_raise : ℕ → Event → Outcome (Unit {0})
others_raise n event = if n == 1 then failed http_failure else done tt

abbrev extra : List EventSink
extra = other_sink 1 ∷ other_sink 2 ∷ []

publish-IsDelivered_example :
    IsDelivered no_brackets ip_address getaddrinfo reply second [] decode 2 same others_raise hit
      (registered (configure_event_bus (some (codes "https://a.example/hook"))) extra)
      calm
      (publish no_brackets ip_address getaddrinfo reply second [] decode 2 same others_raise
        (registered (configure_event_bus (some (codes "https://a.example/hook"))) extra)
        hit
        calm)
publish-IsDelivered_example =
    publish-IsDelivered no_brackets ip_address getaddrinfo reply second [] decode 2 same
      others_raise (some (codes "https://a.example/hook")) extra hit calm tt

abbrev first : ℕ → ℕ → ℕ
first a b = a

abbrev json_dumps : List (Text × Text) → Text
json_dumps fields = []

abbrev probe : Request
probe = record {
  client = none;
  user_agent = none;
  method = codes "GET";
  full_path = codes ".git/config";
}

abbrev to_log : Event → World → World
to_log e w = record w { logged = e ∷ w.logged }

abbrev stamp : ℕ → Text
stamp t = codes "now"

abbrev trap : Trap
trap = record { cache = cache; world = calm; clock = 100 }

catch_all-IsHit_example :
    IsHit printable first json_dumps stamp 5 15 probe to_log trap
      (catch_all printable json_dumps to_log first stamp 5 15 probe 7 not_a_dict 8 trap)
catch_all-IsHit_example =
    catch_all-IsHit printable first json_dumps stamp 5 15 probe to_log 7 not_a_dict 8 trap
      (omega arith)

abbrev rows : Table ℕ
rows = record { work = 100000 ∷ 5 ∷ 86400 ∷ []; saved = [] }

abbrev itself : ℕ → ℕ
itself n = n

purge_older_than-IsPurged_example :
    IsPurged itself 172800 1 rows (purge_older_than itself 172800 1 rows)
purge_older_than-IsPurged_example = purge_older_than-IsPurged itself 172800 1 rows
