-- ===== src/Tests/Http.antt =====
-- A call that is redirected once, and one that is refused.
use seclab.Prelude.{
  ℕ, zero, suc, ◌+◌, ◌*◌, ◌≡◌, refl, true, false, Option, none, some, List, [], ◌∷◌, any, select,
  ◌==◌, if◌then◌else◌,
}
use seclab.Prelude.Text.{Text, codes, text_eq, text_beq, starts_with, drop, drop_while, lower}
use seclab.Security.Url.{urlparse, hostname}
use seclab.Core.Http.{
  Address, egress_blocked, Outcome, done, failed, Contact, Response, Wire, check, check_parsed, get,
  post_json, max_redirects,
}
use seclab.Core.Http.Guarded.{AllPermitted, get-AllPermitted, post_json-AllPermitted}
use seclab.Core.Http.Bounded.{IsWithin, get-IsWithin, get_refused}
use seclab.Tests.Data.{no_brackets}

abbrev pub ip_address : Text → Option Address
ip_address t =
    if t == codes "8.8.8.8"
    then some (record { is_multicast = false; is_global = true })
    else if t == codes "127.0.0.1"
    then some (record { is_multicast = false; is_global = false })
    else none

abbrev pub getaddrinfo : ℕ → Text → Option (List Text)
getaddrinfo n host =
    if host == codes "localhost"
    then some (codes "127.0.0.1" ∷ [])
    else some (codes "8.8.8.8" ∷ codes "127.0.0.1" ∷ [])

-- the first answer redirects, the others do not
abbrev pub reply : ℕ → Contact → Option Response
reply zero c = some (record {
  is_redirect = true;
  location = some (codes "https://b.example/");
  is_success = false;
  body = [];
})
reply (suc n) c =
    some (record { is_redirect = false; location = none; is_success = true; body = codes "text" })

abbrev pub second : Text → Text → Text
second base location = location

abbrev pub decode : Response → Outcome Text
decode r = done r.body

abbrev pub idle : Wire
idle = record { sent = []; lookups = 0 }

abbrev got : Text → Wire × Outcome Text
got url = get no_brackets ip_address getaddrinfo reply second [] decode [] 2 url idle

get-AllPermitted_example :
    AllPermitted no_brackets ip_address getaddrinfo reply second []
      (got (codes "https://a.example/x")).0
get-AllPermitted_example =
    get-AllPermitted no_brackets ip_address getaddrinfo reply second [] decode [] 2
      (codes "https://a.example/x") idle tt

post_json-AllPermitted_example :
    AllPermitted no_brackets ip_address getaddrinfo reply second []
      (post_json no_brackets ip_address getaddrinfo reply second [] decode [] 2
        (codes "https://a.example/x")
        idle).0
post_json-AllPermitted_example =
    post_json-AllPermitted no_brackets ip_address getaddrinfo reply second [] decode [] 2
      (codes "https://a.example/x") idle tt

get-IsWithin_example :
    IsWithin (suc 2 * suc max_redirects + 0) (got (codes "https://a.example/x")).0
get-IsWithin_example =
    get-IsWithin no_brackets ip_address getaddrinfo reply second [] decode [] 2
      (codes "https://a.example/x") idle

local_refused :
    check no_brackets ip_address getaddrinfo reply second [] (codes "http://localhost/") 0
    ≡ failed egress_blocked
unfolding check urlparse starts_with codes any select drop_while drop check_parsed text_beq lower
    hostname
local_refused = refl

get_refused_example :
    got (codes "http://localhost/") ≡ (record { sent = []; lookups = 1 }, failed egress_blocked)
get_refused_example =
    get_refused no_brackets ip_address getaddrinfo reply second [] decode [] 2
      (codes "http://localhost/") idle local_refused
