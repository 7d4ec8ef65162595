-- ===== src/Core/Http.antt =====
-- packages/seclab-core/src/seclab/core/http.py: the HTTP client that guards where it connects to.
-- `ip_address` and `getaddrinfo` stand for the standard library's address parser and name
-- resolution, which may answer otherwise each time; `reply` for the transport, which may fail;
-- `urljoin` for urllib's. Query parameters, headers, the waiting times between attempts and the text of the
-- pinned URL are left out: a contact is the address that is connected to, with the host that was
-- asked for.
pub mod Policy
pub mod Guarded
pub mod Bounded
use seclab.Prelude.{
  ℕ, zero, suc, ◌+◌, Bool, true, false, not, ◌&&◌, ◌||◌, Option, none, some, List, [], ◌∷◌, map,
  any, ◌==◌, if◌then◌else◌,
}
use seclab.Prelude.Text.{Text, codes, lower, is_empty, text_eq}
use seclab.Security.Models
use seclab.Security.Models.{Result}
use seclab.Security.Url.{ParseResult, urlparse, hostname, port_ok}

-- What `ipaddress.ip_address` says of an address.
pub record Address : Type 0 where
  pub is_multicast : Bool
  pub is_global : Bool

pub data Failure : Type 0 where
  -- `EgressBlockedError`, `httpx.HTTPError` and its subclasses, `ValueError`
  egress_blocked http_failure value_failure : Failure

pub data Outcome {ℓ} (A : Type ℓ) : Type ℓ where
  done : A → Outcome A
  failed : Failure → Outcome A

pub record Contact : Type 0 where
  pub method : Text
  pub address : Text
  pub host : Text

pub record Response : Type 0 where
  pub is_redirect : Bool
  pub location : Option Text
  pub is_success : Bool
  pub body : Text

-- The contacts made, the newest first, and the name look-ups so far.
pub record Wire : Type 0 where
  pub sent : List Contact
  pub lookups : ℕ

abbrev pub max_redirects : ℕ
max_redirects = 5

abbrev pub listed : Text → List Text → Bool
listed host hosts = any (λ h. h == host) hosts

-- the loop over the candidates: the first one decides
unfoldable pub validate : (Text → Option Address) → List Text → Outcome Text
validate ip_address [] = failed egress_blocked
validate ip_address (candidate ∷ others) = elim (ip_address candidate) [
  | none ↦ failed value_failure
  | some ip ↦ if ip.is_multicast || not ip.is_global then failed egress_blocked else done candidate
]

unfoldable pub resolve_and_validate :
    (Text → Option Address) → (Text → Option (List Text)) → Text → Outcome Text
unfolding validate
resolve_and_validate ip_address getaddrinfo host = elim (ip_address host) [
  | some ip ↦ validate ip_address (host ∷ [])
  | none ↦ elim (getaddrinfo host) [
    | none ↦ failed egress_blocked
    | some candidates ↦ validate ip_address candidates
  ]
]

-- `self._allowlist and host.lower() not in self._allowlist`
abbrev pub off_list : List Text → Text → Bool
off_list [] host = false
off_list (first ∷ others) host = not (listed (lower host) (map lower (first ∷ others)))

-- `EgressPolicy.check` behind the parsing of the URL: the host, and the address for it
unfoldable pub check_parsed :
    (Text → Option Address)
    → (Text → Option (List Text))
    → List Text
    → ParseResult
    → Outcome (Text × Text)
unfolding resolve_and_validate
check_parsed ip_address getaddrinfo allowlist parsed =
    if parsed.scheme == codes "http" || parsed.scheme == codes "https"
    then elim (hostname parsed) [
      | none ↦ failed egress_blocked
      | some host ↦
          if off_list allowlist host
          then failed egress_blocked
          else elim (resolve_and_validate ip_address getaddrinfo host) [
            | failed e ↦ failed e
            | done address ↦ done (host, address)
          ]
    ]
    else failed egress_blocked

-- what a decoder makes of the last response: `response.json()` or `response.text`
abbrev pub Decoder : Type 0 → Type 0
Decoder A = Response → Outcome A

-- the exceptions that an attempt is repeated for
abbrev pub retried : Failure → Bool
retried egress_blocked = false
retried http_failure = true
retried value_failure = true

-- a step that needs the outcome of the one before it
unfoldable pub and_then :
    {A B : Type 0} → Wire × Outcome A → (A → Wire → Wire × Outcome B) → Wire × Outcome B
and_then (w, done a) f = f a w
and_then (w, failed e) f = (w, failed e)

unfoldable pub hop_or :
    {A : Type 0} → Option Text → Wire × Outcome A → (Text → Wire × Outcome A) → Wire × Outcome A
hop_or none r f = r
hop_or (some hop) r f = f hop

-- an attempt, and another one if its exception is caught
unfoldable pub or_again :
    {A : Type 0} → Wire × Outcome A → (Wire → Wire × Outcome A) → Wire × Outcome A
or_again (w, done a) again = (w, done a)
or_again (w, failed e) again = if retried e then again w else (w, failed e)

module _ (bracketed_ok : Text → Bool) (ip_address : Text → Option Address)
    (getaddrinfo : ℕ → Text → Option (List Text)) (reply : ℕ → Contact → Option Response)
    (urljoin : Text → Text → Text) (allowlist : List Text) where
  -- `EgressPolicy.check`; `urlsplit` raises a `ValueError`
  unfoldable pub check : Text → ℕ → Outcome (Text × Text)
  check url n = elim (urlparse bracketed_ok url) [
    | Models.err e ↦ failed value_failure
    | Models.ok parsed ↦ check_parsed ip_address (getaddrinfo n) allowlist parsed
  ]

  -- `_pin_host` reads the port off the URL, which may raise a `ValueError`.
  unfoldable pub pin_host : Text → Outcome (Text × Text) → Outcome (Text × Text)
  pin_host url (failed e) = failed e
  pin_host url (done to) = elim (urlparse bracketed_ok url) [
    | Models.err e ↦ failed value_failure
    | Models.ok parsed ↦ if port_ok parsed then done to else failed value_failure
  ]

  -- `_send_validated` behind the check and the pinning
  unfoldable pub connect : Text → Wire → Outcome (Text × Text) → Wire × Outcome Response
  connect method w (failed e) = (record w { lookups = suc w.lookups }, failed e)
  connect method w (done (host, address)) =
      let contact : Contact = record { method = method; address = address; host = host } in
      (
        record { sent = contact ∷ w.sent; lookups = suc w.lookups },
        elim (reply w.lookups contact) [ none ↦ failed http_failure | some r ↦ done r ],
      )

  -- `_send_validated`
  unfoldable pub send_validated : Text → Text → Wire → Wire × Outcome Response
  unfolding connect pin_host
  send_validated method url w = connect method w (pin_host url (check url w.lookups))

  module _ {A : Type 0} (decode : Decoder A) (empty : A) where
    -- an answer that is no further hop
    unfoldable pub answer : Response → Outcome A
    answer r =
        if r.is_success
        then (if r.is_redirect then done empty else decode r)
        else failed http_failure

    -- The URL of the next hop, if the response names one.
    unfoldable pub next_hop : Text → Response → Option Text
    next_hop url r =
        if r.is_redirect
        then elim r.location [
          | none ↦ none
          | some location ↦ if is_empty location then none else some (urljoin url location)
        ]
        else none

    -- the loop of `_get_json_following_redirects` and `_get_text_following_redirects`, with the
    -- number of requests that it may still make
    unfoldable pub follow : ℕ → Text → Wire → Wire × Outcome A
    follow zero url w = (w, failed http_failure)
    follow (suc n) url w =
        and_then (send_validated (codes "GET") url w) λ response w'.
          hop_or (next_hop url response) (w', answer response) (λ hop. follow n hop w')

  -- The attempts of `get_json`, `get_text` and `post_json`: `n` more may follow the first.
  unfoldable pub attempts : {A : Type 0} → (Wire → Wire × Outcome A) → ℕ → Wire → Wire × Outcome A
  attempts once zero w = once w
  attempts once (suc n) w = or_again (once w) (attempts once n)

  module _ {A : Type 0} (decode : Decoder A) (empty : A) (retries : ℕ) where
    -- `get_json` and `get_text`, by their decoder
    unfoldable pub get : Text → Wire → Wire × Outcome A
    get url = attempts (follow decode empty (suc max_redirects) url) retries

    -- one attempt of `post_json`, which follows no redirect
    unfoldable pub post_once : Text → Wire → Wire × Outcome A
    post_once url w =
        and_then (send_validated (codes "POST") url w)
          λ response w'. (w', if response.is_success then decode response else failed http_failure)

    unfoldable pub post_json : Text → Wire → Wire × Outcome A
    post_json url = attempts (post_once url) retries
