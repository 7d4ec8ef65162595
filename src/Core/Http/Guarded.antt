-- ===== src/Core/Http/Guarded.antt =====
-- Where the client connects to.
use seclab.Prelude.{
  ℕ, zero, suc, ◌≡◌, refl, Bool, Option, List, arith, All, Bool-cases, inl, inr, if◌then◌else◌,
}
use seclab.Prelude.Text.{Text, codes, text_eq}
use seclab.Security.Models
use seclab.Security.Models.{Result}
use seclab.Security.Url.{ParseResult, urlparse, port_ok}
use seclab.Core.Http.{
  Address, value_failure, connect, pin_host, Outcome, done, failed, Contact, Response, Wire,
  check_parsed, check, send_validated, Decoder, follow, attempts, get, post_once, post_json,
}
use seclab.Core.Http.Policy.{
  IsPermitted, check_parsed-IsPermitted, and_then-Kept, hop_or-Kept, or_again-Kept,
}

module _ (bracketed_ok : Text → Bool) (ip_address : Text → Option Address)
    (getaddrinfo : ℕ → Text → Option (List Text)) (reply : ℕ → Contact → Option Response)
    (urljoin : Text → Text → Text) (allowlist : List Text) where
  abbrev pub AllPermitted : Wire → Type 0
  AllPermitted w = All (IsPermitted ip_address allowlist) w.sent

  check-IsPermitted :
      (method url host address : Text) (n : ℕ)
      → check bracketed_ok ip_address getaddrinfo reply urljoin allowlist url n
        ≡ done (host, address)
      → IsPermitted ip_address allowlist
          (record { method = method; address = address; host = host })
  unfolding check
  check-IsPermitted method url host address n h = parsed-IsPermitted (urlparse bracketed_ok url) h
    where
      parsed-IsPermitted :
          (r : Result ParseResult)
          → (elim r [
            | Models.err e ↦ failed value_failure
            | Models.ok parsed ↦ check_parsed ip_address (getaddrinfo n) allowlist parsed
          ])
            ≡ done (host, address)
          → IsPermitted ip_address allowlist
              (record { method = method; address = address; host = host })
      parsed-IsPermitted (Models.ok parsed) h =
          check_parsed-IsPermitted ip_address allowlist (getaddrinfo n) parsed method host address h
      parsed-IsPermitted (Models.err e) h = absurd (ground (arith, h))

  pin_host-done :
      (url : Text) (o : Outcome (Text × Text)) (to : Text × Text)
      → pin_host bracketed_ok ip_address getaddrinfo reply urljoin allowlist url o ≡ done to
      → o ≡ done to
  unfolding pin_host
  pin_host-done url (failed e) to h = absurd (ground (arith, h))
  pin_host-done url (done at) to h = pinned (urlparse bracketed_ok url) h
    where
      pinned :
          (r : Result ParseResult)
          → (elim r [
            | Models.err e ↦ failed value_failure
            | Models.ok parsed ↦ if port_ok parsed then done at else failed value_failure
          ])
            ≡ done to
          → done at ≡ done to
      pinned (Models.ok parsed) h = elim (Bool-cases (port_ok parsed)) [
        | inl fine ↦ rw (fine, if◌then◌else◌) at h
        | inr bad ↦ absurd (ground (arith, h, bad))
      ]
      pinned (Models.err e) h = absurd (ground (arith, h))

  connect-AllPermitted :
      (method url : Text) (w : Wire) (o : Outcome (Text × Text))
      → ((to : Text × Text)
          → o ≡ done to
          → check bracketed_ok ip_address getaddrinfo reply urljoin allowlist url w.lookups
            ≡ done to)
      → AllPermitted w
      → AllPermitted
          (connect bracketed_ok ip_address getaddrinfo reply urljoin allowlist method w o).0
  unfolding connect
  connect-AllPermitted method url w (failed e) c h = h
  connect-AllPermitted method url w (done (host, address)) c h =
      (check-IsPermitted method url host address w.lookups (c (host, address) refl), h)

  send_validated-AllPermitted :
      (method url : Text) (w : Wire)
      → AllPermitted w
      → AllPermitted
          (send_validated bracketed_ok ip_address getaddrinfo reply urljoin allowlist method url
            w).0
  unfolding send_validated
  send_validated-AllPermitted method url w h =
      connect-AllPermitted method url w _ (λ to pinned. pin_host-done url _ to pinned) h

  module _ {A : Type 0} (decode : Decoder A) (empty : A) where
    follow-AllPermitted :
        (n : ℕ) (url : Text) (w : Wire)
        → AllPermitted w
        → AllPermitted
            (follow bracketed_ok ip_address getaddrinfo reply urljoin allowlist decode empty n url
              w).0
    unfolding follow
    follow-AllPermitted zero url w h = h
    follow-AllPermitted (suc n) url w h =
        and_then-Kept AllPermitted _ _ (send_validated-AllPermitted (codes "GET") url w h)
          λ response w' kept.
            hop_or-Kept AllPermitted _ _ _ kept (λ hop. follow-AllPermitted n hop w' kept)

    post_once-AllPermitted :
        (retries : ℕ) (url : Text) (w : Wire)
        → AllPermitted w
        → AllPermitted
            (post_once bracketed_ok ip_address getaddrinfo reply urljoin allowlist decode empty
              retries url w).0
    unfolding post_once
    post_once-AllPermitted retries url w h =
        and_then-Kept AllPermitted _ _ (send_validated-AllPermitted (codes "POST") url w h)
          (λ response w' kept. kept)

  attempts-AllPermitted :
      {A : Type 0} (once : Wire → Wire × Outcome A)
      → ((w : Wire) → AllPermitted w → AllPermitted (once w).0)
      → (n : ℕ) (w : Wire) → AllPermitted w
      → AllPermitted
          (attempts bracketed_ok ip_address getaddrinfo reply urljoin allowlist once n w).0
  unfolding attempts
  attempts-AllPermitted once k zero w h = k w h
  attempts-AllPermitted once k (suc n) w h =
      or_again-Kept AllPermitted _ _ (k w h) (λ w'. attempts-AllPermitted once k n w')

  module _ {A : Type 0} (decode : Decoder A) (empty : A) (retries : ℕ) (url : Text) (w : Wire) where
    -- However names resolve, however often they change and wherever a server redirects to, every
    -- connection that `get_json` and `get_text` make is to an address that is global and not
    -- multicast, for a host that is on the allowlist unless that is empty; if this was so of the
    -- connections before.
    pub get-AllPermitted :
        AllPermitted w
        → AllPermitted
            (get bracketed_ok ip_address getaddrinfo reply urljoin allowlist decode empty retries
              url w).0
    unfolding get
    get-AllPermitted h =
        attempts-AllPermitted _ (follow-AllPermitted decode empty _ url) retries w h

    -- Every connection that `post_json` makes is to an address that is global and not multicast,
    -- for a host that is on the allowlist unless that is empty; if this was so of the connections
    -- before.
    pub post_json-AllPermitted :
        AllPermitted w
        → AllPermitted
            (post_json bracketed_ok ip_address getaddrinfo reply urljoin allowlist decode empty
              retries url w).0
    unfolding post_json
    post_json-AllPermitted h =
        attempts-AllPermitted _ (post_once-AllPermitted decode empty retries url) retries w h
