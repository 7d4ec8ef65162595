-- ===== src/Core/Http/Bounded.antt =====
-- How often the client connects, and what it does with a URL that is refused.
use seclab.Prelude.{
  ℕ, zero, suc, ◌+◌, ◌*◌, ◌≡◌, ◌≤◌, refl, Bool, Option, none, some, List, arith, length,
}
use seclab.Prelude.Text.{Text, codes}
use seclab.Core.Http.{
  Address, egress_blocked, http_failure, value_failure, Outcome, done, failed, Contact, Response,
  Wire, max_redirects, pin_host, connect, check, and_then, hop_or, or_again, send_validated,
  Decoder, follow, attempts, get,
}

module _ (P R : Wire → Type 0) (weaker : (w : Wire) → P w → R w) {A : Type 0} where
  and_then-reaches :
      {B : Type 0} (p : Wire × Outcome A) (f : A → Wire → Wire × Outcome B)
      → P p.0
      → ((a : A) (w : Wire) → P w → R (f a w).0)
      → R (and_then p f).0
  unfolding and_then
  and_then-reaches (w, done a) f h k = k a w h
  and_then-reaches (w, failed e) f h k = weaker w h

  hop_or-reaches :
      (o : Option Text) (r : Wire × Outcome A) (f : Text → Wire × Outcome A)
      → P r.0
      → ((hop : Text) → R (f hop).0)
      → R (hop_or o r f).0
  unfolding hop_or
  hop_or-reaches none r f h k = weaker r.0 h
  hop_or-reaches (some hop) r f h k = k hop

  or_again-reaches :
      (p : Wire × Outcome A) (again : Wire → Wire × Outcome A)
      → P p.0
      → ((w : Wire) → P w → R (again w).0)
      → R (or_again p again).0
  unfolding or_again
  or_again-reaches (w, done a) again h k = weaker w h
  or_again-reaches (w, failed egress_blocked) again h k = weaker w h
  or_again-reaches (w, failed http_failure) again h k = k w h
  or_again-reaches (w, failed value_failure) again h k = k w h

-- At most `n` connections were made.
abbrev pub IsWithin : ℕ → Wire → Type 0
IsWithin n w = length w.sent ≤ n

module _ (bracketed_ok : Text → Bool) (ip_address : Text → Option Address)
    (getaddrinfo : ℕ → Text → Option (List Text)) (reply : ℕ → Contact → Option Response)
    (urljoin : Text → Text → Text) (allowlist : List Text) where
  connect-IsWithin :
      (method : Text) (w : Wire) (o : Outcome (Text × Text)) (n : ℕ)
      → IsWithin n w
      → IsWithin
          (suc n)
          (connect bracketed_ok ip_address getaddrinfo reply urljoin allowlist method w o).0
  unfolding connect
  connect-IsWithin method w (failed e) n h = omega arith
  connect-IsWithin method w (done (host, address)) n h = omega arith

  module _ {A : Type 0} (decode : Decoder A) (empty : A) where
    follow-IsWithin :
        (hops n : ℕ) (url : Text) (w : Wire)
        → IsWithin n w
        → IsWithin
            (hops + n)
            (follow bracketed_ok ip_address getaddrinfo reply urljoin allowlist decode empty hops
              url w).0
    unfolding follow send_validated
    follow-IsWithin zero n url w h = omega arith
    follow-IsWithin (suc hops) n url w h =
        and_then-reaches (IsWithin (suc n)) (IsWithin (suc hops + n)) (λ w' k. omega arith) _ _
          (connect-IsWithin (codes "GET") w _ n h)
          λ response w' k.
            hop_or-reaches (IsWithin (suc n)) (IsWithin (suc hops + n)) (λ w'' q. omega arith) _ _ _
              k λ hop. let later = follow-IsWithin hops (suc n) hop w' k in omega (arith, later)

  module _ {A : Type 0} (once : Wire → Wire × Outcome A) (cost : ℕ) where
    attempts-IsWithin :
        ((n : ℕ) (w : Wire) → IsWithin n w → IsWithin (cost + n) (once w).0)
        → (retries n : ℕ) (w : Wire) → IsWithin n w
        → IsWithin
            (suc retries * cost + n)
            (attempts bracketed_ok ip_address getaddrinfo reply urljoin allowlist once retries w).0
    unfolding attempts
    attempts-IsWithin k zero n w h = let first = k n w h in omega (arith, first)
    attempts-IsWithin k (suc retries) n w h =
        or_again-reaches (IsWithin (cost + n)) (IsWithin (suc (suc retries) * cost + n))
          (λ w' q. grind (arith, q)) _ _ (k n w h)
          λ w' q. let later = attempts-IsWithin k retries (cost + n) w' q in grind (arith, later)

  module _ {A : Type 0} (decode : Decoder A) (empty : A) (retries : ℕ) (url : Text) (w : Wire) where
    -- A call of `get_json` or `get_text` makes at most six connections in each of its attempts,
    -- wherever the servers redirect to, and one attempt more than the retries that are set.
    pub get-IsWithin :
        IsWithin
          (suc retries * suc max_redirects + length w.sent)
          (get bracketed_ok ip_address getaddrinfo reply urljoin allowlist decode empty retries url
            w).0
    unfolding get
    get-IsWithin =
        attempts-IsWithin
          (follow bracketed_ok ip_address getaddrinfo reply urljoin allowlist decode empty
            (suc max_redirects) url)
          (suc max_redirects)
          (λ n w' h. follow-IsWithin decode empty (suc max_redirects) n url w' h) retries
          (length w.sent) w (omega arith)

    -- A URL that the egress policy refuses is refused at once: nothing is connected to, and there
    -- is no second attempt.
    pub get_refused :
        check bracketed_ok ip_address getaddrinfo reply urljoin allowlist url w.lookups
          ≡ failed egress_blocked
        → get bracketed_ok ip_address getaddrinfo reply urljoin allowlist decode empty retries url w
          ≡ (record w { lookups = suc w.lookups }, failed egress_blocked)
    unfolding get attempts follow send_validated pin_host connect and_then or_again
    get_refused h = attempts_refused retries
      where
        first :
            follow bracketed_ok ip_address getaddrinfo reply urljoin allowlist decode empty
              (suc max_redirects)
              url
              w
            ≡ (record w { lookups = suc w.lookups }, failed egress_blocked)
        first = rw h refl

        attempts_refused :
            (n : ℕ)
            → attempts bracketed_ok ip_address getaddrinfo reply urljoin allowlist
                (follow bracketed_ok ip_address getaddrinfo reply urljoin allowlist decode empty
                  (suc max_redirects)
                  url)
                n
                w
              ≡ (record w { lookups = suc w.lookups }, failed egress_blocked)
        attempts_refused zero = first
        attempts_refused (suc n) = rw first refl
