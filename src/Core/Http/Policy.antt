-- ===== src/Core/Http/Policy.antt =====
-- What the egress policy permits, and the steps that keep a property of the wire.
use seclab.Prelude.{
  ◌≡◌, refl, true, false, ◌||◌, Option, none, some, List, [], ◌∷◌, map, arith, ◌==◌, Bool-cases,
  Option-cases, inl, inr, ◌⊎◌,
}
use seclab.Prelude.Text.{Text, codes, lower, text_eq}
use seclab.Security.Url.{ParseResult, hostname}
use seclab.Core.Http.{
  Address, Failure, egress_blocked, http_failure, value_failure, and_then, hop_or, or_again,
  Outcome, done, failed, Contact, Wire, listed, off_list, validate, resolve_and_validate,
  check_parsed,
}

Outcome-cases :
    {A : Type 0} (o : Outcome A) → ((a : A) × (o ≡ done a)) ⊎ ((e : Failure) × (o ≡ failed e))
Outcome-cases (done a) = inl (a, refl)
Outcome-cases (failed e) = inr (e, refl)

module _ (P : Wire → Type 0) {A B : Type 0} where
  pub and_then-Kept :
      (p : Wire × Outcome A) (f : A → Wire → Wire × Outcome B)
      → P p.0
      → ((a : A) (w : Wire) → P w → P (f a w).0)
      → P (and_then p f).0
  unfolding and_then
  and_then-Kept (w, done a) f h k = k a w h
  and_then-Kept (w, failed e) f h k = h

module _ (P : Wire → Type 0) {A : Type 0} where
  pub hop_or-Kept :
      (o : Option Text) (r : Wire × Outcome A) (f : Text → Wire × Outcome A)
      → P r.0
      → ((hop : Text) → P (f hop).0)
      → P (hop_or o r f).0
  unfolding hop_or
  hop_or-Kept none r f h k = h
  hop_or-Kept (some hop) r f h k = k hop

  pub or_again-Kept :
      (p : Wire × Outcome A) (again : Wire → Wire × Outcome A)
      → P p.0
      → ((w : Wire) → P w → P (again w).0)
      → P (or_again p again).0
  unfolding or_again
  or_again-Kept (w, done a) again h k = h
  or_again-Kept (w, failed egress_blocked) again h k = h
  or_again-Kept (w, failed http_failure) again h k = k w h
  or_again-Kept (w, failed value_failure) again h k = k w h

on_list :
    (allowlist : List Text) (host : Text)
    → off_list allowlist host ≡ false
    → (allowlist ≡ []) ⊎ (listed (lower host) (map lower allowlist) ≡ true)
on_list [] host h = inl refl
on_list (first ∷ others) host h = inr (ground (arith, h))

module _ (ip_address : Text → Option Address) (allowlist : List Text) where
  -- The address is a known one, global and not multicast.
  pub record IsPublic (address : Text) : Type 0 where
    pub ip : Address
    pub known : ip_address address ≡ some ip
    pub unicast : ip.is_multicast ≡ false
    pub global : ip.is_global ≡ true

  -- The contact is one that the egress policy permits.
  pub record IsPermitted (c : Contact) : Type 0 where
    pub to : IsPublic c.address
    pub allowed : (allowlist ≡ []) ⊎ (listed (lower c.host) (map lower allowlist) ≡ true)

  validate-IsPublic :
      (candidates : List Text) (address : Text)
      → validate ip_address candidates ≡ done address
      → IsPublic address
  unfolding validate
  validate-IsPublic [] address h = absurd (ground (arith, h))
  validate-IsPublic (c ∷ others) address h = elim (Option-cases (ip_address c)) [
    | inl none_known ↦ absurd (ground (arith, h, none_known))
    | inr (ip, known) ↦
        let same : c ≡ address = ground (arith, h, known) in
        rw (← same) (record {
          ip = ip;
          known = known;
          unicast = ground (arith, h, known);
          global = ground (arith, h, known);
        })
  ]

  resolve-IsPublic :
      (getaddrinfo : Text → Option (List Text)) (host address : Text)
      → resolve_and_validate ip_address getaddrinfo host ≡ done address
      → IsPublic address
  unfolding resolve_and_validate
  resolve-IsPublic getaddrinfo host address h = elim (Option-cases (ip_address host)) [
    | inr (ip, known) ↦
        validate-IsPublic (host ∷ []) address (rw (known, resolve_and_validate) at h)
    | inl name ↦ elim (Option-cases (getaddrinfo host)) [
      | inl unknown ↦ absurd (ground (arith, h, name, unknown))
      | inr (candidates, found) ↦
          validate-IsPublic candidates address (rw (name, found, resolve_and_validate) at h)
    ]
  ]

  pub check_parsed-IsPermitted :
      (getaddrinfo : Text → Option (List Text)) (parsed : ParseResult) (method host address : Text)
      → check_parsed ip_address getaddrinfo allowlist parsed ≡ done (host, address)
      → IsPermitted (record { method = method; address = address; host = host })
  unfolding check_parsed
  check_parsed-IsPermitted getaddrinfo parsed method host address h =
      elim (Bool-cases (parsed.scheme == codes "http" || parsed.scheme == codes "https")) [
        | inr other ↦ absurd (ground (arith, h, other))
        | inl web ↦ elim (Option-cases (hostname parsed)) [
          | inl nameless ↦ absurd (ground (arith, h, web, nameless))
          | inr (name, named) ↦ elim (Bool-cases (off_list allowlist name)) [
            | inl off ↦ absurd (ground (arith, h, web, named, off))
            | inr on ↦ elim (Outcome-cases (resolve_and_validate ip_address getaddrinfo name)) [
              | inr (e, refused) ↦ absurd (ground (arith, h, web, named, on, refused))
              | inl (a, resolved) ↦
                  let same_host : name ≡ host = ground (arith, h, web, named, on, resolved) in
                  let same_address : a ≡ address = ground (arith, h, web, named, on, resolved) in
                  record {
                    to = rw (← same_address) (resolve-IsPublic getaddrinfo name a resolved);
                    allowed = rw (← same_host) (on_list allowlist name on);
                  }
            ]
          ]
        ]
      ]
