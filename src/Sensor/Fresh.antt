-- ===== src/Sensor/Fresh.antt =====
-- What a look-up answers, and what it does to the other entries.
use seclab.Prelude.{
  ℕ, ◌-◌, ◌≡◌, ◌<◌, ◌⊎◌, refl, Bool, false, Option, none, some, List, ◌∷◌, arith, length, ltb, find,
  find-some, Bool-cases, inl, inr, ◌==◌,
}
use seclab.Prelude.Text.{Text, text_beq_iff, text_eq}
use seclab.Sensor.Geoip.{
  cache_ttl, max_cache_entries, Location, Entry, Reply, raised, not_a_dict, replied, remove, put,
  touch, location_of, fetched, from_cache, lookup,
}
use seclab.Sensor.Cache.{IsCache, lookup-IsCache, length-remove, find-remove}

module _ (isprintable : ℕ → Bool) (ip : Text) (asked : ℕ) (reply : Reply) (now : ℕ)
    (cache : List Entry) where
  -- A location that is answered is one that the provider just gave, or one of the cache that is
  -- younger than the limit.
  abbrev pub IsFresh : Option Location → Type 0
  IsFresh none = Unit
  IsFresh (some location) =
      ((e : Entry) × (find (λ d. d.ip == ip) cache ≡ some e)
        × (e.location ≡ location)
        × (asked - e.stored < cache_ttl))
      ⊎ ((raw : Text → Option Text) × (reply ≡ replied raw)
          × (location ≡ location_of isprintable raw))

  fetched-IsFresh : (r : Reply) → reply ≡ r → IsFresh (fetched isprintable ip now r cache).1
  unfolding fetched
  fetched-IsFresh raised e = tt
  fetched-IsFresh not_a_dict e = tt
  fetched-IsFresh (replied raw) e = inr (raw, e, refl)

  from_cache-IsFresh :
      (o : Option Entry)
      → find (λ d. d.ip == ip) cache ≡ o
      → IsFresh (from_cache isprintable o ip asked reply now cache).1
  unfolding from_cache
  from_cache-IsFresh none found = fetched-IsFresh reply refl
  from_cache-IsFresh (some e) found = elim (Bool-cases (ltb (asked - e.stored) cache_ttl)) [
    | inl young ↦ rw young (inl (e, found, refl, ground (arith, young)))
    | inr stale ↦ rw stale (fetched-IsFresh reply refl)
  ]

  -- Every location that a look-up answers is the one of this address: it is in the cache and was
  -- stored less than 300 seconds before, or it is made of the reply that the provider gave now.
  pub lookup-IsFresh : IsFresh (lookup isprintable ip asked reply now cache).1
  unfolding lookup
  lookup-IsFresh = from_cache-IsFresh (find (λ d. d.ip == ip) cache) refl

  module _ (j : Text) (other : (ip == j) ≡ false) (room : length cache < max_cache_entries) where
    find-put :
        (stored : ℕ) (location : Location)
        → find
            (λ d. d.ip == j)
            (put (record { ip = ip; stored = stored; location = location }) cache)
          ≡ find (λ d. d.ip == j) cache
    unfolding put
    find-put stored location =
        let e : Entry = record { ip = ip; stored = stored; location = location } in
        let fits : ltb max_cache_entries (length (e ∷ remove ip cache)) ≡ false =
          ground (arith, room, length-remove ip cache) in
        rw fits (unfold find in rw other (find-remove ip j cache other))

    find-touch :
        (e : Entry)
        → e.ip ≡ ip
        → find (λ d. d.ip == j) (touch ip e cache) ≡ find (λ d. d.ip == j) cache
    unfolding touch
    find-touch e is_ip = unfold find in rw (is_ip, other) (find-remove ip j cache other)

    find-fetched :
        (r : Reply)
        → find (λ d. d.ip == j) (fetched isprintable ip now r cache).0 ≡ find (λ d. d.ip == j) cache
    unfolding fetched
    find-fetched raised = refl
    find-fetched not_a_dict = refl
    find-fetched (replied raw) = find-put now _

    find-from_cache :
        (o : Option Entry)
        → find (λ d. d.ip == ip) cache ≡ o
        → find (λ d. d.ip == j) (from_cache isprintable o ip asked reply now cache).0
          ≡ find (λ d. d.ip == j) cache
    unfolding from_cache
    find-from_cache none found = find-fetched reply
    find-from_cache (some e) found =
        let is_ip = (text_beq_iff e.ip ip).0 (find-some (λ d. d.ip == ip) cache e found) in
        elim (Bool-cases (ltb (asked - e.stored) cache_ttl)) [
          | inl young ↦ rw young (find-touch e is_ip)
          | inr stale ↦ rw stale (find-fetched reply)
        ]

    -- As long as the cache is not full, a look-up of one address does not change what the cache
    -- holds for another.
    pub find-lookup :
        find (λ d. d.ip == j) (lookup isprintable ip asked reply now cache).0
        ≡ find (λ d. d.ip == j) cache
    unfolding lookup
    find-lookup = find-from_cache (find (λ d. d.ip == ip) cache) refl

module _ (isprintable : ℕ → Bool) (ip : Text) (asked : ℕ) (reply : Reply) (now : ℕ)
    (cache : List Entry) where
  pub record IsLookup (outcome : List Entry × Option Location) : Type 0 where
    pub sound : IsCache outcome.0
    pub fresh : IsFresh isprintable ip asked reply now cache outcome.1
    pub others :
        (j : Text)
        → (ip == j) ≡ false
        → length cache < max_cache_entries
        → find (λ d. d.ip == j) outcome.0 ≡ find (λ d. d.ip == j) cache

  -- A look-up in a cache of at most 2048 entries with distinct addresses, be it a hit, a miss or
  -- a failure of the provider, leaves such a cache. A location that it answers is the one of this
  -- address: it is in the cache and was stored less than 300 seconds before, or it is made of the
  -- reply that the provider gave now. If the cache is not full, what it holds for every other
  -- address stays as it is.
  pub lookup-IsLookup : IsCache cache → IsLookup (lookup isprintable ip asked reply now cache)
  lookup-IsLookup h = record {
    sound = lookup-IsCache isprintable ip asked reply now cache h;
    fresh = lookup-IsFresh isprintable ip asked reply now cache;
    others = find-lookup isprintable ip asked reply now cache;
  }
