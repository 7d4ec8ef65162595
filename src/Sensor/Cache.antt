-- ===== src/Sensor/Cache.antt =====
-- The cache of locations: it stays bounded, and what it answers is fresh.
use seclab.Prelude.{
  ℕ, suc, ◌-◌, ◌≡◌, ◌≢◌, ◌≤◌, ◌<◌, refl, ap, Bool, false, Option, none, some, List, [], ◌∷◌, arith,
  length, ltb, find, find-some, select, All, Bool-cases, inl, inr, if◌then◌else◌, ◌==◌,
}
use seclab.Prelude.Text.{Text, text_beq_iff, text_eq}
use seclab.Sensor.Geoip.{
  cache_ttl, max_cache_entries, Entry, Reply, raised, not_a_dict, replied, remove, drop_last, put,
  touch, fetched, from_cache, lookup,
}

abbrev pub IsDistinct : List Entry → Type 0
IsDistinct [] = Unit
IsDistinct (e ∷ cache) = All (λ d. d.ip ≢ e.ip) cache × IsDistinct cache

-- Every address at most once, and not too many of them.
pub record IsCache (cache : List Entry) : Type 0 where
  pub distinct : IsDistinct cache
  pub bounded : length cache ≤ max_cache_entries

module _ (ip : Text) where
  remove-All : (P : Entry → Type 0) (cache : List Entry) → All P cache → All P (remove ip cache)
  unfolding remove select
  remove-All P [] h = tt
  remove-All P (e ∷ cache) (p, h) = elim (Bool-cases (e.ip == ip)) [
    | inl q ↦ rw q (remove-All P cache h)
    | inr q ↦ rw q (p, remove-All P cache h)
  ]

  remove_gone : (cache : List Entry) → All (λ e. e.ip ≢ ip) (remove ip cache)
  unfolding remove select
  remove_gone [] = tt
  remove_gone (e ∷ cache) = elim (Bool-cases (e.ip == ip)) [
    | inl q ↦ rw q (remove_gone cache)
    | inr q ↦ rw q (λ same. ground (arith, q, (text_beq_iff e.ip ip).1 same), remove_gone cache)
  ]

  remove-IsDistinct : (cache : List Entry) → IsDistinct cache → IsDistinct (remove ip cache)
  unfolding remove select
  remove-IsDistinct [] h = tt
  remove-IsDistinct (e ∷ cache) (apart, h) = elim (Bool-cases (e.ip == ip)) [
    | inl q ↦ rw q (remove-IsDistinct cache h)
    | inr q ↦ rw q (remove-All (λ d. d.ip ≢ e.ip) cache apart, remove-IsDistinct cache h)
  ]

  pub length-remove : (cache : List Entry) → length (remove ip cache) ≤ length cache
  unfolding remove select
  length-remove [] = omega arith
  length-remove (e ∷ cache) = ground (arith, length-remove cache)

  -- An address that is in the cache leaves a place when it is removed.
  length-remove_found :
      (cache : List Entry) (e : Entry)
      → find (λ d. d.ip == ip) cache ≡ some e
      → length (remove ip cache) < length cache
  unfolding remove select find
  length-remove_found [] e h = absurd (ground (arith, h))
  length-remove_found (d ∷ cache) e h = elim (Bool-cases (d.ip == ip)) [
    | inl q ↦ rw q (omega (arith, length-remove cache))
    | inr q ↦ rw q (omega (arith, length-remove_found cache e (rw (q, if◌then◌else◌) at h)))
  ]

  pub find-remove :
      (j : Text) (cache : List Entry)
      → (ip == j) ≡ false
      → find (λ d. d.ip == j) (remove ip cache) ≡ find (λ d. d.ip == j) cache
  unfolding remove select find
  find-remove j [] other = refl
  find-remove j (e ∷ cache) other = elim (Bool-cases (e.ip == ip)) [
    | inl q ↦ rw (q, (text_beq_iff e.ip ip).0 q, other) (find-remove j cache other)
    | inr q ↦ rw (q, find-remove j cache other) refl
  ]

drop_last-All : (P : Entry → Type 0) (cache : List Entry) → All P cache → All P (drop_last cache)
unfolding drop_last
drop_last-All P [] h = tt
drop_last-All P (e ∷ []) h = tt
drop_last-All P (e ∷ d ∷ cache) (p, h) = (p, drop_last-All P (d ∷ cache) h)

drop_last-IsDistinct : (cache : List Entry) → IsDistinct cache → IsDistinct (drop_last cache)
unfolding drop_last
drop_last-IsDistinct [] h = tt
drop_last-IsDistinct (e ∷ []) h = tt
drop_last-IsDistinct (e ∷ d ∷ cache) (apart, h) =
    (drop_last-All (λ f. f.ip ≢ e.ip) (d ∷ cache) apart, drop_last-IsDistinct (d ∷ cache) h)

length-drop_last : (e : Entry) (cache : List Entry) → length (drop_last (e ∷ cache)) ≡ length cache
unfolding drop_last
length-drop_last e [] = refl
length-drop_last e (d ∷ cache) = ap suc (length-drop_last d cache)

put-IsCache : (e : Entry) (cache : List Entry) → IsCache cache → IsCache (put e cache)
unfolding put
put-IsCache e cache h =
    let distinct : IsDistinct (e ∷ remove e.ip cache) =
      (remove_gone e.ip cache, remove-IsDistinct e.ip cache h.distinct) in
    let room = length-remove e.ip cache in
    let bound = h.bounded in
    elim (Bool-cases (ltb max_cache_entries (length (e ∷ remove e.ip cache)))) [
      | inl full ↦ rw full (record {
        distinct = drop_last-IsDistinct (e ∷ remove e.ip cache) distinct;
        bounded = rw (length-drop_last e (remove e.ip cache)) (omega (arith, room, bound));
      })
      | inr fits ↦ rw fits (record { distinct = distinct; bounded = ground (arith, fits) })
    ]

module _ (isprintable : ℕ → Bool) (ip : Text) (asked : ℕ) (reply : Reply) (now : ℕ)
    (cache : List Entry) (h : IsCache cache) where
  fetched-IsCache : IsCache (fetched isprintable ip now reply cache).0
  unfolding fetched
  fetched-IsCache = by_reply reply
    where
      by_reply : (r : Reply) → IsCache (fetched isprintable ip now r cache).0
      by_reply raised = h
      by_reply not_a_dict = h
      by_reply (replied raw) = put-IsCache _ cache h

  touch-IsCache : (e : Entry) → find (λ d. d.ip == ip) cache ≡ some e → IsCache (touch ip e cache)
  unfolding touch
  touch-IsCache e found =
      let is_ip : e.ip ≡ ip =
        (text_beq_iff e.ip ip).0 (find-some (λ d. d.ip == ip) cache e found) in
      let room = length-remove_found ip cache e found in
      let bound = h.bounded in
      record {
        distinct = (rw is_ip (remove_gone ip cache), remove-IsDistinct ip cache h.distinct);
        bounded = omega (arith, room, bound);
      }

  from_cache-IsCache :
      (o : Option Entry)
      → find (λ d. d.ip == ip) cache ≡ o
      → IsCache (from_cache isprintable o ip asked reply now cache).0
  unfolding from_cache
  from_cache-IsCache none found = fetched-IsCache
  from_cache-IsCache (some e) found = elim (Bool-cases (ltb (asked - e.stored) cache_ttl)) [
    | inl fresh ↦ rw fresh (touch-IsCache e found)
    | inr stale ↦ rw stale fetched-IsCache
  ]

  -- Every look-up leaves a cache of at most 2048 entries with distinct addresses, if it found
  -- one: hits, misses, failures of the provider and replies that are no object alike.
  pub lookup-IsCache : IsCache (lookup isprintable ip asked reply now cache).0
  unfolding lookup
  lookup-IsCache = from_cache-IsCache (find (λ d. d.ip == ip) cache) refl
