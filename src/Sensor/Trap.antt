-- ===== src/Sensor/Trap.antt =====
-- packages/modules/sensor_chimera/src/seclab_sensor_chimera/app.py: every decoy is watched.
use seclab.Prelude.{
  ℕ, ◌+◌, ◌≤◌, ◌≡◌, ◌⊎◌, refl, Bool, true, false, Option, List, [], ◌∷◌, ◌++◌, arith, any,
  Bool-cases, inl, inr,
}
use seclab.Prelude.Text.{Text, codes, contains, lower, starts_with}
use seclab.Core.Events.{Event, World}
use seclab.Sensor.Geoip.{Location, Entry, Reply, lookup}
use seclab.Sensor.App.{
  Decoy, no_decoy, decoy_for, touches_sensitive_path, Request, clean_path_of, is_suspicious,
  event_of, tarpit, catch_all, Trap, sleep, Response, response_for, or_default,
}

starts_with_prefix : (n m s : Text) → starts_with (n ++ m) s ≡ true → starts_with n s ≡ true
unfolding starts_with
starts_with_prefix [] m s h = refl
starts_with_prefix (c ∷ n) m [] h = h
starts_with_prefix (c ∷ n) m (d ∷ s) h = ground (arith, h, starts_with_prefix n m s)

contains_here : (n s : Text) → starts_with n s ≡ true → contains n s ≡ true
unfolding contains
contains_here n [] h = h
contains_here n (c ∷ s) h = ground (arith, h)

-- A text that has a longer one in it has the part behind its first character in it.
contains_part : (c : ℕ) (n m s : Text) → contains (c ∷ (n ++ m)) s ≡ true → contains n s ≡ true
unfolding contains starts_with
contains_part c n m [] h = absurd (ground (arith, h))
contains_part c n m (d ∷ s) h = elim (Bool-cases (contains (c ∷ (n ++ m)) s)) [
  | inl later ↦ ground (arith, contains_part c n m s later)
  | inr first ↦
      let rest : starts_with (n ++ m) s ≡ true = ground (arith, h, first) in
      ground (arith, contains_here n s (starts_with_prefix n m s rest))
]

git_part :
    (path : Text) → contains (codes ".git/config") path ≡ true → contains (codes "git") path ≡ true
unfolding codes
git_part path h = contains_part 46 (codes "git") (codes "/config") path h

-- A path without any of the markers gets no decoy.
decoy_for-unmarked : (path : Text) → touches_sensitive_path path ≡ false → decoy_for path ≡ no_decoy
unfolding decoy_for touches_sensitive_path any
decoy_for-unmarked path h = ground (arith, h, git_part path)

decoy_for-watched :
    (path : Text) → (decoy_for path ≡ no_decoy) ⊎ (touches_sensitive_path path ≡ true)
decoy_for-watched path = elim (Bool-cases (touches_sensitive_path path)) [
  | inl e ↦ inr e
  | inr e ↦ inl (decoy_for-unmarked path e)
]

module _ (isprintable : ℕ → Bool) (randint : ℕ → ℕ → ℕ) (json_dumps : List (Text × Text) → Text)
    (isoformat : ℕ → Text) (min_seconds max_seconds : ℕ) (request : Request) where
  abbrev served : Decoy
  served = decoy_for (lower (clean_path_of isprintable json_dumps request))

  abbrev delay : Option ℕ
  delay = tarpit isprintable json_dumps randint min_seconds max_seconds request

  -- One event was published and one answer made, both behind the delay; if the answer is a decoy,
  -- the event is critical and there was a delay, within the bounds of the settings.
  pub record IsHit (publish : Event → World → World) (before : Trap) (outcome : Trap × Response)
      : Type 0 where
    pub event : Event
    pub decoy : Decoy
    pub published : outcome.0.world ≡ publish event before.world
    pub occurred : event.occurred_at ≡ isoformat outcome.0.clock
    pub answered : outcome.1 ≡ response_for isprintable json_dumps (isoformat outcome.0.clock) decoy
    pub watched :
        (decoy ≡ no_decoy)
        ⊎ ((event.severity ≡ codes "critical")
            × (before.clock + min_seconds ≤ outcome.0.clock)
            × (outcome.0.clock ≤ before.clock + max_seconds))

  sleep-IsWithin :
      (clock : ℕ)
      → touches_sensitive_path (lower (clean_path_of isprintable json_dumps request)) ≡ true
      → (min_seconds ≤ randint min_seconds max_seconds)
        × (randint min_seconds max_seconds ≤ max_seconds)
      → (clock + min_seconds ≤ sleep delay clock) × (sleep delay clock ≤ clock + max_seconds)
  unfolding tarpit sleep is_suspicious
  sleep-IsWithin clock e (low, high) = (ground (arith, e, low, high), ground (arith, e, low, high))

  event_of-critical :
      (geo : Option Location) (now : Text)
      → touches_sensitive_path (lower (clean_path_of isprintable json_dumps request)) ≡ true
      → (event_of isprintable json_dumps request geo now).severity ≡ codes "critical"
  unfolding event_of is_suspicious clean_path_of
  event_of-critical geo now e = ground (arith, e)

  located : ℕ → Reply → ℕ → List Entry → Option Location
  located asked reply stored cache =
      (lookup isprintable (or_default request.client (codes "unknown")) asked reply stored cache).1

  -- Every call of the handler publishes one event and gives one answer, both behind its delay;
  -- whenever the answer is a decoy, the event is critical and the delay is within the bounds of
  -- the settings, if the random number is within the bounds that it is asked for.
  pub catch_all-IsHit :
      (publish : Event → World → World) (asked : ℕ) (reply : Reply) (stored : ℕ) (trap : Trap)
      → (min_seconds ≤ randint min_seconds max_seconds)
        × (randint min_seconds max_seconds ≤ max_seconds)
      → IsHit publish trap (
          catch_all isprintable json_dumps publish randint isoformat min_seconds max_seconds request
            asked reply stored trap)
  unfolding catch_all located event_of
  catch_all-IsHit publish asked reply stored trap within = record {
    event =
        event_of isprintable json_dumps request (located asked reply stored trap.cache)
          (isoformat (sleep delay trap.clock));
    decoy = served;
    published = refl;
    occurred = refl;
    answered = refl;
    watched = elim (decoy_for-watched (lower (clean_path_of isprintable json_dumps request))) [
      | inl none_served ↦ inl none_served
      | inr e ↦ inr (
        event_of-critical (located asked reply stored trap.cache)
            (isoformat (sleep delay trap.clock)) e,
        (sleep-IsWithin trap.clock e within).0,
        (sleep-IsWithin trap.clock e within).1,
      )
    ];
  }
