-- ===== src/Core/Events/Delivery.antt =====
-- What publishing does, whatever happens to the sinks.
use seclab.Prelude.{
  ℕ, ◌≡◌, refl, Bool, true, false, Option, none, some, List, [], ◌∷◌, ◌++◌, ◌||◌, Any, here, there,
  Bool-cases, inl, inr, if◌then◌else◌,
}
use seclab.Prelude.Text.{Text, codes, contains, is_empty}
use seclab.Core.Http.{Address, Contact, Response, Outcome, done, failed, post_json}
use seclab.Core.Http.Guarded.{AllPermitted, post_json-AllPermitted}
use seclab.Core.Events.{
  Event, EventSink, log_sink, discord_sink, other_sink, World, embed_of, emit, and_on, publish,
  register, configure_event_bus,
}

abbrev pub is_log : EventSink → Bool
is_log log_sink = true
is_log (discord_sink url) = false
is_log (other_sink n) = false

abbrev pub is_discord : EventSink → Bool
is_discord log_sink = false
is_discord (discord_sink url) = true
is_discord (other_sink n) = false

-- the list with an element in front for each of the sinks that pass
unfoldable pub for_each : {A : Type 0} → (EventSink → Bool) → List EventSink → A → List A → List A
for_each p [] x xs = xs
for_each p (sink ∷ sinks) x xs = for_each p sinks x (if p sink then x ∷ xs else xs)

-- the list with the sinks of other parts and the event in front, the last one first
unfoldable pub others : Event → List EventSink → List (ℕ × Event) → List (ℕ × Event)
others event [] called = called
others event (log_sink ∷ sinks) called = others event sinks called
others event (discord_sink url ∷ sinks) called = others event sinks called
others event (other_sink n ∷ sinks) called = others event sinks ((n, event) ∷ called)

-- the bus with more sinks, one after the other
unfoldable pub registered : List EventSink → List EventSink → List EventSink
unfolding register
registered bus [] = bus
registered bus (sink ∷ sinks) = registered (register bus sink) sinks

-- The sink that stands first stays first.
registered_log :
    (rest sinks : List EventSink)
    → (more : List EventSink) × (registered (log_sink ∷ rest) sinks ≡ log_sink ∷ more)
unfolding registered
registered_log rest [] = (rest, refl)
registered_log rest (sink ∷ sinks) = registered_log (rest ++ (sink ∷ [])) sinks

configured_log :
    (webhook : Option Text)
    → (rest : List EventSink) × (configure_event_bus webhook ≡ log_sink ∷ rest)
unfolding configure_event_bus
configured_log none = ([], refl)
configured_log (some webhook) =
    elim (Bool-cases (is_empty webhook || contains (codes "your_webhook") webhook)) [
      | inl e ↦ ([], rw e refl)
      | inr e ↦ (discord_sink webhook ∷ [], rw e refl)
    ]

for_each_keeps :
    {A : Type 0} (p : EventSink → Bool) (sinks : List EventSink) (x : A) (xs : List A)
    → Any (λ y. y ≡ x) xs
    → Any (λ y. y ≡ x) (for_each p sinks x xs)
unfolding for_each
for_each_keeps p [] x xs m = m
for_each_keeps p (sink ∷ sinks) x xs m = elim (Bool-cases (p sink)) [
  | inl e ↦ rw e (for_each_keeps p sinks x (x ∷ xs) (there m))
  | inr e ↦ rw e (for_each_keeps p sinks x xs m)
]

module _ (bracketed_ok : Text → Bool) (ip_address : Text → Option Address)
    (getaddrinfo : ℕ → Text → Option (List Text)) (reply : ℕ → Contact → Option Response)
    (urljoin : Text → Text → Text) (allowlist : List Text) (decode : Response → Outcome Text)
    (retries : ℕ) (upper : Text → Text) (other : ℕ → Event → Outcome (Unit {0})) where
  -- Every sink was called once: the log has the event once for each log sink, the HTTP client was
  -- handed its embed once for each Discord sink, and the other sinks were called in their order.
  pub record IsCalled (event : Event) (sinks : List EventSink) (before after : World) : Type 0 where
    pub in_log : after.logged ≡ for_each is_log sinks event before.logged
    pub in_channel : after.posted ≡ for_each is_discord sinks (embed_of upper event) before.posted
    pub in_order : after.called ≡ others event sinks before.called
    pub permitted :
        AllPermitted bracketed_ok ip_address getaddrinfo reply urljoin allowlist after.wire

  pub record IsDelivered (event : Event) (sinks : List EventSink) (before after : World)
      : Type 0 where
    pub every : IsCalled event sinks before after
    pub recorded : Any (λ e. e ≡ event) after.logged

  abbrev published : Event → List EventSink → World → World
  published event sinks w =
      publish bracketed_ok ip_address getaddrinfo reply urljoin allowlist decode retries upper other
        sinks event w

  and_on_lem : (w : World) (o : Outcome (Unit {0})) (f : World → World) → and_on (w, o) f ≡ f w
  unfolding and_on
  and_on_lem w (done u) f = refl
  and_on_lem w (failed e) f = refl

  publish-IsCalled :
      (event : Event) (sinks : List EventSink) (w : World)
      → AllPermitted bracketed_ok ip_address getaddrinfo reply urljoin allowlist w.wire
      → IsCalled event sinks w (published event sinks w)
  unfolding publish emit for_each others
  publish-IsCalled event [] w h = record {
    in_log = refl;
    in_channel = refl;
    in_order = refl;
    permitted = h;
  }
  publish-IsCalled event (log_sink ∷ sinks) w h =
      let k = publish-IsCalled event sinks (record w { logged = event ∷ w.logged }) h in
      rw and_on_lem (record {
        in_log = k.in_log;
        in_channel = k.in_channel;
        in_order = k.in_order;
        permitted = k.permitted;
      })
  publish-IsCalled event (discord_sink url ∷ sinks) w h =
      let sent =
        post_json bracketed_ok ip_address getaddrinfo reply urljoin allowlist decode [] retries url
          w.wire in
      let permitted =
        post_json-AllPermitted bracketed_ok ip_address getaddrinfo reply urljoin allowlist decode []
          retries url w.wire h in
      let k =
        publish-IsCalled event sinks
          (record w { posted = embed_of upper event ∷ w.posted; wire = sent.0 }) permitted in
      rw and_on_lem (record {
        in_log = k.in_log;
        in_channel = k.in_channel;
        in_order = k.in_order;
        permitted = k.permitted;
      })
  publish-IsCalled event (other_sink n ∷ sinks) w h =
      let k = publish-IsCalled event sinks (record w { called = (n, event) ∷ w.called }) h in
      rw and_on_lem (record {
        in_log = k.in_log;
        in_channel = k.in_channel;
        in_order = k.in_order;
        permitted = k.permitted;
      })

  -- An event that is published reaches every sink of the configured bus, and each that other parts
  -- have registered on it, once, whichever of them raises an exception: the log has the event once
  -- more for each log sink, so it has it, the HTTP client is handed its embed once for each
  -- Discord sink, and the sinks of other parts are called with it in the order in which they were
  -- registered. Every connection is one that the egress policy permits, if this was so of the
  -- connections before.
  pub publish-IsDelivered :
      (webhook : Option Text) (extra : List EventSink) (event : Event) (w : World)
      → AllPermitted bracketed_ok ip_address getaddrinfo reply urljoin allowlist w.wire
      → IsDelivered event (registered (configure_event_bus webhook) extra) w (
          publish bracketed_ok ip_address getaddrinfo reply urljoin allowlist decode retries upper
            other
            (registered (configure_event_bus webhook) extra)
            event
            w)
  publish-IsDelivered webhook extra event w h =
      let (bus, starts) = configured_log webhook in
      let (rest, first) = registered_log bus extra in
      let sinks = registered (configure_event_bus webhook) extra in
      let called = publish-IsCalled event sinks w h in
      record {
        every = called;
        recorded =
            rw (called.in_log, starts, first)
              (unfold for_each in for_each_keeps is_log rest event (event ∷ w.logged) (here refl));
      }
