-- ===== src/Core/Events.antt =====
-- packages/seclab-core/src/seclab/core/events.py: the event bus and its sinks. The values of a
-- payload are their `str`. A post of the Discord sink is one call of the guarded HTTP client, whose
-- outcome nobody reads.
pub mod Escaping
pub mod Delivery
use seclab.Prelude.{
  ℕ, Bool, true, false, Option, none, some, List, [], ◌∷◌, ◌++◌, map, take, ◌==◌, ◌||◌, not,
  if◌then◌else◌, nat_eq,
}
use seclab.Prelude.Text.{Text, codes, contains, is_empty, text_eq}
use seclab.Core.Http.{Address, Contact, Response, Wire, Outcome, done, failed, post_json}

pub record Event : Type 0 where
  pub source : Text
  pub kind : Text
  pub summary : Text
  pub severity : Text
  pub payload : List (Text × Text)
  pub occurred_at : Text

abbrev pub markdown_special_chars : Text
markdown_special_chars = b'*' ∷ b'_' ∷ b'~' ∷ b'|' ∷ b'@' ∷ []

-- `text.replace(char, replacement)` of one character
unfoldable pub replace_char : ℕ → Text → Text → Text
replace_char char replacement [] = []
replace_char char replacement (c ∷ text) =
    let rest = replace_char char replacement text in
    if c == char then replacement ++ rest else c ∷ rest

-- the loop of `_escape_markdown`
unfoldable pub escape_chars : Text → Text → Text
unfolding replace_char
escape_chars [] text = text
escape_chars (char ∷ chars) text = escape_chars chars (replace_char char (b'\\' ∷ char ∷ []) text)

unfoldable pub escape_markdown : Text → Text
unfolding escape_chars
escape_markdown text = escape_chars markdown_special_chars text

unfoldable pub sanitize_code_span_value : Text → Text
unfolding replace_char
sanitize_code_span_value value = replace_char b'`' (b'\'' ∷ []) value

-- what the webhook is sent: one embed, and no mention that is resolved
pub record Embed : Type 0 where
  pub title : Text
  pub description : Text
  pub color : ℕ
  pub fields : List (Text × Text)
  pub footer : Text

unfoldable pub color_of : Text → ℕ
color_of severity =
    if severity == codes "critical"
    then 15548997
    else if severity == codes "warning"
    then 16705372
    else 3901635

unfoldable pub field_of : Text × Text → Text × Text
unfolding sanitize_code_span_value
field_of item = (item.0, b'`' ∷ (sanitize_code_span_value item.1 ++ (b'`' ∷ [])))

module _ (upper : Text → Text) where
  -- the payload that `DiscordSink.emit` builds; `upper` is the method of `str`
  unfoldable pub embed_of : Event → Embed
  unfolding color_of field_of escape_markdown
  embed_of event = record {
    title = b'[' ∷ (upper event.severity ++ (codes "] " ++ (event.source ++ (b'/' ∷ event.kind))));
    description = escape_markdown event.summary;
    color = color_of event.severity;
    fields = map field_of (take 10 event.payload);
    footer = event.occurred_at;
  }

pub data EventSink : Type 0 where
  log_sink : EventSink
  -- with the URL of the webhook
  discord_sink : Text → EventSink
  -- a sink of another part, by its number
  other_sink : ℕ → EventSink

-- The events in the log, the embeds that were handed to the HTTP client, and the sinks of other
-- parts with the events that they were called with, each the newest first; and what the client did, with all its attempts.
pub record World : Type 0 where
  pub logged : List Event
  pub posted : List Embed
  pub called : List (ℕ × Event)
  pub wire : Wire

-- `except Exception: logger.exception(...)` around the post
unfoldable pub caught : {A : Type 0} → Outcome A → Outcome (Unit {0})
caught (done a) = done tt
caught (failed e) = done tt

-- The rest of the loop of `publish` behind a sink, whose exception is logged.
unfoldable pub and_on : World × Outcome (Unit {0}) → (World → World) → World
and_on (w, done u) rest = rest w
and_on (w, failed e) rest = rest w

-- `EventBus.register`
unfoldable pub register : List EventSink → EventSink → List EventSink
register sinks sink = sinks ++ (sink ∷ [])

module _ (bracketed_ok : Text → Bool) (ip_address : Text → Option Address)
    (getaddrinfo : ℕ → Text → Option (List Text)) (reply : ℕ → Contact → Option Response)
    (urljoin : Text → Text → Text) (allowlist : List Text) (decode : Response → Outcome Text)
    (retries : ℕ) (upper : Text → Text) (other : ℕ → Event → Outcome (Unit {0})) where
  -- `LogSink.emit`, `DiscordSink.emit`, and `other` for the sinks of other parts
  unfoldable pub emit : EventSink → Event → World → World × Outcome (Unit {0})
  unfolding embed_of caught
  emit log_sink event w = (record w { logged = event ∷ w.logged }, done tt)
  emit (discord_sink webhook_url) event w =
      let (wire, outcome) =
        post_json bracketed_ok ip_address getaddrinfo reply urljoin allowlist decode [] retries
          webhook_url w.wire in
      (record w { posted = embed_of upper event ∷ w.posted; wire = wire }, caught outcome)
  emit (other_sink n) event w = (record w { called = (n, event) ∷ w.called }, other n event)

  -- `EventBus.publish`
  unfoldable pub publish : List EventSink → Event → World → World
  unfolding emit and_on
  publish [] event w = w
  publish (sink ∷ sinks) event w = and_on (emit sink event w) (publish sinks event)

-- the sinks of `configure_event_bus`, by the webhook of the settings
unfoldable pub configure_event_bus : Option Text → List EventSink
configure_event_bus none = log_sink ∷ []
configure_event_bus (some webhook) =
    if is_empty webhook || contains (codes "your_webhook") webhook
    then log_sink ∷ []
    else log_sink ∷ discord_sink webhook ∷ []
