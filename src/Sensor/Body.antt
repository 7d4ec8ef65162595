-- ===== src/Sensor/Body.antt =====
-- packages/modules/sensor_chimera/src/seclab_sensor_chimera/middleware.py: the limit on the body
-- of a request. `receive` gives the messages of the server in turn, and the application is what
-- it is called with: the messages that it will receive. The loop over the messages is recursion on
-- fuel, since a client may send empty chunks for ever.
use mathlib.Core.Option
use seclab.Prelude.{
  ℕ, zero, suc, ◌+◌, Bool, false, Option, none, some, [], ◌∷◌, ◌++◌, length, ltb, any, ◌==◌, ◌&&◌,
  if◌then◌else◌,
}
use seclab.Prelude.Text.{Text, codes, text_eq}

pub data Message : Type 0 where
  -- `http.request`, with its `body` and `more_body`
  http_request : Text → Bool → Message
  http_disconnect : Message

pub record Scope : Type 0 where
  pub type : Text
  pub method : Text

-- what is sent without the application
pub record Answer : Type 0 where
  pub status : ℕ
  pub content_type : Text
  pub body : Text

abbrev pub payload_too_large : Answer
payload_too_large = record {
  status = 413;
  content_type = codes "text/plain";
  body = codes "Payload Too Large";
}

-- what the loop ends with: too much was read, or a body and how many messages it took
pub data Reading : Type 0 where
  too_large : Reading
  buffered : Text → ℕ → Reading

pub data Outcome : Type 0 where
  answered : Answer → Outcome
  -- the application is called with the messages
  passed_on : (ℕ → Message) → Outcome

module _ (receive : ℕ → Message) (max_bytes : ℕ) where
  -- One turn of the loop: `n` messages were received before, and `again` is the next turn.
  unfoldable pub read_chunk : Message → ℕ → Text → (Text → Option Reading) → Option Reading
  read_chunk http_disconnect n body again = some (buffered body (suc n))
  read_chunk (http_request chunk more_body) n body again =
      let next = again (body ++ chunk) in
      if ltb max_bytes (length (body ++ chunk))
      then some too_large
      else if more_body
      then next
      else some (buffered (body ++ chunk) (suc n))

  -- the loop, with fuel
  unfoldable pub read_body : ℕ → ℕ → Text → Option Reading
  unfolding read_chunk
  read_body zero n body = none
  read_body (suc fuel) n body = read_chunk (receive n) n body (λ b. read_body fuel (suc n) b)

  -- `replay_receive`
  unfoldable pub replay_receive : Text → ℕ → ℕ → Message
  replay_receive body n zero = http_request body false
  replay_receive body n (suc k) = receive (n + k)

  unfoldable pub outcome_of : Reading → Outcome
  unfolding replay_receive
  outcome_of too_large = answered payload_too_large
  outcome_of (buffered body n) = passed_on (replay_receive body n)

  unfoldable pub is_limited : Scope → Bool
  is_limited scope =
      scope.type == codes "http"
      && any (λ m. m == scope.method) (codes "POST" ∷ codes "PUT" ∷ codes "PATCH" ∷ [])

  -- `__call__`; `none` if the loop had not ended
  unfoldable pub call : ℕ → Scope → Option Outcome
  unfolding read_body outcome_of
  call fuel scope =
      if is_limited scope
      then Option.map outcome_of (read_body fuel 0 [])
      else some (passed_on receive)
