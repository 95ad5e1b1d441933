-- ===== src/Pipeline/Sink.antt =====
-- The response sink of crates/athena-voice-runtime/src/pipeline/sink.rs.
-- Its cancellation is the end of the list of messages. A failed publish is only logged, so a publish is an
-- output. The payloads that `serde_json` prints are values.
pub mod Laws
use athena_voice.Base.{ℕ, Bool, true, false, Option, none, some, List, [], ◌∷◌, ◌++◌, if◌then◌else◌}
use athena_voice.Text.{Text}
use athena_voice.Core.Ids.{UuidLib, SatelliteId}
use athena_voice.Core.Event.{AudioFormat}
use athena_voice.Mqtt.Topics.{session_tts, session_tts_meta, session_done}

pub data SinkMsg : Type 0 where
  format : AudioFormat → ℕ → SinkMsg
  chunk : List ℕ → SinkMsg
  answer_end : SinkMsg

pub data QoS : Type 0 where
  at_most_once at_least_once : QoS

pub data Payload : Type 0 where
  -- codec, sample rate, channels
  meta : AudioFormat → ℕ → ℕ → Payload
  audio : List ℕ → Payload
  outcome_ok : Payload

pub data Output : Type 0 where
  publish : Text → QoS → Payload → Output
  session_ended : Output

unfoldable pub meta_payload : AudioFormat → ℕ → Payload
meta_payload codec sample_rate = meta codec sample_rate 1

pub record Sink : Type 0 where
  pub sent : Option (AudioFormat × ℕ)
  pub answer_done : Bool

unfoldable pub new : Sink
new = record { sent = none; answer_done = false }

module _ (lib : UuidLib) (topic_root : Text) (sat : SatelliteId) (session : lib.Uuid) where
  unfoldable pub publish_done : Output
  publish_done = publish (session_done lib topic_root sat session) at_least_once outcome_ok

  -- The `match sent` of a declared format.
  declare : Option (AudioFormat × ℕ) → AudioFormat → ℕ → Option (AudioFormat × ℕ) × List Output
  declare none codec sample_rate = (
    some (codec, sample_rate),
    publish (session_tts_meta lib topic_root sat session) at_least_once
          (meta_payload codec sample_rate)
        ∷ [],
  )
  declare (some prev) codec sample_rate = (some prev, [])

  -- One message.
  receive : Sink → SinkMsg → Sink × List Output
  unfolding declare
  receive s (format codec sample_rate) =
      let (sent, out) = declare s.sent codec sample_rate in
      (record { sent = sent; answer_done = false }, out)
  receive s (chunk bytes) = (
    record s { answer_done = false },
    publish (session_tts lib topic_root sat session) at_most_once (audio bytes) ∷ [],
  )
  receive s answer_end = (record s { answer_done = true }, publish_done ∷ [])

  teardown : Sink → List Output
  teardown s = if s.answer_done then session_ended ∷ [] else publish_done ∷ session_ended ∷ []

  -- The loop of `spawn_sink` and what follows it.
  pub run_sink : Sink → List SinkMsg → List Output
  unfolding receive teardown
  run_sink s [] = teardown s
  run_sink s (m ∷ ms) = let (s', out) = receive s m in out ++ run_sink s' ms
