-- ===== src/Assist/Topics.antt =====
-- The topics and payloads of crates/athena-voice-runtime/src/assist/topics.rs.
pub mod Parsing
use athena_voice.Base.{
  ℕ, Bool, true, false, ◌||◌, Option, none, some, List, [], ◌∷◌, if◌then◌else◌, any, ◌==◌,
}
use athena_voice.Text.{Text, codes, concat, strip_prefix, trim, is_empty}
use athena_voice.Core.Json.{JsonLib}

unfoldable pub transcription_wildcard : Text → Text
transcription_wildcard prefix = concat (prefix ∷ codes "/transcription/+" ∷ [])

-- A device id that is empty or has a character special to MQTT is refused.
abbrev pub is_hostile : Text → Bool
is_hostile device = is_empty device || any (λ c. c == b'/' || (c == b'+' || c == b'#')) device

device_of : Option Text → Option Text
device_of none = none
device_of (some device) = if is_hostile device then none else some device

level_of : Option Text → Option Text
unfolding device_of
level_of none = none
level_of (some rest) = device_of (strip_prefix (codes "transcription/") rest)

rest_of : Option Text → Option Text
unfolding level_of
rest_of none = none
rest_of (some rest) = level_of (strip_prefix (codes "/") rest)

unfoldable pub parse_transcription : Text → Text → Option Text
unfolding rest_of
parse_transcription prefix topic = rest_of (strip_prefix prefix topic)

unfoldable pub tts_topic : Text → Text → Text
tts_topic prefix device = concat (prefix ∷ codes "/tts/" ∷ device ∷ [])

unfoldable pub status_topic : Text → Text → Text
status_topic prefix device = concat (prefix ∷ codes "/llm/" ∷ device ∷ codes "/status" ∷ [])

unfoldable pub heartbeat_topic : Text → Text
heartbeat_topic prefix = concat (prefix ∷ codes "/heartbeat/" ∷ [])

module _ (lib : JsonLib) where
  open lib use {Value, from_slice, get, as_str}

  nonblank : Text → Option Text
  nonblank text = if is_empty (trim text) then none else some (trim text)

  text_of : Option Text → Option Text
  unfolding nonblank
  text_of none = none
  text_of (some text) = nonblank text

  field_of : Option Value → Option Text
  unfolding text_of
  field_of none = none
  field_of (some v) = text_of (as_str v)

  value_of : Option Value → Option Text
  unfolding field_of
  value_of none = none
  value_of (some v) = field_of (get v (codes "text"))

  unfoldable pub parse_text_payload : List ℕ → Option Text
  unfolding value_of
  parse_text_payload payload = value_of (from_slice payload)
