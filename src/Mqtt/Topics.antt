-- ===== src/Mqtt/Topics.antt =====
-- The topic layout of crates/athena-voice-runtime/src/mqtt/topics.rs, and the parser of what
-- satellites send.
pub mod Parsing
use athena_voice.Base.{
  Bool, not, ◌||◌, Option, none, some, List, [], ◌∷◌, if◌then◌else◌, Result, ok, err,
}
use athena_voice.Text.{Text, codes, text_eq, split, concat}
use athena_voice.Core.Ids.{UuidLib, SatelliteId, satellite_id_new, session_id_from_str}

abbrev pub default_root : Text
default_root = codes "assist"

unfoldable pub sat_wildcard : Text → Text
sat_wildcard root = concat (root ∷ codes "/sat/+/session/#" ∷ [])

unfoldable pub event_topic : Text → Text → Text
event_topic root kind = concat (root ∷ codes "/events/" ∷ kind ∷ [])

unfoldable pub provider_request : Text → Text → Text → Text
provider_request root kind name =
    concat (root ∷ codes "/providers/" ∷ kind ∷ codes "/" ∷ name ∷ codes "/request" ∷ [])

unfoldable pub provider_response : Text → Text → Text → Text
provider_response root kind name =
    concat (root ∷ codes "/providers/" ∷ kind ∷ codes "/" ∷ name ∷ codes "/response" ∷ [])

pub data ParsedTopic (Uuid : Type 0) : Type 0 where
  start audio text finish : SatelliteId → Uuid → ParsedTopic Uuid

-- `Result::ok`
abbrev pub to_option {ℓ κ} : {A : Type ℓ} {E : Type κ} → Result A E → Option A
to_option (ok a) = some a
to_option (err _) = none

infixl 5 ◌>>=◌
abbrev pub ◌>>=◌ {ℓ κ} : {A : Type ℓ} {B : Type κ} → Option A → (A → Option B) → Option B
none >>= f = none
some a >>= f = f a

module _ (lib : UuidLib) where
  open lib use {Uuid, to_string}

  unfoldable pub session_transcript : Text → SatelliteId → Uuid → Text
  session_transcript root sat sid = concat (
      root
      ∷ codes "/sat/"
      ∷ sat.as_str
      ∷ codes "/session/"
      ∷ to_string sid
      ∷ codes "/transcript"
      ∷ [])

  unfoldable pub session_tts : Text → SatelliteId → Uuid → Text
  session_tts root sat sid =
      concat
        (root ∷ codes "/sat/" ∷ sat.as_str ∷ codes "/session/" ∷ to_string sid ∷ codes "/tts" ∷ [])

  unfoldable pub session_tts_meta : Text → SatelliteId → Uuid → Text
  session_tts_meta root sat sid = concat (
      root
      ∷ codes "/sat/"
      ∷ sat.as_str
      ∷ codes "/session/"
      ∷ to_string sid
      ∷ codes "/tts/meta"
      ∷ [])

  unfoldable pub session_tts_text : Text → SatelliteId → Uuid → Text
  session_tts_text root sat sid = concat (
      root
      ∷ codes "/sat/"
      ∷ sat.as_str
      ∷ codes "/session/"
      ∷ to_string sid
      ∷ codes "/tts/text"
      ∷ [])

  unfoldable pub session_done : Text → SatelliteId → Uuid → Text
  session_done root sat sid =
      concat
        (root ∷ codes "/sat/" ∷ sat.as_str ∷ codes "/session/" ∷ to_string sid ∷ codes "/done" ∷ [])

  -- The last `match` of `parse_satellite_topic`.
  parse_verb : Text → SatelliteId → Uuid → Option (ParsedTopic Uuid)
  parse_verb verb sat sid =
      if text_eq verb (codes "start")
      then some (start sat sid)
      else if text_eq verb (codes "audio")
      then some (audio sat sid)
      else if text_eq verb (codes "text")
      then some (text sat sid)
      else if text_eq verb (codes "end")
      then some (finish sat sid)
      else none

  -- The test on the number of parts is the pattern.
  parse_parts : Text → List Text → Option (ParsedTopic Uuid)
  unfolding parse_verb
  parse_parts root (p0 ∷ p1 ∷ p2 ∷ p3 ∷ p4 ∷ p5 ∷ []) =
      if not (text_eq p0 root)
        || (not (text_eq p1 (codes "sat")) || not (text_eq p3 (codes "session")))
      then none
      else do
        sat ← to_option (satellite_id_new p2)
        sid ← to_option (session_id_from_str lib p4)
        parse_verb p5 sat sid
  parse_parts root _ = none

  pub parse_satellite_topic : Text → Text → Option (ParsedTopic Uuid)
  unfolding parse_parts
  parse_satellite_topic root topic = parse_parts root (split b'/' topic)
