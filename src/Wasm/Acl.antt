-- ===== src/Wasm/Acl.antt =====
-- The topic permissions of skills, of crates/athena-voice-runtime/src/wasm/host_fns.rs.
pub mod Isolation
use athena_voice.Base.{Bool, true, List, [], ◌∷◌, any, if◌then◌else◌}
use athena_voice.Text.{Text, codes, starts_with, concat}
use athena_voice.Mqtt.Filter.{mqtt_topic_matches}

unfoldable pub mqtt_topic_prefix : Text → Text
mqtt_topic_prefix skill = concat (codes "athena/skills/" ∷ skill ∷ codes "/" ∷ [])

unfoldable pub mqtt_topic_allowed : Text → Text → Bool
mqtt_topic_allowed skill topic = starts_with (mqtt_topic_prefix skill) topic

pub mqtt_publish_allowed : Text → Text → List Text → Bool
mqtt_publish_allowed skill topic publish_allowlist =
    if mqtt_topic_allowed skill topic
    then true
    else any (λ pattern. mqtt_topic_matches pattern topic) publish_allowlist
