-- ===== src/Tests/Mqtt.antt =====
-- Topics and filters at concrete texts.
use athena_voice.Base.{◌≡◌, refl, ◌↔◌, true, none, some}
use athena_voice.Text.{Text, codes, split, join, utf8_len}
use athena_voice.Core.Ids.{SatelliteId, satellite_id_new, is_satellite_char}
use athena_voice.Mqtt.Topics.{audio, parse_satellite_topic}
use athena_voice.Mqtt.Topics.Parsing.{IsAccepted, parse-join, parse_slashed_root}
use athena_voice.Mqtt.Filter.{mqtt_topic_matches}
use athena_voice.Mqtt.Filter.Matching.{Matches, mqtt_topic_matches_iff}
use athena_voice.Tests.Libs.{two_ids}

abbrev phone : SatelliteId
phone = record { as_str = codes "phone-01" }

phone-IsAccepted : IsAccepted phone
unfolding satellite_id_new utf8_len is_satellite_char
phone-IsAccepted = refl

abbrev audio_topic : Text
audio_topic = codes "assist/sat/phone-01/session/a1/audio"

parsed : parse_satellite_topic two_ids (codes "assist") audio_topic ≡ some (audio phone true)
unfolding join
parsed = parse-join two_ids (codes "assist") (audio phone true) refl phone-IsAccepted

parse_slashed_root_example :
    parse_satellite_topic two_ids
      (codes "home/voice")
      (codes "home/voice/sat/phone-01/session/a1/audio")
    ≡ none
parse_slashed_root_example =
    parse_slashed_root two_ids (codes "home/voice")
      (codes "home/voice/sat/phone-01/session/a1/audio") refl

mqtt_topic_matches_iff_example :
    (mqtt_topic_matches (codes "home/+/set") (codes "home/lamp/set") ≡ true)
    ↔ Matches (split b'/' (codes "home/+/set")) (split b'/' (codes "home/lamp/set"))
mqtt_topic_matches_iff_example = mqtt_topic_matches_iff (codes "home/+/set") (codes "home/lamp/set")
