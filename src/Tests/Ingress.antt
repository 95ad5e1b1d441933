-- ===== src/Tests/Ingress.antt =====
-- Messages of a satellite at a concrete runtime.
use athena_voice.Base.{ℕ, refl, Bool, true, false, List, [], ◌∷◌}
use athena_voice.Text.{Text, codes, utf8_len}
use athena_voice.Base.Dict.{lookup}
use athena_voice.Core.Ids.{SatelliteId, Locale, satellite_id_new, is_satellite_char}
use athena_voice.Mqtt.Topics.{start, text}
use athena_voice.Mqtt.Topics.Parsing.{IsAccepted}
use athena_voice.Sessions.Manager.{SessionState, get}
use athena_voice.Ingress.{Runtime, handle_publish}
use athena_voice.Ingress.Delivery.{
  Delivers, Opens, topic_of, handle_publish-Delivers, handle_publish-Opens,
}
use athena_voice.Tests.Libs.{two_ids, raw_json}

abbrev kitchen : SatelliteId
kitchen = record { as_str = codes "kitchen" }

kitchen-IsAccepted : IsAccepted kitchen
unfolding satellite_id_new utf8_len is_satellite_char
kitchen-IsAccepted = refl

abbrev french : Locale
french = record { as_str = codes "fr" }

abbrev number : Bool → ℕ
number true = 1
number false = 2

abbrev raw_text : List ℕ → Text
raw_text bytes = bytes

abbrev opened_at_5 : SessionState ℕ
opened_at_5 = record {
  sat = kitchen;
  locale = french;
  cancel = 0;
  audio_tx = 0;
  text_tx = 1;
  last_activity_ms = 5;
}

abbrev busy : Runtime
busy = record {
  manager = record { map = (1, opened_at_5) ∷ []; next_token = 1; cancelled = [] };
  next_channel = 2;
  effects = [];
}

handle_publish-Delivers_example :
    Delivers two_ids raw_json number raw_text
      (text kitchen true)
      (codes " oui ")
      9
      opened_at_5
      1
      busy
      (handle_publish two_ids raw_json number raw_text
        (codes "assist")
        (topic_of two_ids raw_json number raw_text (codes "assist") (text kitchen true))
        (codes " oui ")
        9
        busy)
unfolding get lookup
handle_publish-Delivers_example =
    handle_publish-Delivers two_ids raw_json number raw_text (codes "assist") (text kitchen true)
      (codes " oui ") 9 1 opened_at_5 busy refl kitchen-IsAccepted refl

handle_publish-Opens_example :
    Opens two_ids raw_json number raw_text (start kitchen false) (codes "fr") 9 2 busy (
      handle_publish two_ids raw_json number raw_text
        (codes "assist")
        (topic_of two_ids raw_json number raw_text (codes "assist") (start kitchen false))
        (codes "fr")
        9
        busy)
unfolding get lookup
handle_publish-Opens_example =
    handle_publish-Opens two_ids raw_json number raw_text (codes "assist") (start kitchen false)
      (codes "fr") 9 2 busy refl kitchen-IsAccepted refl
