-- ===== src/Ingress.antt =====
-- What the runtime does with a satellite's message, of crates/athena-voice-runtime/src/satellite/ingress.rs.
-- `number` is the 128-bit number of a session id, by which the session manager knows it; `from_utf8_lossy` is
-- the decoding of a payload. A channel is a number, and what is put on the bus, offered to a channel by `try_send`,
-- which drops it when the channel is full, or started is an effect. A frame's `seq` is always 0.
pub mod Delivery
use athena_voice.Base.{
  ℕ, ◌+◌, Bool, true, false, Option, none, some, List, [], ◌∷◌, ◌++◌, if◌then◌else◌, Result, ok,
  err,
}
use athena_voice.Text.{Text, codes, trim, is_empty}
use athena_voice.Core.Json.{JsonLib}
use athena_voice.Core.Ids.{UuidLib, SatelliteId, Locale, locale_new}
use athena_voice.Mqtt.Topics.{
  ParsedTopic, start, audio, text, finish, to_option, parse_satellite_topic,
}
use athena_voice.Sessions.Manager.{
  SessionManager, SessionState, SessionExists, open_session, get, touch, close,
}

-- `pipeline` stands for the actors that `open_session` spawns, with their channels and their token.
pub data Effect : Type 0 where
  session_started : ℕ → SatelliteId → Locale → Effect
  pipeline : ℕ → ℕ → ℕ → ℕ → Effect
  audio_frame : ℕ → ℕ → List ℕ → Effect
  transcript_final : ℕ → Text → Effect
  final_text : ℕ → Text → Effect

pub record Runtime : Type 0 where
  pub manager : SessionManager ℕ
  pub next_channel : ℕ
  pub effects : List Effect

abbrev english : Locale
english = record { as_str = codes "en" }

-- `unwrap_or_else(|| Locale::new("en").unwrap())`
abbrev pub or_english : Option Locale → Locale
or_english none = english
or_english (some l) = l

opened :
    ℕ
    → SatelliteId
    → Locale
    → SessionManager ℕ × Result (Unit {0}) SessionExists
    → Runtime
    → Runtime
opened sid sat locale (m, err e) rt = rt
opened sid sat locale (m, ok u) rt = record {
  manager = m;
  next_channel = rt.next_channel + 2;
  effects =
      rt.effects
      ++ session_started sid sat locale
        ∷ pipeline sid rt.next_channel (rt.next_channel + 1) rt.manager.next_token
        ∷ [];
}

unfoldable pub start_session : ℕ → SatelliteId → Locale → ℕ → Runtime → Runtime
unfolding opened
start_session sid sat locale now rt =
    opened sid sat locale
      (open_session sid sat locale rt.next_channel (rt.next_channel + 1) now rt.manager) rt

-- `if let Some(state) = session_manager.get(sid)` for audio, and for a text.
on_audio : Option (SessionState ℕ) → ℕ → List ℕ → Runtime → Runtime
on_audio none sid payload rt = rt
on_audio (some st) sid payload rt = record rt {
  effects = rt.effects ++ audio_frame st.audio_tx sid payload ∷ [];
}

on_text : Option (SessionState ℕ) → ℕ → Text → Runtime → Runtime
on_text none sid t rt = rt
on_text (some st) sid t rt =
    if is_empty t
    then rt
    else record rt { effects = rt.effects ++ transcript_final sid t ∷ final_text st.text_tx t ∷ [] }

module _ (lib : UuidLib) (json : JsonLib) where
  open lib use {Uuid}
  open json use {Value, from_slice, as_str}

  locale_field : Option Text → Option Locale
  locale_field none = none
  locale_field (some raw) = to_option (locale_new raw)

  locale_value : Option Value → Option Locale
  unfolding locale_field
  locale_value none = none
  locale_value (some v) = locale_field (as_str v)

  locale_object : Option Value → Option Locale
  unfolding locale_value
  locale_object none = none
  locale_object (some v) = locale_value (json.get v (codes "locale"))

  unfoldable pub extract_locale : List ℕ → Option Locale
  unfolding locale_object
  extract_locale payload = locale_object (from_slice payload)

  module _ (number : Uuid → ℕ) (from_utf8_lossy : List ℕ → Text) where
    on_topic : ParsedTopic Uuid → List ℕ → ℕ → Runtime → Runtime
    unfolding start_session on_audio on_text
    on_topic (start sat sid) payload now rt =
        start_session (number sid) sat (or_english (extract_locale payload)) now rt
    on_topic (audio sat sid) payload now rt =
        let m = touch (number sid) now rt.manager in
        on_audio (get (number sid) m) (number sid) payload (record rt { manager = m })
    on_topic (text sat sid) payload now rt =
        let m = touch (number sid) now rt.manager in
        on_text (get (number sid) m) (number sid) (trim (from_utf8_lossy payload))
          (record rt { manager = m })
    on_topic (finish sat sid) payload now rt = record rt { manager = close (number sid) rt.manager }

    on_parsed : Option (ParsedTopic Uuid) → List ℕ → ℕ → Runtime → Runtime
    unfolding on_topic
    on_parsed none payload now rt = rt
    on_parsed (some p) payload now rt = on_topic p payload now rt

    unfoldable pub handle_publish : Text → Text → List ℕ → ℕ → Runtime → Runtime
    unfolding on_parsed
    handle_publish topic_root topic payload now rt =
        on_parsed (parse_satellite_topic lib topic_root topic) payload now rt
