-- ===== src/Satellite/Session.antt =====
-- The session state machine of satellite-esp32/src/session.rs: inputs in, commands out.
-- Times are milliseconds in a `u64`. The random session id that `on_trigger` draws is the argument
-- `fresh`, the printed UUID. `serde_json` is the parameter `json`.
pub mod Lifecycle
pub mod Wire
use athena_voice.Base.{
  ℕ, ◌+◌, ◌%◌, ◌^◌, Bool, true, false, Option, none, some, List, [], ◌∷◌, ltb, if◌then◌else◌,
}
use athena_voice.Text.{Text, codes, text_eq, utf8, strip_prefix, concat}
use athena_voice.Core.Json.{JsonLib}
use athena_voice.Mqtt.Topics.{◌>>=◌}

abbrev pub u64 : ℕ → ℕ
u64 n = n % 18446744073709551616

abbrev pub utterance_max_ms : ℕ
utterance_max_ms = 10000

abbrev pub reply_timeout_ms : ℕ
reply_timeout_ms = 30000

pub data Input : Type 0 where
  trigger : Input
  mic_frame : List ℕ → Input
  silence_detected : Input
  inbound : Text → List ℕ → Input
  tick : Input

pub data Command : Type 0 where
  publish : Text → List ℕ → Command
  configure_speaker : ℕ → Command
  play : List ℕ → Command
  show_transcript : Text → Bool → Command
  show_answer : Text → Command
  session_ended : Command

pub data State : Type 0 where
  idle streaming awaiting_reply playing : State

pub record Session : Type 0 where
  pub root : Text
  pub sat_id : Text
  pub locale : Text
  pub state : State
  pub sid : Option Text
  pub deadline_ms : Option ℕ

unfoldable pub new : Text → Text → Text → Session
new root sat_id locale = record {
  root = root;
  sat_id = sat_id;
  locale = locale;
  state = idle;
  sid = none;
  deadline_ms = none;
}

-- The five filters of `subscriptions`, as a list.
unfoldable pub subscriptions : Text → Text → List Text
subscriptions root sat_id =
    let base = concat (root ∷ codes "/sat/" ∷ sat_id ∷ codes "/session/+" ∷ []) in
    concat (base ∷ codes "/transcript" ∷ [])
    ∷ concat (base ∷ codes "/tts" ∷ [])
    ∷ concat (base ∷ codes "/tts/meta" ∷ [])
    ∷ concat (base ∷ codes "/tts/text" ∷ [])
    ∷ concat (base ∷ codes "/done" ∷ [])
    ∷ []

-- `unwrap_or_default` of an optional text
abbrev or_empty : Option Text → Text
or_empty none = []
or_empty (some t) = t

unfoldable pub topic_for : Session → Text → Text
topic_for s suffix = concat (
    s.root
    ∷ codes "/sat/"
    ∷ s.sat_id
    ∷ codes "/session/"
    ∷ or_empty s.sid
    ∷ codes "/"
    ∷ suffix
    ∷ [])

finish : Session → Session × List Command
finish s = (record s { state = idle; sid = none; deadline_ms = none }, session_ended ∷ [])

-- `on_trigger` behind its guard
begin : Session → Text → ℕ → Session × List Command
begin s fresh now_ms =
    let s' = record s {
      sid = some fresh;
      state = streaming;
      deadline_ms = some (u64 (now_ms + utterance_max_ms));
    } in
    (
      s',
      publish (topic_for s' (codes "start"))
            (utf8 (concat (codes "{\"locale\":\"" ∷ s.locale ∷ codes "\"}" ∷ [])))
          ∷ [],
    )

on_trigger : Session → Text → ℕ → Session × List Command
unfolding begin
on_trigger s fresh now_ms = elim (s.state) [ idle ↦ begin s fresh now_ms | _ ↦ (s, []) ]

on_mic_frame : Session → List ℕ → Session × List Command
on_mic_frame s bytes = elim (s.state) [
  | streaming ↦ (s, publish (topic_for s (codes "audio")) bytes ∷ [])
  | _ ↦ (s, [])
]

end_utterance : Session → ℕ → Session × List Command
end_utterance s now_ms = elim (s.state) [
  | streaming ↦
      let s' = record s {
        state = awaiting_reply;
        deadline_ms = some (u64 (now_ms + reply_timeout_ms));
      } in
      (s', publish (topic_for s' (codes "audio")) [] ∷ [])
  | _ ↦ (s, [])
]

-- `u32::try_from(r).ok()`
abbrev u32_try_from : ℕ → Option ℕ
u32_try_from r = if ltb r 4294967296 then some r else none

abbrev unwrap_or_false : Option Bool → Bool
unwrap_or_false none = false
unwrap_or_false (some b) = b

-- `matches!(self.state, State::AwaitingReply | State::Playing)`
accepts_inbound : State → Bool
accepts_inbound awaiting_reply = true
accepts_inbound playing = true
accepts_inbound _ = false

module _ (json : JsonLib) where
  open json use {from_slice, get, as_str, as_u64, as_bool}

  -- `match suffix` of `on_inbound`, an arm for each topic.
  tts_meta : Session → List ℕ → Session × List Command
  tts_meta s payload =
      let sample_rate =
        (from_slice payload >>= λ v.
        get v (codes "sample_rate") >>= λ r. as_u64 r >>= u32_try_from) in
      (
        record s { state = playing },
        elim sample_rate [ none ↦ [] | some rate ↦ configure_speaker rate ∷ [] ],
      )

  transcript : List ℕ → List Command
  transcript payload = elim (from_slice payload) [
    | none ↦ []
    | some v ↦ elim (get v (codes "text") >>= as_str) [
      | none ↦ []
      | some text ↦
          show_transcript text (unwrap_or_false (get v (codes "is_final") >>= as_bool)) ∷ []
    ]
  ]

  pub tts_text : List ℕ → List Command
  tts_text payload = elim (from_slice payload >>= λ v. get v (codes "text") >>= as_str) [
    | none ↦ []
    | some text ↦ show_answer text ∷ []
  ]

  on_suffix : Session → Text → List ℕ → Session × List Command
  unfolding tts_meta transcript tts_text finish
  on_suffix s suffix payload =
      if text_eq suffix (codes "tts/meta")
      then tts_meta s payload
      else if text_eq suffix (codes "tts")
      then (record s { state = playing }, play payload ∷ [])
      else if text_eq suffix (codes "done")
      then finish s
      else if text_eq suffix (codes "transcript")
      then (s, transcript payload)
      else if text_eq suffix (codes "tts/text")
      then (s, tts_text payload)
      else (s, [])

  -- `let Some(suffix) = … else`
  on_stripped : Session → Option Text → List ℕ → Session × List Command
  on_stripped s none payload = (s, [])
  on_stripped s (some suffix) payload = on_suffix s suffix payload

  on_inbound : Session → Text → List ℕ → Session × List Command
  unfolding accepts_inbound on_stripped
  on_inbound s topic payload =
      if accepts_inbound s.state
      then elim (s.sid) [
        | none ↦ (s, [])
        | some sid ↦
            let prefix =
              concat
                (s.root ∷ codes "/sat/" ∷ s.sat_id ∷ codes "/session/" ∷ sid ∷ codes "/" ∷ []) in
            on_stripped s (strip_prefix prefix topic) payload
      ]
      else (s, [])

  on_tick : Session → ℕ → Session × List Command
  unfolding end_utterance finish
  on_tick s now_ms =
      let expired : Bool = elim (s.deadline_ms) [ none ↦ false | some d ↦ ltb d now_ms ] in
      if expired
      then elim (s.state) [
        | idle ↦ (s, [])
        | streaming ↦ end_utterance s now_ms
        | awaiting_reply ↦ finish s
        | playing ↦ finish s
      ]
      else (s, [])

  pub handle : Session → Text → Input → ℕ → Session × List Command
  unfolding on_trigger on_mic_frame on_inbound on_tick
  handle s fresh trigger now_ms = on_trigger s fresh now_ms
  handle s fresh (mic_frame bytes) now_ms = on_mic_frame s bytes
  handle s fresh silence_detected now_ms = end_utterance s now_ms
  handle s fresh (inbound topic payload) now_ms = on_inbound s topic payload
  handle s fresh tick now_ms = on_tick s now_ms
