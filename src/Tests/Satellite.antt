-- ===== src/Tests/Satellite.antt =====
-- The satellite at concrete inputs.
use mathlib.Core.Bool.{false≢true}
use athena_voice.Base.{
  ok, ap, ℕ, ◌≡◌, ◌≢◌, refl, sym, inl, true, Option, none, some, List, [], ◌∷◌, arith,
}
use athena_voice.Text.{text_eq, Text, codes, utf8_len}
use athena_voice.Core.Ids.{satellite_id_new, is_satellite_char}
use athena_voice.Mqtt.Topics.{
  session_done, session_tts, session_tts_meta, session_tts_text, session_transcript,
}
use athena_voice.Satellite.Session.{
  Session, Command, configure_speaker, show_transcript, show_answer, State, idle, streaming,
  awaiting_reply, playing, Input, trigger, mic_frame, silence_detected, inbound, tick, play,
  session_ended, handle,
}
use athena_voice.Satellite.Session.Lifecycle.{run_inputs, reply_bounded}
use athena_voice.Satellite.Session.Wire.{sat_of_session, answers_heard}
use athena_voice.Tests.Libs.{two_ids, raw_json}

abbrev session_in : State → Option Text → Option ℕ → Session
session_in state sid deadline = record {
  root = codes "assist";
  sat_id = codes "esp32-sat";
  locale = codes "fr";
  state = state;
  sid = sid;
  deadline_ms = deadline;
}

abbrev fresh_session : Session
fresh_session = session_in idle none none

abbrev waiting : Session
waiting = session_in awaiting_reply (some (codes "a1")) (some 31000)

abbrev talk : List (Text × Input × ℕ)
talk =
    (codes "a1", trigger, 0) ∷ ([], mic_frame (1 ∷ 2 ∷ []), 20) ∷ ([], silence_detected, 1000) ∷ []

abbrev noise : List (Text × Input × ℕ)
noise = ([], mic_frame (1 ∷ []), 1020) ∷ ([], inbound (codes "assist/x") [], 1030) ∷ []

reply_bounded_example :
    (handle raw_json (run_inputs raw_json waiting noise) [] tick 31001).0.state ≡ idle
reply_bounded_example =
    reply_bounded raw_json 31000 31001 waiting noise [] (record { shape = tt }) (inl refl, refl)
      (tt, (tt, tt)) (omega arith)

abbrev speaking : Session
speaking = session_in streaming (some (codes "a1")) (some 10000)

esp_IsAccepted : satellite_id_new (codes "esp32-sat") ≡ ok (record { as_str = codes "esp32-sat" })
unfolding satellite_id_new utf8_len is_satellite_char
esp_IsAccepted = refl

abbrev heard_on : Text → Session × List Command
heard_on topic = handle raw_json waiting [] (inbound topic (9 ∷ [])) 7

answers_heard_example :
    let sat = sat_of_session waiting in
    let heard = session_in playing (some (codes "a1")) (some 31000) in
    (heard_on (session_done two_ids (codes "assist") sat true)
      ≡ (fresh_session, session_ended ∷ []))
    × ((heard_on (session_tts two_ids (codes "assist") sat true) ≡ (heard, play (9 ∷ []) ∷ []))
        × ((heard_on (session_tts_meta two_ids (codes "assist") sat true)
              ≡ (heard, configure_speaker 24000 ∷ []))
            × ((heard_on (session_transcript two_ids (codes "assist") sat true)
                  ≡ (waiting, show_transcript (9 ∷ []) true ∷ []))
                × (heard_on (session_tts_text two_ids (codes "assist") sat true)
                    ≡ (waiting, show_answer (9 ∷ []) ∷ [])))))
answers_heard_example = answers_heard two_ids raw_json waiting true (9 ∷ []) [] 7 (inl refl) refl

ids_differ : codes "a1" ≢ codes "b2"
unfolding text_eq
ids_differ e =
    let p : text_eq (codes "a1") (codes "a1") ≡ text_eq (codes "a1") (codes "b2") =
      ap (text_eq (codes "a1")) e in
    false≢true (sym p)
