-- ===== src/Pipeline/Sink/Laws.antt =====
-- What a satellite receives of a session: its audio, one format, and the ends of its answers.
use athena_voice.Base.{
  ℕ, zero, suc, ◌≡◌, refl, ap, Bool, true, false, Option, none, some, List, [], ◌∷◌,
}
use athena_voice.Text.{Text}
use athena_voice.Core.Ids.{UuidLib, SatelliteId}
use athena_voice.Core.Event.{AudioFormat}
use athena_voice.Mqtt.Topics.{session_tts, session_tts_meta}
use athena_voice.Pipeline.Sink.{
  SinkMsg, format, chunk, answer_end, Output, publish, meta, audio, outcome_ok, at_most_once,
  at_least_once, meta_payload, new, publish_done, run_sink, receive, teardown, declare,
}

-- The outputs of a kind.
abbrev pub audio_of : List Output → List Output
audio_of [] = []
audio_of (publish t q (audio b) ∷ os) = publish t q (audio b) ∷ audio_of os
audio_of (_ ∷ os) = audio_of os

abbrev pub metas_of : List Output → List Output
metas_of [] = []
metas_of (publish t q (meta c r n) ∷ os) = publish t q (meta c r n) ∷ metas_of os
metas_of (_ ∷ os) = metas_of os

abbrev pub dones_of : List Output → List Output
dones_of [] = []
dones_of (publish t q outcome_ok ∷ os) = publish t q outcome_ok ∷ dones_of os
dones_of (_ ∷ os) = dones_of os

-- The number of `done` messages that are owed: one for each answer, and one more if the messages do not end
-- with the end of an answer. The Boolean says whether the message before did.
abbrev pub owed : Bool → List SinkMsg → ℕ
owed true [] = 0
owed false [] = 1
owed b (answer_end ∷ ms) = suc (owed true ms)
owed b (_ ∷ ms) = owed false ms

abbrev pub copies : ℕ → Output → List Output
copies zero o = []
copies (suc n) o = o ∷ copies n o

module _ (lib : UuidLib) (topic_root : Text) (sat : SatelliteId) (session : lib.Uuid) where
  -- The audio messages for a list of messages of the stage before.
  abbrev pub audio_for : List SinkMsg → List Output
  audio_for [] = []
  audio_for (chunk bytes ∷ ms) =
      publish (session_tts lib topic_root sat session) at_most_once (audio bytes) ∷ audio_for ms
  audio_for (_ ∷ ms) = audio_for ms

  -- The message for the first format of the list.
  abbrev pub first_meta : List SinkMsg → List Output
  first_meta [] = []
  first_meta (format codec rate ∷ ms) =
      publish (session_tts_meta lib topic_root sat session) at_least_once (meta codec rate 1) ∷ []
  first_meta (_ ∷ ms) = first_meta ms

  abbrev metas_left : Option (AudioFormat × ℕ) → List SinkMsg → List Output
  metas_left none ms = first_meta ms
  metas_left (some prev) ms = []

  audio-run_sink :
      (sent : Option (AudioFormat × ℕ)) (b : Bool) (ms : List SinkMsg)
      → audio_of (run_sink lib topic_root sat session (record { sent = sent; answer_done = b }) ms)
        ≡ audio_for ms
  unfolding run_sink receive teardown declare publish_done meta_payload
  audio-run_sink sent true [] = refl
  audio-run_sink sent false [] = refl
  audio-run_sink none b (format codec rate ∷ ms) = audio-run_sink (some (codec, rate)) false ms
  audio-run_sink (some p) b (format codec rate ∷ ms) = audio-run_sink (some p) false ms
  audio-run_sink sent b (chunk bytes ∷ ms) =
      ap (λ os. publish (session_tts lib topic_root sat session) at_most_once (audio bytes) ∷ os)
        (audio-run_sink sent false ms)
  audio-run_sink sent b (answer_end ∷ ms) = audio-run_sink sent true ms

  metas-run_sink :
      (sent : Option (AudioFormat × ℕ)) (b : Bool) (ms : List SinkMsg)
      → metas_of (run_sink lib topic_root sat session (record { sent = sent; answer_done = b }) ms)
        ≡ metas_left sent ms
  unfolding run_sink receive teardown declare publish_done meta_payload
  metas-run_sink none true [] = refl
  metas-run_sink none false [] = refl
  metas-run_sink (some p) true [] = refl
  metas-run_sink (some p) false [] = refl
  metas-run_sink none b (format codec rate ∷ ms) =
      ap
        (λ os.
          publish (session_tts_meta lib topic_root sat session) at_least_once (meta codec rate 1)
          ∷ os)
        (metas-run_sink (some (codec, rate)) false ms)
  metas-run_sink (some p) b (format codec rate ∷ ms) = metas-run_sink (some p) false ms
  metas-run_sink none b (chunk bytes ∷ ms) = metas-run_sink none false ms
  metas-run_sink (some p) b (chunk bytes ∷ ms) = metas-run_sink (some p) false ms
  metas-run_sink none b (answer_end ∷ ms) = metas-run_sink none true ms
  metas-run_sink (some p) b (answer_end ∷ ms) = metas-run_sink (some p) true ms

  dones-run_sink :
      (sent : Option (AudioFormat × ℕ)) (b : Bool) (ms : List SinkMsg)
      → dones_of (run_sink lib topic_root sat session (record { sent = sent; answer_done = b }) ms)
        ≡ copies (owed b ms) (publish_done lib topic_root sat session)
  unfolding run_sink receive teardown declare publish_done meta_payload
  dones-run_sink sent true [] = refl
  dones-run_sink sent false [] = refl
  dones-run_sink none b (format codec rate ∷ ms) = dones-run_sink (some (codec, rate)) false ms
  dones-run_sink (some p) b (format codec rate ∷ ms) = dones-run_sink (some p) false ms
  dones-run_sink sent b (chunk bytes ∷ ms) = dones-run_sink sent false ms
  dones-run_sink sent b (answer_end ∷ ms) =
      ap (λ os. publish_done lib topic_root sat session ∷ os) (dones-run_sink sent true ms)

  -- The satellite gets what it needs: over any messages, the sink publishes their audio, all and in order,
  -- one format, the first one that is declared, if any, and the `done` messages it owes, one for each answer
  -- and one more exactly if the session ends in the middle of an answer or without any.
  pub run_sink_delivers :
      (ms : List SinkMsg)
      → let out = run_sink lib topic_root sat session new ms in
        (audio_of out ≡ audio_for ms)
        × (metas_of out ≡ first_meta ms)
        × (dones_of out ≡ copies (owed false ms) (publish_done lib topic_root sat session))
  unfolding new
  run_sink_delivers ms =
      (audio-run_sink none false ms, metas-run_sink none false ms, dones-run_sink none false ms)
