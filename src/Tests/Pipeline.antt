-- ===== src/Tests/Pipeline.antt =====
-- The stages of a session on a short answer.
use athena_voice.Tests.Libs.{two_ids}
use athena_voice.Core.Event.{opus, s16le}
use athena_voice.Core.Ids.{SatelliteId}
use athena_voice.Pipeline.Channel.{Channel}
use athena_voice.Pipeline.Llm.{token, answer_end as end_of_answer}
use athena_voice.Pipeline.Sink.{
  SinkMsg, format, chunk, answer_end, new as new_sink, run_sink, publish_done,
}
use athena_voice.Pipeline.Sink.Laws.{
  audio_of, metas_of, dones_of, audio_for, first_meta, owed, copies, run_sink_delivers,
}
use athena_voice.Pipeline.Tts.{
  bus, audio, barge_in, other, Audio, Stage, TtsInput, bus_event, timer, message, new as new_tts,
  is_barge_in_for, Tts, play, run_tts,
}
use athena_voice.Pipeline.Tts.Laws.{texts_of, tokens_among, answer_announced}
use athena_voice.Pipeline.Tts.Playing.{play_cut}
use athena_voice.Base.{
  true, false, refl, none, ◌≡◌, List, [], ◌∷◌, ◌++◌, Result, ok, err, ℕ, length, ◌+◌,
}
use athena_voice.Text.{Text, codes, concat}
use athena_voice.Text.Solid.{solid}
use athena_voice.Core.Ids.{Locale}
use athena_voice.Pipeline.Sentence.{new}
use athena_voice.Pipeline.Sentence.Laws.{sentences, sentences_complete}
use athena_voice.Pipeline.Llm.{run_llm}
use athena_voice.Pipeline.Llm.Laws.{answers, open_with, run_llm-answers}

abbrev greeting : List Text
greeting = codes "Bonjour" ∷ codes ". Il est" ∷ codes " midi" ∷ []

sentences_complete_example : solid (concat (sentences new greeting)) ≡ solid (concat greeting)
sentences_complete_example = sentences_complete greeting

abbrev french : Locale
french = record { as_str = codes "fr-FR" }

-- An answer that breaks off, a call that fails, and a stream that fails at once.
abbrev completions : List (Result (List (Result Text ℕ)) ℕ)
completions =
    ok (ok (codes "Il est") ∷ ok (codes " midi.") ∷ err 7 ∷ []) ∷ err 8 ∷ ok (err 9 ∷ []) ∷ []

run_llm-answers_example :
    run_llm french completions (open_with [] (length (answers french completions) + 3))
    ≡ open_with ([] ++ answers french completions) 3
run_llm-answers_example = run_llm-answers french completions [] 3

abbrev phone : SatelliteId
phone = record { as_str = codes "phone" }

-- Two answers; the session ends in the second one.
abbrev to_sink : List SinkMsg
to_sink =
    format opus 48000 ∷ chunk (1 ∷ 2 ∷ []) ∷ answer_end ∷ format s16le 16000 ∷ chunk (3 ∷ []) ∷ []

run_sink_delivers_example :
    let out = run_sink two_ids (codes "assist") phone true new_sink to_sink in
    (audio_of out ≡ audio_for two_ids (codes "assist") phone true to_sink)
    × (metas_of out ≡ first_meta two_ids (codes "assist") phone true to_sink)
    × (dones_of out
        ≡ copies (owed false to_sink) (publish_done two_ids (codes "assist") phone true))
run_sink_delivers_example = run_sink_delivers two_ids (codes "assist") phone true to_sink

abbrev open_channel : Channel SinkMsg
open_channel = record { sent = []; left = 20 }

abbrev spoken : Result Audio ℕ
spoken = ok (record {
  codec = opus;
  sample_rate = 48000;
  steps = audio (1 ∷ 2 ∷ []) ∷ bus other ∷ audio (3 ∷ []) ∷ [];
})

abbrev to_tts : List (TtsInput × ℕ × Result Audio ℕ)
to_tts =
    (message (token (codes "Il est")), 0, spoken)
    ∷ (bus_event (barge_in 8), 100, spoken)
    ∷ (timer, 900, spoken)
    ∷ (message (token (codes " midi.")), 1000, err 1)
    ∷ []

foreign : is_barge_in_for (barge_in 8) 7 ≡ false
unfolding is_barge_in_for
foreign = refl

answer_announced_example :
    let t =
      run_tts 7 (new_tts open_channel) (to_tts ++ (message end_of_answer, 1100, spoken) ∷ []) in
    (solid (concat (texts_of t.stage.events)) ≡ solid (concat (tokens_among to_tts)))
    × (t.buf.buf ≡ [])
answer_announced_example =
    answer_announced 7 open_channel to_tts 1100 spoken (tt, (foreign, (tt, (tt, tt))))

abbrev quiet_stage : Stage
quiet_stage = record { seq = 0; out = open_channel; events = [] }

play_cut_example :
    play 7 (audio (1 ∷ []) ∷ bus (barge_in 8) ∷ bus (barge_in 7) ∷ audio (2 ∷ []) ∷ []) quiet_stage
    ≡ play 7 (audio (1 ∷ []) ∷ bus (barge_in 8) ∷ []) quiet_stage
play_cut_example =
    play_cut 7 (audio (1 ∷ []) ∷ bus (barge_in 8) ∷ []) (audio (2 ∷ []) ∷ []) quiet_stage

abbrev fresh : Tts
fresh = record { buf = record { buf = [] }; flush_deadline = none; stage = quiet_stage }
