-- ===== src/Pipeline/Tts.antt =====
-- The speech-synthesis stage of crates/athena-voice-runtime/src/pipeline/tts.rs.
-- A session id is the 128-bit number of the UUID. What the stage reads is a list of inputs in the order in
-- which the `select!` takes them: messages, bus events, the elapsed flush timer, each with the clock reading
-- at that time and with what a call of `synthesize` gives then. The synthesis is a parameter: an error, or a
-- format, a sample rate, and the steps of playing, in which bus events come between the chunks.
-- Cancellation is the end of the inputs.
pub mod Laws
pub mod Playing
use athena_voice.Base.{
  ℕ, ◌+◌, Bool, true, false, Option, none, some, List, [], ◌∷◌, ◌++◌, leb, ltb, ◌==◌, if◌then◌else◌,
  length, Result, ok, err,
}
use athena_voice.Text.{Text}
use athena_voice.Core.Event.{AudioFormat}
use athena_voice.Pipeline.Sentence.{
  SentenceBuffer, push, take, clear, idle_flush, new as new_buffer,
}
use athena_voice.Pipeline.Llm.{TtsMsg, token, answer_end as end_of_answer}
use athena_voice.Pipeline.Sink.{SinkMsg, format, chunk, answer_end}
use athena_voice.Pipeline.Channel.{Channel, send}

-- What `barge_rx.recv()` gives: a `BargeIn` of a session, another event, or an error such as a lag.
pub data BusEvent : Type 0 where
  barge_in : ℕ → BusEvent
  other : BusEvent
  recv_error : BusEvent

unfoldable pub is_barge_in_for : BusEvent → ℕ → Bool
is_barge_in_for (barge_in s) session = s == session
is_barge_in_for other session = false
is_barge_in_for recv_error session = false

-- One turn of the loop of `flush`.
pub data PlayStep : Type 0 where
  bus : BusEvent → PlayStep
  audio : List ℕ → PlayStep
  stream_error : PlayStep

pub record Audio : Type 0 where
  pub codec : AudioFormat
  pub sample_rate : ℕ
  pub steps : List PlayStep

-- The events that the stage puts on the bus: `TtsText`, and `TtsChunk` with its number and its length.
pub data Announced : Type 0 where
  tts_text : Text → Announced
  tts_chunk : ℕ → ℕ → Announced

-- What `flush` changes.
pub record Stage : Type 0 where
  pub seq : ℕ
  pub out : Channel SinkMsg
  pub events : List Announced

-- `u32::saturating_add(1)`
abbrev pub next_seq : ℕ → ℕ
next_seq seq = if ltb seq 4294967295 then seq + 1 else 4294967295

pub record Tts : Type 0 where
  pub buf : SentenceBuffer
  pub flush_deadline : Option ℕ
  pub stage : Stage

unfoldable pub new : Channel SinkMsg → Tts
new out = record {
  buf = new_buffer;
  flush_deadline = none;
  stage = record { seq = 0; out = out; events = [] };
}

sent_chunk : Stage → List ℕ → Channel SinkMsg → Stage
sent_chunk st bytes out = record {
  seq = next_seq st.seq;
  out = out;
  events = st.events ++ tts_chunk st.seq (length bytes) ∷ [];
}

pub data TtsInput : Type 0 where
  bus_event : BusEvent → TtsInput
  timer : TtsInput
  message : TtsMsg → TtsInput
  closed : TtsInput

module _ (session : ℕ) where
  -- The loop of `flush`.
  pub play : List PlayStep → Stage → Stage
  unfolding is_barge_in_for sent_chunk
  play [] st = st
  play (bus e ∷ steps) st =
      let rest = play steps st in if is_barge_in_for e session then st else rest
  play (audio bytes ∷ steps) st =
      let (out, fine) = send (chunk bytes) st.out in
      let rest = play steps (sent_chunk st bytes out) in
      if fine then rest else record st { out = out }
  play (stream_error ∷ steps) st = st

  on_bus : Tts → BusEvent → Tts
  on_bus t e =
      if is_barge_in_for e session then record t { buf = clear t.buf; flush_deadline = none } else t

  module _ {E : Type 0} where
    speak : Result Audio E → Stage → Stage
    unfolding play
    speak (err e) st = st
    speak (ok a) st =
        let (out, fine) = send (format a.codec a.sample_rate) st.out in
        if fine then play a.steps (record st { out = out }) else record st { out = out }

    flush : Text → Result Audio E → Stage → Stage
    unfolding speak
    flush sentence synthesis st =
        speak synthesis (record st { events = st.events ++ tts_text sentence ∷ [] })

    -- `if let Some(sentence) = … { seq = flush(…) }`
    flush_some : Option Text → Result Audio E → Stage → Stage
    unfolding flush
    flush_some none synthesis st = st
    flush_some (some sentence) synthesis st = flush sentence synthesis st

    -- What `take` gives is flushed.
    drain : Tts → Result Audio E → Tts
    unfolding flush_some
    drain t synthesis =
        let (buf, out) = take t.buf in
        record { buf = buf; flush_deadline = none; stage = flush_some out synthesis t.stage }

    -- The timer branch, which is off while there is no deadline.
    on_timer : Tts → ℕ → Result Audio E → Tts
    unfolding drain
    on_timer t now synthesis = elim (t.flush_deadline) [
      | none ↦ t
      | some d ↦ if leb d now then drain t synthesis else t
    ]

    -- The `match` on what `push` gives.
    on_pushed : Tts → SentenceBuffer → Option Text → ℕ → Result Audio E → Tts
    unfolding flush
    on_pushed t buf (some sentence) now synthesis = record {
      buf = buf;
      flush_deadline = none;
      stage = flush sentence synthesis t.stage;
    }
    on_pushed t buf none now synthesis = record t {
      buf = buf;
      flush_deadline = some (now + idle_flush);
    }

    on_token : Tts → Text → ℕ → Result Audio E → Tts
    unfolding on_pushed
    on_token t tok now synthesis =
        let (buf, out) = push t.buf tok in on_pushed t buf out now synthesis

    on_answer_end : Tts → Result Audio E → Tts × Bool
    unfolding drain
    on_answer_end t synthesis =
        let t' = drain t synthesis in
        let (out, fine) = send answer_end t'.stage.out in
        (record t' { stage = record (t'.stage) { out = out } }, fine)

    -- One turn of the loop of `spawn_tts`, and whether the loop goes on.
    pub step : Tts → TtsInput → ℕ → Result Audio E → Tts × Bool
    unfolding on_bus on_timer on_token on_answer_end drain
    step t (bus_event e) now synthesis = (on_bus t e, true)
    step t timer now synthesis = (on_timer t now synthesis, true)
    step t (message (token tok)) now synthesis = (on_token t tok now synthesis, true)
    step t (message end_of_answer) now synthesis = on_answer_end t synthesis
    step t closed now synthesis = (drain t synthesis, false)

    pub run_tts : Tts → List (TtsInput × ℕ × Result Audio E) → Tts
    unfolding step
    run_tts t [] = t
    run_tts t ((i, now, synthesis) ∷ is) =
        let (t', go_on) = step t i now synthesis in
        let rest = run_tts t' is in if go_on then rest else t'
