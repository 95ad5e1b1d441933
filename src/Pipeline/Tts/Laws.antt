-- ===== src/Pipeline/Tts/Laws.antt =====
-- What is said of an answer.
use athena_voice.Base.{
  ℕ, ◌≡◌, refl, ap, sym, ◌∙◌, false, Option, none, some, List, [], ◌∷◌, ◌++◌, append-nil,
  append_assoc, if◌then◌else◌, Result, ok, err, inl, inr, Bool-cases, length, leb,
}
use athena_voice.Text.{Text, concat}
use athena_voice.Text.Solid.{solid, solid-nil, solid-append}
use athena_voice.Pipeline.Sentence.{SentenceBuffer, push, take, new as new_buffer}
use athena_voice.Pipeline.Sentence.Laws.{said, solid-push, solid-take_rest, take_empties}
use athena_voice.Pipeline.Llm.{token, answer_end as end_of_answer}
use athena_voice.Pipeline.Sink.{SinkMsg, chunk, format}
use athena_voice.Pipeline.Channel.{Channel, send}
use athena_voice.Pipeline.Tts.{
  BusEvent, is_barge_in_for, PlayStep, bus, audio, stream_error, Audio, Announced, tts_text,
  tts_chunk, Stage, Tts, new, sent_chunk, TtsInput, bus_event, timer, message, closed, play, speak,
  flush, flush_some, drain, on_bus, on_timer, on_pushed, on_token, on_answer_end, step, run_tts,
}

-- The texts that are announced, in order.
abbrev pub texts_of : List Announced → List Text
texts_of [] = []
texts_of (tts_text t ∷ es) = t ∷ texts_of es
texts_of (tts_chunk k n ∷ es) = texts_of es

texts_of-append : (es es' : List Announced) → texts_of (es ++ es') ≡ texts_of es ++ texts_of es'
texts_of-append [] es' = refl
texts_of-append (tts_text t ∷ es) es' = ap (λ ts. t ∷ ts) (texts_of-append es es')
texts_of-append (tts_chunk k n ∷ es) es' = texts_of-append es es'

concat-append : (ts us : List Text) → concat (ts ++ us) ≡ concat ts ++ concat us
concat-append [] us = refl
concat-append (t ∷ ts) us =
    ap (λ x. t ++ x) (concat-append ts us) ∙ sym (append_assoc t (concat ts) (concat us))

module _ (session : ℕ) where
  play-texts :
      (steps : List PlayStep) (st : Stage)
      → texts_of (play session steps st).events ≡ texts_of st.events
  unfolding play sent_chunk
  play-texts [] st = refl
  play-texts (stream_error ∷ steps) st = refl
  play-texts (bus e ∷ steps) st = elim (Bool-cases (is_barge_in_for e session)) [
    | inl hit ↦ rw hit refl
    | inr miss ↦ rw miss (play-texts steps st)
  ]
  play-texts (audio bytes ∷ steps) st =
      let (out, fine) = send (chunk bytes) st.out in
      elim (Bool-cases fine) [
        | inl hit ↦ rw hit (
            play-texts steps (sent_chunk st bytes out)
            ∙ texts_of-append st.events (tts_chunk st.seq (length bytes) ∷ [])
            ∙ append-nil (texts_of st.events))
        | inr miss ↦ rw miss refl
      ]

  module _ {E : Type 0} where
    speak-texts :
        (synthesis : Result Audio E) (st : Stage)
        → texts_of (speak session synthesis st).events ≡ texts_of st.events
    unfolding speak
    speak-texts (err e) st = refl
    speak-texts (ok a) st =
        let (out, fine) = send (format a.codec a.sample_rate) st.out in
        elim (Bool-cases fine) [
          | inl hit ↦ rw hit (play-texts a.steps (record st { out = out }))
          | inr miss ↦ rw miss refl
        ]

    flush-texts :
        (sentence : Text) (synthesis : Result Audio E) (st : Stage)
        → texts_of (flush session sentence synthesis st).events
          ≡ texts_of st.events ++ sentence ∷ []
    unfolding flush
    flush-texts sentence synthesis st =
        speak-texts synthesis (record st { events = st.events ++ tts_text sentence ∷ [] })
        ∙ texts_of-append st.events (tts_text sentence ∷ [])

-- What a stage has said, or holds back to say, up to white space.
abbrev pub said_by : Tts → Text
said_by t = solid (concat (texts_of t.stage.events)) ++ solid t.buf.buf

-- The tokens among the inputs of an answer.
abbrev pub tokens_among : {E : Type 0} → List (TtsInput × ℕ × Result Audio E) → List Text
tokens_among [] = []
tokens_among ((message (token tok), now, synthesis) ∷ is) = tok ∷ tokens_among is
tokens_among (_ ∷ is) = tokens_among is

-- Inputs that neither end the answer nor interrupt it.
abbrev pub Quiet : ℕ → TtsInput → Type 0
Quiet session (bus_event e) = is_barge_in_for e session ≡ false
Quiet session timer = Unit
Quiet session (message (token tok)) = Unit
Quiet session (message end_of_answer) = ⊥
Quiet session closed = ⊥

new_said : (out : Channel SinkMsg) (text : Text) → said_by (new out) ++ text ≡ text
unfolding new new_buffer
new_said out text = rw solid-nil refl

-- A stage that has said all it held back, and a text more.
abbrev Finishes : Tts → Text → Tts → Type 0
Finishes t text t' = (said_by t' ≡ said_by t ++ text) × (t'.buf.buf ≡ [])

Finishes-after :
    (t t₁ t' : Tts) (text text' : Text)
    → said_by t₁ ≡ said_by t ++ text
    → Finishes t₁ text' t'
    → Finishes t (text ++ text') t'
Finishes-after t t₁ t' text text' h (f, empty) =
    (f ∙ ap (λ x. x ++ text') h ∙ append_assoc (said_by t) text text', empty)

on_bus-quiet :
    (session : ℕ) (t : Tts) (e : BusEvent)
    → is_barge_in_for e session ≡ false
    → on_bus session t e ≡ t
unfolding on_bus
on_bus-quiet session t e h = rw h refl

module _ (session : ℕ) {E : Type 0} where
  flush-said :
      (sentence rest : Text) (synthesis : Result Audio E) (st : Stage)
      → solid (concat (texts_of (flush session sentence synthesis st).events)) ++ rest
        ≡ solid (concat (texts_of st.events)) ++ (solid sentence ++ rest)
  flush-said sentence rest synthesis st =
      let before = texts_of st.events in
      rw
        (
          flush-texts session sentence synthesis st,
          concat-append before (sentence ∷ []),
          solid-append (concat before) (sentence ++ []),
          append-nil sentence,
        )
        (append_assoc (solid (concat before)) (solid sentence) rest)

  flush_some-said :
      (o : Option Text) (rest : Text) (synthesis : Result Audio E) (st : Stage)
      → solid (concat (texts_of (flush_some session o synthesis st).events)) ++ rest
        ≡ solid (concat (texts_of st.events)) ++ (solid (said o) ++ rest)
  unfolding flush_some
  flush_some-said none rest synthesis st = rw solid-nil refl
  flush_some-said (some sentence) rest synthesis st = flush-said sentence rest synthesis st

  drain-said :
      (t : Tts) (synthesis : Result Audio E) → said_by (drain session t synthesis) ≡ said_by t
  unfolding drain
  drain-said t synthesis =
      let (buf, out) = take t.buf in
      flush_some-said out (solid buf.buf) synthesis t.stage
      ∙ ap (λ x. solid (concat (texts_of t.stage.events)) ++ x) (solid-take_rest t.buf)

  on_pushed-said :
      (t : Tts) (buf : SentenceBuffer) (o : Option Text) (now : ℕ) (synthesis : Result Audio E)
      → said_by (on_pushed session t buf o now synthesis)
        ≡ solid (concat (texts_of t.stage.events)) ++ (solid (said o) ++ solid buf.buf)
  unfolding on_pushed
  on_pushed-said t buf none now synthesis = rw solid-nil refl
  on_pushed-said t buf (some sentence) now synthesis =
      flush-said sentence (solid buf.buf) synthesis t.stage

  on_token-said :
      (t : Tts) (tok : Text) (now : ℕ) (synthesis : Result Audio E)
      → said_by (on_token session t tok now synthesis) ≡ said_by t ++ solid tok
  unfolding on_token
  on_token-said t tok now synthesis =
      let (buf, out) = push t.buf tok in
      let before = solid (concat (texts_of t.stage.events)) in
      on_pushed-said t buf out now synthesis
      ∙ ap (λ x. before ++ x) (solid-push t.buf tok)
      ∙ sym (append_assoc before (solid t.buf.buf) (solid tok))

  on_timer-said :
      (t : Tts) (now : ℕ) (synthesis : Result Audio E)
      → said_by (on_timer session t now synthesis) ≡ said_by t
  unfolding on_timer
  on_timer-said t now synthesis = timed (t.flush_deadline)
    where
      timed :
          (deadline : Option ℕ)
          → said_by (elim deadline [
            | none ↦ t
            | some d ↦ if leb d now then drain session t synthesis else t
          ])
            ≡ said_by t
      timed none = refl
      timed (some d) = elim (Bool-cases (leb d now)) [
        | inl due ↦ rw due (drain-said t synthesis)
        | inr early ↦ rw early refl
      ]

  abbrev pub AllQuiet : List (TtsInput × ℕ × Result Audio E) → Type 0
  AllQuiet [] = Unit
  AllQuiet ((i, now, synthesis) ∷ is) = Quiet session i × AllQuiet is

  on_answer_end-Finishes :
      (t : Tts) (synthesis : Result Audio E) → Finishes t [] (on_answer_end session t synthesis).0
  unfolding on_answer_end drain
  on_answer_end-Finishes t synthesis =
      (drain-said t synthesis ∙ sym (append-nil (said_by t)), take_empties t.buf)

  end-Finishes :
      (t : Tts) (now : ℕ) (synthesis : Result Audio E)
      → Finishes t [] (run_tts session t ((message end_of_answer, now, synthesis) ∷ []))
  unfolding run_tts step
  end-Finishes t now synthesis = elim (Bool-cases (on_answer_end session t synthesis).1) [
    | inl fine ↦ rw fine (on_answer_end-Finishes t synthesis)
    | inr gone ↦ rw gone (on_answer_end-Finishes t synthesis)
  ]

  run-Finishes :
      (t : Tts) (is : List (TtsInput × ℕ × Result Audio E)) (now : ℕ) (synthesis : Result Audio E)
      → AllQuiet is
      → Finishes t
          (solid (concat (tokens_among is)))
          (run_tts session t (is ++ (message end_of_answer, now, synthesis) ∷ []))
  unfolding run_tts step
  run-Finishes t [] now synthesis q = rw solid-nil (end-Finishes t now synthesis)
  run-Finishes t ((message (token tok), n, s) ∷ is) now synthesis q =
      rw (solid-append tok (concat (tokens_among is))) (
        Finishes-after t (on_token session t tok n s)
          (run_tts session (on_token session t tok n s)
            (is ++ (message end_of_answer, now, synthesis) ∷ []))
          (solid tok) (solid (concat (tokens_among is))) (on_token-said t tok n s)
          (run-Finishes (on_token session t tok n s) is now synthesis q.1))
  run-Finishes t ((timer, n, s) ∷ is) now synthesis q =
      Finishes-after t (on_timer session t n s)
        (run_tts session (on_timer session t n s)
          (is ++ (message end_of_answer, now, synthesis) ∷ []))
        [] (solid (concat (tokens_among is))) (on_timer-said t n s ∙ sym (append-nil (said_by t)))
        (run-Finishes (on_timer session t n s) is now synthesis q.1)
  run-Finishes t ((bus_event e, n, s) ∷ is) now synthesis q =
      rw (on_bus-quiet session t e q.0) (run-Finishes t is now synthesis q.1)
  run-Finishes t ((message end_of_answer, n, s) ∷ is) now synthesis q = absurd q.0
  run-Finishes t ((closed, n, s) ∷ is) now synthesis q = absurd q.0

  -- An answer is announced whole: from a new stage, however its tokens mix with elapsed timers and with bus
  -- events that are no barge-in of this session, and however each synthesis goes, at the end of the answer
  -- the announced texts have exactly the characters of its tokens, up to white space, and nothing waits.
  pub answer_announced :
      (out : Channel SinkMsg) (is : List (TtsInput × ℕ × Result Audio E)) (now : ℕ)
      (synthesis : Result Audio E)
      → AllQuiet is
      → let t = run_tts session (new out) (is ++ (message end_of_answer, now, synthesis) ∷ []) in
        (solid (concat (texts_of t.stage.events)) ≡ solid (concat (tokens_among is)))
        × (t.buf.buf ≡ [])
  answer_announced out is now synthesis q =
      let (said, empty) = run-Finishes (new out) is now synthesis q in
      let t' = run_tts session (new out) (is ++ (message end_of_answer, now, synthesis) ∷ []) in
      (
        sym (append-nil (solid (concat (texts_of t'.stage.events))))
            ∙ ap (λ x. solid (concat (texts_of t'.stage.events)) ++ x)
                (sym solid-nil ∙ ap solid (sym empty))
            ∙ said
            ∙ new_said out (solid (concat (tokens_among is))),
        empty,
      )
