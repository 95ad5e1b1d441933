-- ===== src/Pipeline/Tts/Playing.antt =====
-- The audio that reaches the sink: none after a barge-in, and each chunk announced under its number.
use athena_voice.Base.{
  ℕ, ◌≡◌, refl, ap, sym, ◌∙◌, inl, inr, true, Option, none, some, List, [], ◌∷◌, ◌++◌, append-nil,
  if◌then◌else◌, Result, ok, err, Bool-cases, leb, ◌==◌, arith, length,
}
use athena_voice.Text.{Text}
use athena_voice.Pipeline.Sentence.{SentenceBuffer, push, take}
use athena_voice.Pipeline.Llm.{token, answer_end as end_of_answer}
use athena_voice.Pipeline.Sink.{SinkMsg, chunk, format, answer_end}
use athena_voice.Pipeline.Channel.{Channel, send, send-cases}
use athena_voice.Pipeline.Tts.{
  BusEvent, barge_in, is_barge_in_for, PlayStep, bus, audio, stream_error, Audio, Announced,
  tts_text, tts_chunk, Stage, Tts, sent_chunk, next_seq, TtsInput, bus_event, timer, message,
  closed, play, speak, flush, flush_some, drain, on_bus, on_timer, on_pushed, on_token,
  on_answer_end, step, run_tts,
}

same_session : (n : ℕ) → (n == n) ≡ true
same_session n = ground arith

module _ (session : ℕ) where
  -- A barge-in cuts the sentence at hand off: whatever the synthesis of that sentence would still give after it,
  -- and whatever else is on the bus, changes nothing of what is sent and announced for it.
  pub play_cut :
      (before after : List PlayStep) (st : Stage)
      → play session (before ++ bus (barge_in session) ∷ after) st ≡ play session before st
  unfolding play is_barge_in_for
  play_cut [] after st = rw (same_session session) refl
  play_cut (stream_error ∷ before) after st = refl
  play_cut (bus e ∷ before) after st = elim (Bool-cases (is_barge_in_for e session)) [
    | inl hit ↦ rw hit refl
    | inr miss ↦ rw miss (play_cut before after st)
  ]
  play_cut (audio bytes ∷ before) after st =
      let (out, fine) = send (chunk bytes) st.out in
      elim (Bool-cases fine) [
        | inl hit ↦ rw hit (play_cut before after (sent_chunk st bytes out))
        | inr miss ↦ rw miss refl
      ]

-- The lengths of the chunks among messages, and the chunks among announcements.
abbrev pub lengths_of : List SinkMsg → List ℕ
lengths_of [] = []
lengths_of (chunk bytes ∷ ms) = length bytes ∷ lengths_of ms
lengths_of (_ ∷ ms) = lengths_of ms

abbrev pub chunks_of : List Announced → List (ℕ × ℕ)
chunks_of [] = []
chunks_of (tts_chunk k n ∷ es) = (k, n) ∷ chunks_of es
chunks_of (tts_text t ∷ es) = chunks_of es

-- The lengths numbered from a number on, which stays at the largest `u32` once it is there.
abbrev pub numbered : ℕ → List ℕ → List (ℕ × ℕ)
numbered k [] = []
numbered k (n ∷ ns) = (k, n) ∷ numbered (next_seq k) ns

abbrev pub seq_after : ℕ → List ℕ → ℕ
seq_after k [] = k
seq_after k (n ∷ ns) = seq_after (next_seq k) ns

numbered-append :
    (k : ℕ) (ns : List ℕ) (n : ℕ)
    → numbered k (ns ++ n ∷ []) ≡ numbered k ns ++ (seq_after k ns, n) ∷ []
numbered-append k [] n = refl
numbered-append k (m ∷ ns) n = ap (λ x. (k, m) ∷ x) (numbered-append (next_seq k) ns n)

seq_after-append :
    (k : ℕ) (ns : List ℕ) (n : ℕ) → seq_after k (ns ++ n ∷ []) ≡ next_seq (seq_after k ns)
seq_after-append k [] n = refl
seq_after-append k (m ∷ ns) n = seq_after-append (next_seq k) ns n

lengths_of-append : (ms ns : List SinkMsg) → lengths_of (ms ++ ns) ≡ lengths_of ms ++ lengths_of ns
lengths_of-append [] ns = refl
lengths_of-append (chunk bytes ∷ ms) ns = ap (λ x. length bytes ∷ x) (lengths_of-append ms ns)
lengths_of-append (format c r ∷ ms) ns = lengths_of-append ms ns
lengths_of-append (answer_end ∷ ms) ns = lengths_of-append ms ns

chunks_of-append : (es fs : List Announced) → chunks_of (es ++ fs) ≡ chunks_of es ++ chunks_of fs
chunks_of-append [] fs = refl
chunks_of-append (tts_chunk k n ∷ es) fs = ap (λ x. (k, n) ∷ x) (chunks_of-append es fs)
chunks_of-append (tts_text t ∷ es) fs = chunks_of-append es fs

-- The chunks of a stage are announced under consecutive numbers, and the next number is the next one.
pub record Numbered (st : Stage) : Type 0 where
  pub announced : chunks_of st.events ≡ numbered 0 (lengths_of st.out.sent)
  pub next : st.seq ≡ seq_after 0 (lengths_of st.out.sent)

sent_chunk-Numbered :
    (st : Stage) (bytes : List ℕ) (out : Channel SinkMsg)
    → out.sent ≡ st.out.sent ++ chunk bytes ∷ []
    → Numbered st
    → Numbered (sent_chunk st bytes out)
unfolding sent_chunk
sent_chunk-Numbered st bytes out h v =
    let before = lengths_of st.out.sent in
    let lengths = ap lengths_of h ∙ lengths_of-append st.out.sent (chunk bytes ∷ []) in
    record {
      announced =
          chunks_of-append st.events (tts_chunk st.seq (length bytes) ∷ [])
          ∙ ap (λ x. x ++ (st.seq, length bytes) ∷ []) v.announced
          ∙ ap (λ k. numbered 0 before ++ (k, length bytes) ∷ []) v.next
          ∙ sym (numbered-append 0 before (length bytes))
          ∙ ap (numbered 0) (sym lengths);
      next =
          ap next_seq v.next
          ∙ sym (seq_after-append 0 before (length bytes))
          ∙ ap (seq_after 0) (sym lengths);
    }

-- A change of what is sent that leaves the lengths of the chunks.
reroute-Numbered :
    (st : Stage) (out : Channel SinkMsg)
    → lengths_of out.sent ≡ lengths_of st.out.sent
    → Numbered st
    → Numbered (record st { out = out })
reroute-Numbered st out h v = record {
  announced = v.announced ∙ ap (numbered 0) (sym h);
  next = v.next ∙ ap (seq_after 0) (sym h);
}

-- A message that is no chunk.
send-lengths :
    (m : SinkMsg) (c : Channel SinkMsg)
    → lengths_of (m ∷ []) ≡ []
    → lengths_of (send m c).0.sent ≡ lengths_of c.sent
send-lengths m c h = elim (send-cases m c) [
  | inl (fine, sent) ↦
      ap lengths_of sent
      ∙ lengths_of-append c.sent (m ∷ [])
      ∙ ap (λ x. lengths_of c.sent ++ x) h
      ∙ append-nil (lengths_of c.sent)
  | inr (gone, sent) ↦ ap lengths_of sent
]

module _ (session : ℕ) where
  play-Numbered :
      (steps : List PlayStep) (st : Stage) → Numbered st → Numbered (play session steps st)
  unfolding play
  play-Numbered [] st v = v
  play-Numbered (stream_error ∷ steps) st v = v
  play-Numbered (bus e ∷ steps) st v = elim (Bool-cases (is_barge_in_for e session)) [
    | inl hit ↦ rw hit v
    | inr miss ↦ rw miss (play-Numbered steps st v)
  ]
  play-Numbered (audio bytes ∷ steps) st v =
      let (out, fine) = send (chunk bytes) st.out in
      elim (send-cases (chunk bytes) st.out) [
        | inl (hit, sent) ↦ rw hit (
            play-Numbered steps (sent_chunk st bytes out) (sent_chunk-Numbered st bytes out sent v))
        | inr (miss, sent) ↦ rw miss (reroute-Numbered st out (ap lengths_of sent) v)
      ]

  on_bus-stage : (t : Tts) (e : BusEvent) → (on_bus session t e).stage ≡ t.stage
  unfolding on_bus
  on_bus-stage t e = elim (Bool-cases (is_barge_in_for e session)) [
    | inl hit ↦ rw hit refl
    | inr miss ↦ rw miss refl
  ]

  module _ {E : Type 0} where
    speak-Numbered :
        (synthesis : Result Audio E) (st : Stage)
        → Numbered st
        → Numbered (speak session synthesis st)
    unfolding speak
    speak-Numbered (err e) st v = v
    speak-Numbered (ok a) st v =
        let (out, fine) = send (format a.codec a.sample_rate) st.out in
        let v' =
          reroute-Numbered st out (send-lengths (format a.codec a.sample_rate) st.out refl) v in
        elim (Bool-cases fine) [
          | inl hit ↦ rw hit (play-Numbered a.steps (record st { out = out }) v')
          | inr miss ↦ rw miss v'
        ]

    flush_some-Numbered :
        (o : Option Text) (synthesis : Result Audio E) (st : Stage)
        → Numbered st
        → Numbered (flush_some session o synthesis st)
    unfolding flush_some flush
    flush_some-Numbered none synthesis st v = v
    flush_some-Numbered (some sentence) synthesis st v =
        let events =
          chunks_of-append st.events (tts_text sentence ∷ []) ∙ append-nil (chunks_of st.events) in
        speak-Numbered synthesis (record st { events = st.events ++ tts_text sentence ∷ [] })
          (record { announced = events ∙ v.announced; next = v.next })

    drain-Numbered :
        (t : Tts) (synthesis : Result Audio E)
        → Numbered t.stage
        → Numbered (drain session t synthesis).stage
    unfolding drain
    drain-Numbered t synthesis v = flush_some-Numbered (take t.buf).1 synthesis t.stage v

    timed-Numbered :
        (t : Tts) (deadline : Option ℕ) (now : ℕ) (synthesis : Result Audio E)
        → Numbered t.stage
        → Numbered
            (elim deadline as (λ x. Tts) [
              | none ↦ t
              | some d ↦ if leb d now then drain session t synthesis else t
            ]).stage
    timed-Numbered t none now synthesis v = v
    timed-Numbered t (some d) now synthesis v = elim (Bool-cases (leb d now)) [
      | inl due ↦ rw due (drain-Numbered t synthesis v)
      | inr early ↦ rw early v
    ]

    on_pushed-Numbered :
        (t : Tts) (buf : SentenceBuffer) (o : Option Text) (now : ℕ) (synthesis : Result Audio E)
        → Numbered t.stage
        → Numbered (on_pushed session t buf o now synthesis).stage
    unfolding on_pushed flush_some
    on_pushed-Numbered t buf none now synthesis v = v
    on_pushed-Numbered t buf (some sentence) now synthesis v =
        flush_some-Numbered (some sentence) synthesis t.stage v

    step-Numbered :
        (t : Tts) (i : TtsInput) (now : ℕ) (synthesis : Result Audio E)
        → Numbered t.stage
        → Numbered (step session t i now synthesis).0.stage
    unfolding step on_timer on_token on_answer_end
    step-Numbered t (bus_event e) now synthesis v = rw (on_bus-stage t e) v
    step-Numbered t timer now synthesis v = timed-Numbered t (t.flush_deadline) now synthesis v
    step-Numbered t (message (token tok)) now synthesis v =
        on_pushed-Numbered t (push t.buf tok).0 (push t.buf tok).1 now synthesis v
    step-Numbered t (message end_of_answer) now synthesis v =
        let st = (drain session t synthesis).stage in
        reroute-Numbered st (send answer_end st.out).0 (send-lengths answer_end st.out refl)
          (drain-Numbered t synthesis v)
    step-Numbered t closed now synthesis v = drain-Numbered t synthesis v

    -- Whatever comes in, barge-ins and failures included, each chunk that the sink gets is announced once, in
    -- order, with its length and under consecutive numbers from 0 that stop at the largest `u32`.
    pub run_tts-Numbered :
        (t : Tts) (is : List (TtsInput × ℕ × Result Audio E))
        → Numbered t.stage
        → Numbered (run_tts session t is).stage
    unfolding run_tts
    run_tts-Numbered t [] v = v
    run_tts-Numbered t ((i, now, synthesis) ∷ is) v =
        let v' = step-Numbered t i now synthesis v in
        elim (Bool-cases (step session t i now synthesis).1) [
          | inl hit ↦ rw hit (run_tts-Numbered (step session t i now synthesis).0 is v')
          | inr miss ↦ rw miss v'
        ]
