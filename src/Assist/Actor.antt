-- ===== src/Assist/Actor.antt =====
-- The device actor of crates/athena-voice-runtime/src/assist/bridge.rs. An input is the arm of the `select!` that
-- is taken, with the clock reading and, for a question, whether the router takes it, or a token that the router or
-- the language model puts into the channel of tokens. `tokens_closed` comes when that channel is closed and
-- empty. The end of the inputs is the cancellation. A publish that fails is only logged, so what is published
-- is what was handed over.
pub mod Loader
pub mod Supersede
use athena_voice.Base.{
  ℕ, ◌+◌, Bool, true, false, Option, none, some, List, [], ◌∷◌, ◌++◌, ltb, ◌==◌, if◌then◌else◌,
}
use athena_voice.Text.{Text}
use athena_voice.Pipeline.Sentence.{
  SentenceBuffer, push, take, clear, new as new_buffer, idle_flush,
}
use athena_voice.Pipeline.Llm.{TtsMsg, token, answer_end}

pub data Status : Type 0 where
  in_progress done : Status

-- What the actor publishes: a status, or a text of the answer.
pub data Published : Type 0 where
  status : Status → Published
  answer : Text → Published

-- Times are milliseconds; `answer_deadline` has the epoch of its question.
pub record Actor : Type 0 where
  pub buf : SentenceBuffer
  pub epoch : ℕ
  pub answer_deadline : Option (ℕ × ℕ)
  pub flush_deadline : Option ℕ
  pub idle_deadline : ℕ
  pub transcripts : List Text
  pub published : List Published
  pub tok_queue : List TtsMsg

pub data Input : Type 0 where
  cancelled : Input
  idle_elapsed : Input
  answer_elapsed : Input
  flush_elapsed : Input
  question : Text → ℕ → Bool → Input
  questions_closed : Input
  queued : TtsMsg → Input
  message : ℕ → Input
  tokens_closed : Input

abbrev pub answer_timeout : ℕ
answer_timeout = 30000

-- `saturating_add(1)` of a `u64`
abbrev pub next_epoch : ℕ → ℕ
next_epoch e = if ltb e 18446744073709551615 then e + 1 else 18446744073709551615

-- `is_some_and(|(e, _)| *e == epoch)`
abbrev pub awaits : Option (ℕ × ℕ) → ℕ → Bool
awaits none epoch = false
awaits (some (e, d)) epoch = e == epoch

unfoldable pub publish_status : Status → Actor → Actor
publish_status s a = record a { published = a.published ++ status s ∷ [] }

-- The release of the loader, if the question still waits.
unfoldable pub release : Actor → Actor
release a =
    if awaits a.answer_deadline a.epoch
    then publish_status done (record a { answer_deadline = none })
    else a

unfoldable pub publish_answer : Text → Actor → Actor
unfolding release publish_status
publish_answer sentence a = release (record a { published = a.published ++ answer sentence ∷ [] })

-- `if let Some(sentence) = buf.take() { … }`
unfoldable pub publish_taken : SentenceBuffer × Option Text → Actor → Actor
unfolding publish_answer
publish_taken (buf, none) a = record a { buf = buf }
publish_taken (buf, some sentence) a = publish_answer sentence (record a { buf = buf })

-- `buf.push(&tok)`, and what follows it.
unfoldable pub on_pushed : SentenceBuffer × Option Text → ℕ → Actor → Actor
unfolding publish_answer
on_pushed (buf, none) now a = record a { buf = buf; flush_deadline = some (now + idle_flush) }
on_pushed (buf, some sentence) now a =
    publish_answer sentence (record a { buf = buf; flush_deadline = none })

-- The state when a question has been taken in, before its transcript goes to the router.
unfoldable pub take_question : ℕ → Text → ℕ → Actor → Actor
unfolding publish_status
take_question session_idle text now a = publish_status in_progress (record {
  buf = clear a.buf;
  epoch = next_epoch a.epoch;
  answer_deadline = some (next_epoch a.epoch, now + answer_timeout);
  flush_deadline = none;
  idle_deadline = now + session_idle;
  transcripts = a.transcripts;
  published = a.published;
  tok_queue = [];
})

on_answer_elapsed : Option (ℕ × ℕ) → Actor → Actor
unfolding publish_status
on_answer_elapsed none a = a
on_answer_elapsed (some d) a = record (publish_status done a) { answer_deadline = none }

on_flush_elapsed : Option ℕ → Actor → Actor
unfolding publish_taken
on_flush_elapsed none a = a
on_flush_elapsed (some d) a = publish_taken (take a.buf) (record a { flush_deadline = none })

-- What the loop does with a token or the end of an answer.
unfoldable pub on_message : TtsMsg → ℕ → Actor → Actor
unfolding publish_taken release on_pushed
on_message answer_end now a =
    release (publish_taken (take a.buf) (record a { flush_deadline = none }))
on_message (token t) now a = on_pushed (push a.buf t) now a

-- The oldest message of the channel; without one the arm is not ready.
received : List TtsMsg → ℕ → Actor → Actor
unfolding on_message
received [] now a = a
received (m ∷ ms) now a = on_message m now (record a { tok_queue = ms })

-- One turn of the loop, or a message put into the channel; `false` stands for its `break`. A deadline that is not set never elapses.
unfoldable pub step : ℕ → Input → Actor → Actor × Bool
unfolding on_answer_elapsed on_flush_elapsed take_question publish_taken received
step session_idle cancelled a = (a, false)
step session_idle idle_elapsed a = (a, false)
step session_idle answer_elapsed a = (on_answer_elapsed a.answer_deadline a, true)
step session_idle flush_elapsed a = (on_flush_elapsed a.flush_deadline a, true)
step session_idle (question text now routed) a =
    let a' = take_question session_idle text now a in
    (if routed then record a' { transcripts = a'.transcripts ++ text ∷ [] } else a', routed)
step session_idle questions_closed a = (a, false)
step session_idle (queued m) a = (record a { tok_queue = a.tok_queue ++ m ∷ [] }, true)
step session_idle (message now) a = (received a.tok_queue now a, true)
step session_idle tokens_closed a = (publish_taken (take a.buf) a, false)

unfoldable pub run_loop : ℕ → List Input → Actor → Actor
unfolding step
run_loop session_idle [] a = a
run_loop session_idle (i ∷ is) a =
    let (a', goes_on) = step session_idle i a in
    let rest = run_loop session_idle is a' in if goes_on then rest else a'

-- `if answer_deadline.take().is_some()`, behind the loop.
on_exit : Option (ℕ × ℕ) → Actor → Actor
unfolding publish_status
on_exit none a = a
on_exit (some d) a = publish_status done (record a { answer_deadline = none })

abbrev pub opened : ℕ → ℕ → Actor
unfolding new_buffer
opened session_idle now = record {
  buf = new_buffer;
  epoch = 0;
  answer_deadline = none;
  flush_deadline = none;
  idle_deadline = now + session_idle;
  transcripts = [];
  published = [];
  tok_queue = [];
}

unfoldable pub run_device_actor : ℕ → ℕ → List Input → Actor
unfolding run_loop on_exit opened
run_device_actor session_idle now is =
    let a = run_loop session_idle is (opened session_idle now) in on_exit a.answer_deadline a
