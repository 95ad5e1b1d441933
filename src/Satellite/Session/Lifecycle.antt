-- ===== src/Satellite/Session/Lifecycle.antt =====
-- The life of a session: its invariant, its commands, and that it always comes back to idle.
use athena_voice.Base.{
  ℕ, ◌+◌, ◌<◌, ◌≡◌, ◌≢◌, ◌⊎◌, inl, inr, Option, none, some, List, [], ◌∷◌, arith, All, Bool-cases,
  Option-cases,
}
use athena_voice.Text.{Text, codes, concat, strip_prefix}
use athena_voice.Core.Json.{JsonLib}
use athena_voice.Satellite.Session.{
  Session, State, idle, streaming, awaiting_reply, playing, Input, trigger, mic_frame,
  silence_detected, inbound, tick, Command, publish, utterance_max_ms, reply_timeout_ms, new,
  topic_for, handle, on_suffix, on_inbound, transcript, tts_text, tts_meta, on_stripped,
  accepts_inbound,
}

-- An idle satellite has no session and no deadline, and any other has both.
abbrev pub Shape : State → Option Text → Option ℕ → Type 0
Shape idle none none = Unit
Shape idle _ _ = ⊥
Shape _ (some _) (some _) = Unit
Shape _ _ _ = ⊥

pub record IsValid (s : Session) : Type 0 where
  pub shape : Shape s.state s.sid s.deadline_ms

pub new-IsValid : (root sat_id locale : Text) → IsValid (new root sat_id locale)
unfolding new
new-IsValid root sat_id locale = record { shape = tt }

-- A session that waits for its reply, or plays it, until a deadline.
abbrev pub WaitsUntil : ℕ → Session → Type 0
WaitsUntil d s = ((s.state ≡ awaiting_reply) ⊎ (s.state ≡ playing)) × (s.deadline_ms ≡ some d)

abbrev pub NotTrigger : Input → Type 0
NotTrigger trigger = ⊥
NotTrigger _ = Unit

-- What ends an utterance: detected silence, or a tick after its deadline.
abbrev pub EndsUtterance : Session → Input → ℕ → Type 0
EndsUtterance s silence_detected now_ms = Unit
EndsUtterance s tick now_ms = (d : ℕ) × (s.deadline_ms ≡ some d) × (d < now_ms)
EndsUtterance s _ now_ms = ⊥

abbrev pub NotPublish : Command → Type 0
NotPublish (publish _ _) = ⊥
NotPublish _ = Unit

module _ (json : JsonLib) where
  on_suffix-IsValid :
      (s : Session) (suffix : Text) (payload : List ℕ)
      → (s.state ≡ awaiting_reply) ⊎ (s.state ≡ playing)
      → IsValid s
      → IsValid (on_suffix json s suffix payload).0
  unfolding on_suffix
  on_suffix-IsValid s suffix payload a v = ground arith

  -- Every input, at any time, keeps a valid session valid.
  pub handle-IsValid :
      (s : Session) (fresh : Text) (i : Input) (now_ms : ℕ)
      → IsValid s
      → IsValid (handle json s fresh i now_ms).0
  unfolding handle on_suffix
  handle-IsValid s fresh trigger now_ms v = ground arith
  handle-IsValid s fresh (mic_frame bytes) now_ms v = ground arith
  handle-IsValid s fresh silence_detected now_ms v = ground arith
  handle-IsValid s fresh (inbound topic payload) now_ms v = ground arith
  handle-IsValid s fresh tick now_ms v = ground arith

  -- One input at a time, each with the id that it would start a session with.
  pub run_inputs : Session → List (Text × Input × ℕ) → Session
  run_inputs s [] = s
  run_inputs s ((fresh, i, now_ms) ∷ es) = run_inputs (handle json s fresh i now_ms).0 es

  -- Every history of inputs, whatever their times and payloads, keeps a valid session valid.
  pub run_inputs-IsValid :
      (s : Session) (es : List (Text × Input × ℕ)) → IsValid s → IsValid (run_inputs s es)
  unfolding run_inputs
  run_inputs-IsValid s [] v = v
  run_inputs-IsValid s ((fresh, i, now_ms) ∷ es) v =
      run_inputs-IsValid (handle json s fresh i now_ms).0 es (handle-IsValid s fresh i now_ms v)

  -- No input but a trigger starts a session, and none moves the deadline of a reply.
  settles :
      (d : ℕ) (s : Session) (fresh : Text) (i : Input) (now_ms : ℕ)
      → NotTrigger i
      → IsValid s
      → (s.state ≡ idle) ⊎ WaitsUntil d s
      → let s' = (handle json s fresh i now_ms).0 in (s'.state ≡ idle) ⊎ WaitsUntil d s'
  unfolding handle on_suffix
  settles d s fresh trigger now_ms n v w = absurd n
  settles d s fresh (mic_frame bytes) now_ms n v w = ground arith
  settles d s fresh silence_detected now_ms n v w = ground arith
  settles d s fresh (inbound topic payload) now_ms n v w = ground arith
  settles d s fresh tick now_ms n v w = ground arith

  run_settles :
      (d : ℕ) (s : Session) (es : List (Text × Input × ℕ))
      → All (λ e. NotTrigger e.1) es
      → IsValid s
      → (s.state ≡ idle) ⊎ WaitsUntil d s
      → ((run_inputs s es).state ≡ idle) ⊎ WaitsUntil d (run_inputs s es)
  unfolding run_inputs
  run_settles d s [] n v w = w
  run_settles d s ((fresh, i, now_ms) ∷ es) n v w =
      run_settles d (handle json s fresh i now_ms).0 es n.1 (handle-IsValid s fresh i now_ms v)
        (settles d s fresh i now_ms n.0 v w)

  tick_after :
      (d now_ms : ℕ) (s : Session) (fresh : Text)
      → d < now_ms
      → IsValid s
      → (s.state ≡ idle) ⊎ WaitsUntil d s
      → (handle json s fresh tick now_ms).0.state ≡ idle
  unfolding handle on_suffix
  tick_after d now_ms s fresh l v w = ground arith

  -- A reply cannot hold the satellite: whatever comes in meanwhile, except a new trigger, the first tick
  -- after the deadline of a waiting or playing session finds or makes it idle.
  pub reply_bounded :
      (d now_ms : ℕ) (s : Session) (es : List (Text × Input × ℕ)) (fresh : Text)
      → IsValid s
      → WaitsUntil d s
      → All (λ e. NotTrigger e.1) es
      → d < now_ms
      → (handle json (run_inputs s es) fresh tick now_ms).0.state ≡ idle
  reply_bounded d now_ms s es fresh v w n l =
      tick_after d now_ms (run_inputs s es) fresh l (run_inputs-IsValid s es v)
        (run_settles d s es n v (inr w))

  -- A trigger on an idle satellite starts streaming under the new id, for at most 10 s from then.
  pub trigger_starts :
      (s : Session) (fresh : Text) (now_ms : ℕ)
      → now_ms + utterance_max_ms < 18446744073709551616
      → s.state ≡ idle
      → let s' = (handle json s fresh trigger now_ms).0 in
        (s'.state ≡ streaming)
        × (s'.sid ≡ some fresh)
        × (s'.deadline_ms ≡ some (now_ms + utterance_max_ms))
  unfolding handle
  trigger_starts s fresh now_ms l e = ground arith

  -- A streaming satellite that hears silence, or ticks after the utterance's deadline, sends one empty
  -- audio message on the session's topic, waits at most 30 s from then for the reply, and keeps its
  -- session id.
  pub utterance_ends :
      (s : Session) (fresh : Text) (i : Input) (now_ms : ℕ)
      → now_ms + reply_timeout_ms < 18446744073709551616
      → s.state ≡ streaming
      → EndsUtterance s i now_ms
      → let (s', out) = handle json s fresh i now_ms in
        WaitsUntil (now_ms + reply_timeout_ms) s'
        × (s'.sid ≡ s.sid)
        × (out ≡ publish (topic_for s (codes "audio")) [] ∷ [])
  unfolding handle topic_for
  utterance_ends s fresh trigger now_ms l e h = absurd h
  utterance_ends s fresh (mic_frame bytes) now_ms l e h = absurd h
  utterance_ends s fresh silence_detected now_ms l e h = ground arith
  utterance_ends s fresh (inbound topic payload) now_ms l e h = absurd h
  utterance_ends s fresh tick now_ms l e h = ground arith

  transcript-silent : (payload : List ℕ) → All NotPublish (transcript json payload)
  unfolding transcript
  transcript-silent payload = ground arith

  tts_text-silent : (payload : List ℕ) → All NotPublish (tts_text json payload)
  unfolding tts_text
  tts_text-silent payload = ground arith

  tts_meta-silent : (s : Session) (payload : List ℕ) → All NotPublish (tts_meta json s payload).1
  unfolding tts_meta
  tts_meta-silent s payload = ground arith

  on_suffix-silent :
      (s : Session) (suffix : Text) (payload : List ℕ)
      → All NotPublish (on_suffix json s suffix payload).1
  unfolding on_suffix
  on_suffix-silent s suffix payload =
      ground (arith, transcript-silent payload, tts_text-silent payload, tts_meta-silent s payload)

  on_stripped-silent :
      (s : Session) (o : Option Text) (payload : List ℕ)
      → All NotPublish (on_stripped json s o payload).1
  unfolding on_stripped
  on_stripped-silent s none payload = tt
  on_stripped-silent s (some suffix) payload = on_suffix-silent s suffix payload

  on_inbound-silent :
      (s : Session) (topic : Text) (payload : List ℕ)
      → All NotPublish (on_inbound json s topic payload).1
  unfolding on_inbound
  on_inbound-silent s topic payload = elim (Bool-cases (accepts_inbound s.state)) [
    | inr deaf ↦ rw deaf tt
    | inl hears ↦ elim (Option-cases s.sid) [
      | inl no_sid ↦ rw (hears, no_sid) tt
      | inr (sid, is_sid) ↦
          let prefix =
            concat (s.root ∷ codes "/sat/" ∷ s.sat_id ∷ codes "/session/" ∷ sid ∷ codes "/" ∷ []) in
          simp (hears, is_sid) (on_stripped-silent s (strip_prefix prefix topic) payload)
    ]
  ]

  -- A waiting, playing or idle satellite sends nothing but the start of a session: the microphone is not
  -- streamed while the answer plays.
  pub silent_unless_streaming :
      (s : Session) (fresh : Text) (i : Input) (now_ms : ℕ)
      → s.state ≢ streaming
      → (s.state ≡ idle) × (i ≡ trigger) ⊎ All NotPublish (handle json s fresh i now_ms).1
  unfolding handle
  silent_unless_streaming s fresh trigger now_ms n = ground arith
  silent_unless_streaming s fresh (mic_frame bytes) now_ms n = ground arith
  silent_unless_streaming s fresh silence_detected now_ms n = ground arith
  silent_unless_streaming s fresh (inbound topic payload) now_ms n =
      inr (on_inbound-silent s topic payload)
  silent_unless_streaming s fresh tick now_ms n = ground arith
