-- ===== src/Assist/Actor/Loader.antt =====
-- The loader of the client is always released.
use athena_voice.Base.{
  ℕ, ◌≡◌, refl, ap, ◌∙◌, true, false, Option, none, some, List, [], ◌∷◌, ◌++◌, ◌==◌, Bool-cases,
  inl, inr, arith,
}
use athena_voice.Text.{Text}
use athena_voice.Pipeline.Sentence.{SentenceBuffer, push, take}
use athena_voice.Pipeline.Llm.{TtsMsg, token, answer_end}
use athena_voice.Assist.Actor.{
  in_progress, done, Published, status, answer, Actor, Input, cancelled, idle_elapsed,
  answer_elapsed, flush_elapsed, question, questions_closed, queued, message, on_message, received,
  tokens_closed, publish_status, release, publish_answer, publish_taken, on_pushed, take_question,
  on_answer_elapsed, on_flush_elapsed, step, run_loop, on_exit, opened, run_device_actor,
}

-- The client's loader: `in progress` starts it, `done` stops it, and a `done` when it does not spin is an error.
pub data Loader : Type 0 where
  still spinning stray : Loader

abbrev pub see : Loader → Published → Loader
see l (answer t) = l
see stray (status s) = stray
see l (status in_progress) = spinning
see spinning (status done) = still
see still (status done) = stray

abbrev pub watch : Loader → List Published → Loader
watch l [] = l
watch l (p ∷ ps) = watch (see l p) ps

watch-append : (l : Loader) (ps qs : List Published) → watch l (ps ++ qs) ≡ watch (watch l ps) qs
watch-append l [] qs = refl
watch-append l (p ∷ ps) qs = watch-append (see l p) ps qs

-- What the loader should do by the actor's state.
abbrev loader_of : Option (ℕ × ℕ) → Loader
loader_of none = still
loader_of (some d) = spinning

-- A question that waits is the current one, and the loader spins exactly then.
abbrev pub Tagged : Option (ℕ × ℕ) → ℕ → Type 0
Tagged none epoch = Unit
Tagged (some (e, d)) epoch = e ≡ epoch

IsSound : Actor → Type 0
IsSound a =
    Tagged a.answer_deadline a.epoch × (watch still a.published ≡ loader_of a.answer_deadline)

release-IsSound : (a : Actor) → IsSound a → IsSound (release a)
unfolding IsSound release publish_status
release-IsSound a h = released a.answer_deadline h
  where
    released :
        (o : Option (ℕ × ℕ))
        → IsSound (record a { answer_deadline = o })
        → IsSound (release (record a { answer_deadline = o }))
    released none k = k
    released (some (e, d)) (tag, w) =
        let hit : (e == a.epoch) ≡ true = ground arith in
        rw hit (
          tt,
          watch-append still a.published (status done ∷ [])
              ∙ ap (λ l. watch l (status done ∷ [])) w,
        )

-- A text of the answer does not move the loader.
answer-IsSound :
    (sentence : Text) (a : Actor)
    → IsSound a
    → IsSound (record a { published = a.published ++ answer sentence ∷ [] })
unfolding IsSound
answer-IsSound sentence a (tag, w) =
    (tag, watch-append still a.published (answer sentence ∷ []) ∙ w)

publish_answer-IsSound :
    (sentence : Text) (a : Actor) → IsSound a → IsSound (publish_answer sentence a)
unfolding publish_answer
publish_answer-IsSound sentence a h =
    release-IsSound (record a { published = a.published ++ answer sentence ∷ [] })
      (answer-IsSound sentence a h)

publish_taken-IsSound :
    (r : SentenceBuffer × Option Text) (a : Actor) → IsSound a → IsSound (publish_taken r a)
unfolding publish_taken IsSound
publish_taken-IsSound (buf, none) a h = h
publish_taken-IsSound (buf, some sentence) a h =
    publish_answer-IsSound sentence (record a { buf = buf }) h

on_pushed-IsSound :
    (r : SentenceBuffer × Option Text) (now : ℕ) (a : Actor)
    → IsSound a
    → IsSound (on_pushed r now a)
unfolding on_pushed IsSound
on_pushed-IsSound (buf, none) now a h = h
on_pushed-IsSound (buf, some sentence) now a h =
    publish_answer-IsSound sentence (record a { buf = buf; flush_deadline = none }) h

take_question-IsSound :
    (session_idle : ℕ) (text : Text) (now : ℕ) (a : Actor)
    → IsSound a
    → IsSound (take_question session_idle text now a)
unfolding take_question publish_status IsSound
take_question-IsSound session_idle text now a (tag, w) = (
  refl,
  watch-append still a.published (status in_progress ∷ [])
      ∙ started (watch still a.published) (loader_of a.answer_deadline) (fine a.answer_deadline) w,
)
  where
    fine : (o : Option (ℕ × ℕ)) → see (loader_of o) (status in_progress) ≡ spinning
    fine none = refl
    fine (some d) = refl

    started :
        (l m : Loader)
        → see m (status in_progress) ≡ spinning
        → l ≡ m
        → watch l (status in_progress ∷ []) ≡ spinning
    started l m h e = ap (λ x. see x (status in_progress)) e ∙ h

on_answer_elapsed-IsSound :
    (a : Actor) → IsSound a → IsSound (on_answer_elapsed a.answer_deadline a)
unfolding on_answer_elapsed publish_status IsSound
on_answer_elapsed-IsSound a h = elapsed a.answer_deadline h
  where
    elapsed :
        (o : Option (ℕ × ℕ))
        → IsSound (record a { answer_deadline = o })
        → IsSound (on_answer_elapsed o (record a { answer_deadline = o }))
    elapsed none k = k
    elapsed (some d) (tag, w) = (
      tt,
      watch-append still a.published (status done ∷ []) ∙ ap (λ l. watch l (status done ∷ [])) w,
    )

on_flush_elapsed-IsSound : (o : Option ℕ) (a : Actor) → IsSound a → IsSound (on_flush_elapsed o a)
unfolding on_flush_elapsed IsSound
on_flush_elapsed-IsSound none a h = h
on_flush_elapsed-IsSound (some d) a h =
    publish_taken-IsSound (take a.buf) (record a { flush_deadline = none }) h

on_message-IsSound : (m : TtsMsg) (now : ℕ) (a : Actor) → IsSound a → IsSound (on_message m now a)
unfolding on_message IsSound
on_message-IsSound answer_end now a h =
    release-IsSound _ (publish_taken-IsSound (take a.buf) (record a { flush_deadline = none }) h)
on_message-IsSound (token t) now a h = on_pushed-IsSound (push a.buf t) now a h

received-IsSound : (q : List TtsMsg) (now : ℕ) (a : Actor) → IsSound a → IsSound (received q now a)
unfolding received IsSound
received-IsSound [] now a h = h
received-IsSound (m ∷ ms) now a h = on_message-IsSound m now (record a { tok_queue = ms }) h

step-IsSound :
    (session_idle : ℕ) (i : Input) (a : Actor) → IsSound a → IsSound (step session_idle i a).0
unfolding step IsSound
step-IsSound session_idle cancelled a h = h
step-IsSound session_idle idle_elapsed a h = h
step-IsSound session_idle answer_elapsed a h = on_answer_elapsed-IsSound a h
step-IsSound session_idle flush_elapsed a h = on_flush_elapsed-IsSound a.flush_deadline a h
step-IsSound session_idle (question text now true) a h =
    take_question-IsSound session_idle text now a h
step-IsSound session_idle (question text now false) a h =
    take_question-IsSound session_idle text now a h
step-IsSound session_idle questions_closed a h = h
step-IsSound session_idle (queued m) a h = h
step-IsSound session_idle (message now) a h = received-IsSound a.tok_queue now a h
step-IsSound session_idle tokens_closed a h = publish_taken-IsSound (take a.buf) a h

run_loop-IsSound :
    (session_idle : ℕ) (is : List Input) (a : Actor)
    → IsSound a
    → IsSound (run_loop session_idle is a)
unfolding run_loop
run_loop-IsSound session_idle [] a h = h
run_loop-IsSound session_idle (i ∷ is) a h =
    let stepped = step-IsSound session_idle i a h in
    elim (Bool-cases (step session_idle i a).1) [
      | inl goes_on ↦
          rw goes_on (run_loop-IsSound session_idle is (step session_idle i a).0 stepped)
      | inr breaks ↦ rw breaks stepped
    ]

-- Whatever happens in a device's session, in any order and however it ends, the client's loader is started and
-- stopped in turn: no `done` comes without an `in progress` before it that is not yet done, though a newer
-- question may start it again; and when the actor has gone, it does not spin.
pub run_device_actor-still :
    (session_idle now : ℕ) (is : List Input)
    → watch still (run_device_actor session_idle now is).published ≡ still
unfolding run_device_actor on_exit publish_status opened IsSound
run_device_actor-still session_idle now is =
    let a = run_loop session_idle is (opened session_idle now) in
    exited a a.answer_deadline
      (run_loop-IsSound session_idle is (opened session_idle now) (tt, refl)).1
  where
    exited :
        (a : Actor) (o : Option (ℕ × ℕ))
        → watch still a.published ≡ loader_of o
        → watch still (on_exit o a).published ≡ still
    exited a none w = w
    exited a (some d) w =
        watch-append still a.published (status done ∷ []) ∙ ap (λ l. watch l (status done ∷ [])) w
