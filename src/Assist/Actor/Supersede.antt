-- ===== src/Assist/Actor/Supersede.antt =====
-- A new question supersedes all that came before.
use mathlib.Core.Path.{subst}
use athena_voice.Base.{
  ℕ, ◌≡◌, refl, sym, ap, ◌∙◌, Bool, true, false, Option, none, some, List, [], ◌∷◌, ◌++◌,
  append-nil, append_assoc, ◌==◌, Bool-cases, inl, inr, arith,
}
use athena_voice.Text.{Text}
use athena_voice.Pipeline.Sentence.{SentenceBuffer, push, take, clear}
use athena_voice.Pipeline.Llm.{TtsMsg, token, answer_end}
use athena_voice.Assist.Actor.{
  in_progress, done, Published, status, answer, Actor, Input, cancelled, idle_elapsed,
  answer_elapsed, flush_elapsed, question, questions_closed, queued, message, on_message, received,
  tokens_closed, publish_status, release, publish_answer, publish_taken, on_pushed, take_question,
  on_answer_elapsed, on_flush_elapsed, step, run_loop, opened,
}

-- Both wait for the answer to their current question, or neither does.
abbrev Paired : Option (ℕ × ℕ) → ℕ → Option (ℕ × ℕ) → ℕ → Type 0
Paired none x none y = Unit
Paired (some (e, d)) x (some (e', d')) y = (e ≡ x) × (e' ≡ y)
Paired _ x _ y = ⊥

-- An actor that has published more before, and is as the other one otherwise.
Ahead : List Published → Actor → Actor → Type 0
Ahead p a b =
    ((a.buf ≡ b.buf) × ((a.flush_deadline ≡ b.flush_deadline) × (a.tok_queue ≡ b.tok_queue)))
    × ((a.published ≡ p ++ b.published)
        × Paired a.answer_deadline a.epoch b.answer_deadline b.epoch)

published_ahead : (p xs ys zs : List Published) → xs ≡ p ++ ys → xs ++ zs ≡ p ++ (ys ++ zs)
published_ahead p xs ys zs h = ap (λ l. l ++ zs) h ∙ append_assoc p ys zs

release-Ahead : (p : List Published) (a b : Actor) → Ahead p a b → Ahead p (release a) (release b)
unfolding Ahead release publish_status
release-Ahead p a b h = released a.answer_deadline b.answer_deadline h
  where
    released :
        (o o' : Option (ℕ × ℕ))
        → Ahead p (record a { answer_deadline = o }) (record b { answer_deadline = o' })
        → Ahead p
            (release (record a { answer_deadline = o }))
            (release (record b { answer_deadline = o' }))
    released none none k = k
    released none (some d) (same, (q, w)) = elim w [ ]
    released (some d) none (same, (q, w)) = elim w [ ]
    released (some (e, d)) (some (e', d')) (same, (q, (w, w'))) =
        let hit : (e == a.epoch) ≡ true = ground arith in
        let hit' : (e' == b.epoch) ≡ true = ground arith in
        rw (hit, hit') (same, (published_ahead p a.published b.published (status done ∷ []) q, tt))

publish_answer-Ahead :
    (p : List Published) (sentence : Text) (a b : Actor)
    → Ahead p a b
    → Ahead p (publish_answer sentence a) (publish_answer sentence b)
unfolding publish_answer Ahead
publish_answer-Ahead p sentence a b (same, (q, w)) =
    release-Ahead p (record a { published = a.published ++ answer sentence ∷ [] })
      (record b { published = b.published ++ answer sentence ∷ [] })
      (same, (published_ahead p a.published b.published (answer sentence ∷ []) q, w))

publish_taken-Ahead :
    (p : List Published) (r : SentenceBuffer × Option Text) (a b : Actor)
    → Ahead p a b
    → Ahead p (publish_taken r a) (publish_taken r b)
unfolding publish_taken Ahead
publish_taken-Ahead p (buf, none) a b ((same, flush), rest) = ((refl, flush), rest)
publish_taken-Ahead p (buf, some sentence) a b ((same, flush), rest) =
    publish_answer-Ahead p sentence (record a { buf = buf }) (record b { buf = buf })
      ((refl, flush), rest)

-- What is taken from equal buffers is the same.
taken-Ahead :
    (p : List Published) (a b a' b' : Actor)
    → a.buf ≡ b.buf
    → Ahead p a' b'
    → Ahead p (publish_taken (take a.buf) a') (publish_taken (take b.buf) b')
taken-Ahead p a b a' b' same h =
    subst (λ r. Ahead p (publish_taken (take a.buf) a') (publish_taken (take r) b')) same
      (publish_taken-Ahead p (take a.buf) a' b' h)

on_pushed-Ahead :
    (p : List Published) (r : SentenceBuffer × Option Text) (now : ℕ) (a b : Actor)
    → Ahead p a b
    → Ahead p (on_pushed r now a) (on_pushed r now b)
unfolding on_pushed Ahead
on_pushed-Ahead p (buf, none) now a b (same, rest) = ((refl, (refl, same.1.1)), rest)
on_pushed-Ahead p (buf, some sentence) now a b (same, rest) =
    publish_answer-Ahead p sentence (record a { buf = buf; flush_deadline = none })
      (record b { buf = buf; flush_deadline = none }) ((refl, (refl, same.1.1)), rest)

on_answer_elapsed-Ahead :
    (p : List Published) (a b : Actor)
    → Ahead p a b
    → Ahead p (on_answer_elapsed a.answer_deadline a) (on_answer_elapsed b.answer_deadline b)
unfolding on_answer_elapsed publish_status Ahead
on_answer_elapsed-Ahead p a b h = elapsed a.answer_deadline b.answer_deadline h
  where
    elapsed :
        (o o' : Option (ℕ × ℕ))
        → Ahead p (record a { answer_deadline = o }) (record b { answer_deadline = o' })
        → Ahead p
            (on_answer_elapsed o (record a { answer_deadline = o }))
            (on_answer_elapsed o' (record b { answer_deadline = o' }))
    elapsed none none k = k
    elapsed none (some d) (same, (q, w)) = elim w [ ]
    elapsed (some d) none (same, (q, w)) = elim w [ ]
    elapsed (some d) (some d') (same, (q, w)) =
        (same, (published_ahead p a.published b.published (status done ∷ []) q, tt))

on_flush_elapsed-Ahead :
    (p : List Published) (o : Option ℕ) (a b : Actor)
    → Ahead p a b
    → Ahead p (on_flush_elapsed o a) (on_flush_elapsed o b)
unfolding on_flush_elapsed Ahead
on_flush_elapsed-Ahead p none a b h = h
on_flush_elapsed-Ahead p (some d) a b ((same, flush), rest) =
    taken-Ahead p a b (record a { flush_deadline = none }) (record b { flush_deadline = none }) same
      ((same, (refl, flush.1)), rest)

-- A question leaves nothing of the state before but what was published.
take_question-Ahead :
    (session_idle : ℕ) (text : Text) (now : ℕ) (p : List Published) (a b : Actor)
    → a.published ≡ p ++ b.published
    → Ahead p (take_question session_idle text now a) (take_question session_idle text now b)
unfolding take_question publish_status Ahead clear
take_question-Ahead session_idle text now p a b q = (
  (refl, (refl, refl)),
  (published_ahead p a.published b.published (status in_progress ∷ []) q, (refl, refl)),
)

on_message-Ahead :
    (p : List Published) (m : TtsMsg) (now : ℕ) (a b : Actor)
    → Ahead p a b
    → Ahead p (on_message m now a) (on_message m now b)
unfolding on_message Ahead
on_message-Ahead p answer_end now a b ((same, flush), rest) =
    release-Ahead p (publish_taken (take a.buf) (record a { flush_deadline = none }))
      (publish_taken (take b.buf) (record b { flush_deadline = none }))
      (taken-Ahead p a b (record a { flush_deadline = none }) (record b { flush_deadline = none })
        same ((same, (refl, flush.1)), rest))
on_message-Ahead p (token t) now a b h =
    subst (λ r. Ahead p (on_pushed (push a.buf t) now a) (on_pushed (push r t) now b)) h.0.0
      (on_pushed-Ahead p (push a.buf t) now a b h)

received-Ahead :
    (p : List Published) (q : List TtsMsg) (now : ℕ) (a b : Actor)
    → Ahead p a b
    → Ahead p (received q now a) (received q now b)
unfolding received Ahead
received-Ahead p [] now a b h = h
received-Ahead p (m ∷ ms) now a b ((same, (flush, queue)), rest) =
    on_message-Ahead p m now (record a { tok_queue = ms }) (record b { tok_queue = ms })
      ((same, (flush, refl)), rest)

step-Ahead :
    (session_idle : ℕ) (i : Input) (p : List Published) (a b : Actor)
    → Ahead p a b
    → Ahead p (step session_idle i a).0 (step session_idle i b).0
unfolding step Ahead
step-Ahead session_idle cancelled p a b h = h
step-Ahead session_idle idle_elapsed p a b h = h
step-Ahead session_idle answer_elapsed p a b h = on_answer_elapsed-Ahead p a b h
step-Ahead session_idle flush_elapsed p a b h =
    subst (λ o. Ahead p (on_flush_elapsed a.flush_deadline a) (on_flush_elapsed o b)) h.0.1.0
      (on_flush_elapsed-Ahead p a.flush_deadline a b h)
step-Ahead session_idle (question text now true) p a b h =
    take_question-Ahead session_idle text now p a b h.1.0
step-Ahead session_idle (question text now false) p a b h =
    take_question-Ahead session_idle text now p a b h.1.0
step-Ahead session_idle questions_closed p a b h = h
step-Ahead session_idle (queued m) p a b ((same, (flush, queue)), rest) =
    ((same, (flush, ap (λ q. q ++ m ∷ []) queue)), rest)
step-Ahead session_idle (message now) p a b h =
    subst (λ q. Ahead p (received a.tok_queue now a) (received q now b)) h.0.1.1
      (received-Ahead p a.tok_queue now a b h)
step-Ahead session_idle tokens_closed p a b h = taken-Ahead p a b a b h.0.0 h

-- Whether the loop goes on is up to the input alone.
goes_on : Input → Bool
goes_on cancelled = false
goes_on idle_elapsed = false
goes_on answer_elapsed = true
goes_on flush_elapsed = true
goes_on (question text now routed) = routed
goes_on questions_closed = false
goes_on (queued m) = true
goes_on (message now) = true
goes_on tokens_closed = false

step-goes_on : (session_idle : ℕ) (i : Input) (a : Actor) → (step session_idle i a).1 ≡ goes_on i
unfolding step goes_on
step-goes_on session_idle cancelled a = refl
step-goes_on session_idle idle_elapsed a = refl
step-goes_on session_idle answer_elapsed a = refl
step-goes_on session_idle flush_elapsed a = refl
step-goes_on session_idle (question text now routed) a = refl
step-goes_on session_idle questions_closed a = refl
step-goes_on session_idle (queued m) a = refl
step-goes_on session_idle (message now) a = refl
step-goes_on session_idle tokens_closed a = refl

run_loop-Ahead :
    (session_idle : ℕ) (is : List Input) (p : List Published) (a b : Actor)
    → Ahead p a b
    → Ahead p (run_loop session_idle is a) (run_loop session_idle is b)
unfolding run_loop
run_loop-Ahead session_idle [] p a b h = h
run_loop-Ahead session_idle (i ∷ is) p a b h =
    let stepped = step-Ahead session_idle i p a b h in
    rw (step-goes_on session_idle i a, step-goes_on session_idle i b)
      (elim (Bool-cases (goes_on i)) [
        | inl more ↦ rw more (
            run_loop-Ahead session_idle is p (step session_idle i a).0 (step session_idle i b).0
              stepped)
        | inr breaks ↦ rw breaks stepped
      ])

-- A question supersedes what the actor holds of the questions before: whatever it was doing when the question
-- comes, and whatever tokens then wait in its channel, what is published from then on, over everything that
-- follows, is what an actor that was just opened, with an empty channel, would publish. A token that is put into
-- the channel later counts as one of the new question, whoever produced it.
pub run_loop-question :
    (session_idle : ℕ) (text : Text) (now start : ℕ) (routed : Bool) (is : List Input) (a : Actor)
    → (run_loop session_idle (question text now routed ∷ is) a).published
      ≡ a.published
        ++ (run_loop session_idle
            (question text now routed ∷ is)
            (opened session_idle start)).published
unfolding Ahead run_loop opened step
run_loop-question session_idle text now start true is a =
    let b = opened session_idle start in
    (run_loop-Ahead session_idle is a.published (step session_idle (question text now true) a).0
      (step session_idle (question text now true) b).0
      (take_question-Ahead session_idle text now a.published a b
        (sym (append-nil a.published)))).1.0
run_loop-question session_idle text now start false is a = refl
