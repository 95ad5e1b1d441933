-- ===== src/Wasm/Scheduler/Notices.antt =====
-- What the ticks say, and that it is spoken.

use athena_voice.Base.{
  ℕ, ◌≤◌, ◌≡◌, refl, sym, ap, ◌∙◌, inl, inr, Bool, true, false, List, [], ◌∷◌, ◌++◌, map,
  append-nil, append_assoc, length, if◌then◌else◌, Bool-cases, arith,
}
use athena_voice.Base.Ints.{ℤ}
use athena_voice.Base.Select.{select}
use athena_voice.Text.{Text, codes, text_eq}
use athena_voice.Core.Json.{JsonLib}
use athena_voice.Storage.Events.{ScheduledEvent, ScheduledEvents, SqlLib, due_rows, pop_due_events}
use athena_voice.Pipeline.Llm.{TtsMsg, token, answer_end}
use athena_voice.Pipeline.Channel.{Channel, send, send_room}
use athena_voice.Wasm.Scheduler.{
  Effect, publish, scheduled_fired, skill_notify, Received, notify, other, lagged, send_answer,
  forward, spawn_skill_notify_forwarder, timer_expiration_text, fire, fire_all, fire_popped, tick,
}

-- The texts of the notifications.
abbrev pub spoken : List Effect → List Text
spoken [] = []
spoken (publish topic payload ∷ es) = spoken es
spoken (scheduled_fired skill id ∷ es) = spoken es
spoken (skill_notify session skill text ∷ es) = text ∷ spoken es

-- The messages on MQTT.
abbrev pub sent_out : List Effect → List (Text × List ℕ)
sent_out [] = []
sent_out (publish topic payload ∷ es) = (topic, payload) ∷ sent_out es
sent_out (scheduled_fired skill id ∷ es) = sent_out es
sent_out (skill_notify session skill text ∷ es) = sent_out es

abbrev pub is_timer : ScheduledEvent → Bool
is_timer e = text_eq e.skill (codes "timer")

module _ (lib : JsonLib) where
  fire_all-spoken :
      (session : ℕ) (es : List ScheduledEvent)
      → spoken (fire_all lib session es)
        ≡ map (λ e. timer_expiration_text lib e.payload) (select is_timer es)
  unfolding fire_all fire select
  fire_all-spoken session [] = refl
  fire_all-spoken session (e ∷ es) = elim (Bool-cases (is_timer e)) [
    | inl timer ↦
        rw timer (ap (λ ts. timer_expiration_text lib e.payload ∷ ts) (fire_all-spoken session es))
    | inr silent ↦ rw silent (fire_all-spoken session es)
  ]

  fire_all-sent_out :
      (session : ℕ) (es : List ScheduledEvent)
      → sent_out (fire_all lib session es) ≡ map (λ e. (e.mqtt_topic, e.payload)) es
  unfolding fire_all fire
  fire_all-sent_out session [] = refl
  fire_all-sent_out session (e ∷ es) = elim (Bool-cases (is_timer e)) [
    | inl timer ↦
        rw timer (ap (λ ts. (e.mqtt_topic, e.payload) ∷ ts) (fire_all-sent_out session es))
    | inr silent ↦
        rw silent (ap (λ ts. (e.mqtt_topic, e.payload) ∷ ts) (fire_all-sent_out session es))
  ]

  module _ (sql : SqlLib) where
    -- A tick publishes the messages of the events that are due, in the order of their times, and announces
    -- those of the timer skill in the same order; if the database fails, it does nothing.
    pub tick-effects :
        (up : Bool) (now_ms : ℤ) (session : ℕ) (s : ScheduledEvents)
        → let due = if up then due_rows sql now_ms s else [] in
          (sent_out (tick lib sql up now_ms session s).0 ≡ map (λ e. (e.mqtt_topic, e.payload)) due)
          × (spoken (tick lib sql up now_ms session s).0
              ≡ map (λ e. timer_expiration_text lib e.payload) (select is_timer due))
    unfolding tick fire_popped pop_due_events select
    tick-effects false now_ms session s = (refl, refl)
    tick-effects true now_ms session s = (
      fire_all-sent_out session (due_rows sql now_ms s),
      fire_all-spoken session (due_rows sql now_ms s),
    )

-- The texts that are received, and each as an utterance of its own.
abbrev pub notices : List Received → List Text
notices [] = []
notices (notify text ∷ rs) = text ∷ notices rs
notices (other ∷ rs) = notices rs
notices (lagged ∷ rs) = notices rs

abbrev pub utterances : List Text → List TtsMsg
utterances [] = []
utterances (text ∷ ts) = token text ∷ answer_end ∷ utterances ts

-- Every notification reaches the speech synthesis as an utterance of its own, the token and the end of the
-- answer, in order, while the stage takes as many messages; other events and lags change nothing.
pub spawn_skill_notify_forwarder-utterances :
    (rs : List Received) (out : Channel TtsMsg)
    → length (utterances (notices rs)) ≤ out.left
    → (spawn_skill_notify_forwarder rs out).sent ≡ out.sent ++ utterances (notices rs)
unfolding spawn_skill_notify_forwarder forward send_answer
spawn_skill_notify_forwarder-utterances [] out h = sym (append-nil out.sent)
spawn_skill_notify_forwarder-utterances (other ∷ rs) out h =
    spawn_skill_notify_forwarder-utterances rs out h
spawn_skill_notify_forwarder-utterances (lagged ∷ rs) out h =
    spawn_skill_notify_forwarder-utterances rs out h
spawn_skill_notify_forwarder-utterances (notify text ∷ rs) out h =
    let (fine, sent, left) = send_room (token text) out (omega (arith, h)) in
    let out' = (send (token text) out).0 in
    let (fine', sent', left') = send_room answer_end out' (omega (arith, h, left)) in
    let out'' = (send answer_end out').0 in
    let rest = spawn_skill_notify_forwarder-utterances rs out'' (omega (arith, h, left, left')) in
    rw (fine, fine')
      (rest
        ∙ ap (λ l. l ++ utterances (notices rs)) (sent' ∙ ap (λ l. l ++ answer_end ∷ []) sent)
        ∙ ap (λ l. l ++ utterances (notices rs))
            (append_assoc out.sent (token text ∷ []) (answer_end ∷ []))
        ∙ append_assoc out.sent (token text ∷ answer_end ∷ []) (utterances (notices rs)))
