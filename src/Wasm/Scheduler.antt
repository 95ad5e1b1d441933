-- ===== src/Wasm/Scheduler.antt =====
-- The scheduler of crates/athena-voice-runtime/src/wasm/scheduler.rs: its tick, and the forwarder of
-- notifications to the speech-synthesis stage. The broker's answer to a publish is only logged, so it is left out.
-- What the forwarder receives is a list; the end of the list is the closed bus or the cancellation.
pub mod Notices
use athena_voice.Base.{
  ℕ, Bool, true, false, Option, none, some, List, [], ◌∷◌, ◌++◌, if◌then◌else◌, Result, ok, err,
}
use athena_voice.Base.Ints.{ℤ}
use athena_voice.Text.{Text, codes, text_eq, concat}
use athena_voice.Text.Decimal.{decimal}
use athena_voice.Core.Json.{JsonLib}
use athena_voice.Storage.Events.{
  ScheduledEvent, ScheduledEvents, StoreError, SqlLib, pop_due_events,
}
use athena_voice.Pipeline.Llm.{TtsMsg, token, answer_end}
use athena_voice.Pipeline.Channel.{Channel, send}

-- What a tick does outside: a message on MQTT, and the events `ScheduledFired` and `SkillNotify` on the bus.
pub data Effect : Type 0 where
  publish : Text → List ℕ → Effect
  scheduled_fired : Text → ℕ → Effect
  skill_notify : ℕ → Text → Text → Effect

-- What the forwarder receives: a `SkillNotify` with its text, another event, or a lag.
pub data Received : Type 0 where
  notify : Text → Received
  other : Received
  lagged : Received

-- `let … .await.is_err() || … .await.is_err()`: the second is sent only if the first was.
send_answer : Text → Channel TtsMsg → Channel TtsMsg × Bool
send_answer text out =
    let (out', fine) = send (token text) out in if fine then send answer_end out' else (out', false)

forward : List Received → Channel TtsMsg → Channel TtsMsg
unfolding send_answer
forward [] out = out
forward (notify text ∷ rs) out =
    let (out', fine) = send_answer text out in
    let rest = forward rs out' in if fine then rest else out'
forward (other ∷ rs) out = forward rs out
forward (lagged ∷ rs) out = forward rs out

unfoldable pub spawn_skill_notify_forwarder : List Received → Channel TtsMsg → Channel TtsMsg
unfolding forward
spawn_skill_notify_forwarder rs out = forward rs out

module _ (lib : JsonLib) where
  open lib use {Value, from_slice, get, as_u64}

  number_of : Option Value → Option ℕ
  number_of none = none
  number_of (some v) = as_u64 v

  -- `serde_json::from_slice::<Payload>`: an object with a number `seconds`.
  payload_of : Option Value → Option ℕ
  unfolding number_of
  payload_of none = none
  payload_of (some v) = number_of (get v (codes "seconds"))

  seconds_of : Option ℕ → ℕ
  seconds_of none = 0
  seconds_of (some n) = n

  unfoldable pub timer_expiration_text : List ℕ → Text
  unfolding payload_of seconds_of
  timer_expiration_text payload =
      let seconds = seconds_of (payload_of (from_slice payload)) in
      concat (codes "le minuteur de " ∷ decimal seconds ∷ codes " secondes est terminé." ∷ [])

  -- The body of the `for` over the popped events.
  fire : ℕ → ScheduledEvent → List Effect
  unfolding timer_expiration_text
  fire session ev =
      publish ev.mqtt_topic ev.payload
      ∷ scheduled_fired ev.skill ev.id
      ∷ (if text_eq ev.skill (codes "timer")
          then skill_notify session ev.skill (timer_expiration_text ev.payload) ∷ []
          else [])

  fire_all : ℕ → List ScheduledEvent → List Effect
  unfolding fire
  fire_all session [] = []
  fire_all session (ev ∷ evs) = fire session ev ++ fire_all session evs

  fire_popped : ℕ → Result (List ScheduledEvent) StoreError → List Effect
  unfolding fire_all
  fire_popped session (ok evs) = fire_all session evs
  fire_popped session (err e) = []

  module _ (sql : SqlLib) where
    unfoldable pub tick : Bool → ℤ → ℕ → ScheduledEvents → List Effect × ScheduledEvents
    unfolding fire_popped
    tick up now_ms session s =
        let (r, s') = pop_due_events sql up now_ms s in (fire_popped session r, s')
