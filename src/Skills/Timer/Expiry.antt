-- ===== src/Skills/Timer/Expiry.antt =====
-- A timer that is set schedules its one event, and the tick that finds it due announces it.
use athena_voice.Base.{
  ℕ, zero, suc, ◌+◌, ◌*◌, ◌/◌, ◌%◌, ◌≤◌, ◌<◌, ◌≡◌, refl, sym, ap, ◌∙◌, inl, inr, Bool, true, Option,
  none, some, List, ltb, if◌then◌else◌, Result, ok, err, Bool-cases, arith,
}
use athena_voice.Base.Ints.{pos}
use athena_voice.Text.{Text, codes, starts_with}
use athena_voice.Storage.Events.{ScheduledEvents, schedule_event}
use athena_voice.Storage.SkillKv.{as_i64}
use athena_voice.Wasm.Acl.{mqtt_topic_allowed, mqtt_topic_prefix}
use athena_voice.Wasm.Host.{SkillCtx, Host, host_tmp_set, host_state_set, from_le_bytes, le_value}
use athena_voice.Wasm.Host.Reach.{host_schedule_mqtt-allowed}
use athena_voice.Skills.Timer.{
  timer_payload, Env, SkillError, max_seconds, schedule_mqtt, handle, on_parsed, started, remember,
  le_bytes,
}
use athena_voice.Skills.Timer.Duration.{parse_fr_duration, parse_en_duration}

-- Whether a number fits in so many bytes.
abbrev Fits : ℕ → ℕ → Type 0
Fits zero n = n ≡ 0
Fits (suc k) n = Fits k (n / 256)

le_value-le_bytes : (k n : ℕ) → Fits k n → le_value (le_bytes k n) ≡ n
le_value-le_bytes zero n h = sym h
le_value-le_bytes (suc k) n h = let rest = le_value-le_bytes k (n / 256) h in omega (arith, rest)

Fits-word : (n : ℕ) → n < 18446744073709551616 → Fits 8 n
Fits-word n h = omega (arith, h)

from_le_bytes-le_bytes :
    (n : ℕ) → n < 9223372036854775808 → from_le_bytes (le_bytes 8 n) ≡ some (pos n)
unfolding from_le_bytes as_i64
from_le_bytes-le_bytes n h =
    let value = le_value-le_bytes 8 n (Fits-word n (omega (arith, h))) in
    let positive : ltb n 9223372036854775808 ≡ true = ground (arith, h) in
    ap (λ x. some (as_i64 x)) value ∙ rw positive refl

-- The event of a timer, in the table that had the events before.
abbrev pub timer_events : Env → Option ℕ → ScheduledEvents → ScheduledEvents
timer_events env none events = events
timer_events env (some seconds) events =
    let after =
      (schedule_event true env.created_at_ms (codes "timer") (pos (env.now_ms + seconds * 1000))
        (codes "athena/skills/timer/expired") (timer_payload seconds) events).1 in
    if ltb max_seconds seconds then events else after

-- What a request means.
abbrev pub requested : (Text → Text) → Text → Text → Option ℕ
requested to_lowercase locale text =
    if starts_with (codes "en") locale
    then parse_en_duration to_lowercase text
    else parse_fr_duration to_lowercase text

timer_allowed : mqtt_topic_allowed (codes "timer") (codes "athena/skills/timer/expired") ≡ true
unfolding mqtt_topic_allowed mqtt_topic_prefix starts_with
timer_allowed = refl

module _ (to_lowercase : Text → Text) where
  remember-events :
      (env : Env) (ctx : SkillCtx) (seconds : ℕ) (text : Text) (r : Result ℕ SkillError) (h : Host)
      → (remember env ctx seconds text (r, h)).1.events ≡ h.events
  unfolding host_tmp_set host_state_set remember
  remember-events env ctx seconds text (err e) h = refl
  remember-events env ctx seconds text (ok id) h = refl

  schedule_mqtt-events :
      (env : Env) (ctx : SkillCtx) (at : ℕ) (payload : List ℕ) (h : Host)
      → ctx.name ≡ codes "timer"
      → at < 9223372036854775808
      → (schedule_mqtt env ctx at (codes "athena/skills/timer/expired") payload h).1.events
        ≡ (schedule_event env.up_events env.created_at_ms
            (codes "timer")
            (pos at)
            (codes "athena/skills/timer/expired")
            payload
            h.events).1
  unfolding schedule_mqtt
  schedule_mqtt-events env ctx at payload h name small =
      let topic = codes "athena/skills/timer/expired" in
      let own : mqtt_topic_allowed ctx.name topic ≡ true =
        ap (λ x. mqtt_topic_allowed x topic) name ∙ timer_allowed in
      host_schedule_mqtt-allowed env.up_events env.created_at_ms (pos at) ctx (le_bytes 8 at) topic
        payload h (from_le_bytes-le_bytes at small) own
      ∙ ap
          (λ x.
            (schedule_event env.up_events env.created_at_ms x (pos at) topic payload h.events).1)
          name

  started-events :
      (env : Env) (ctx : SkillCtx) (en : Bool) (text : Text) (seconds : ℕ) (h : Host)
      → ctx.name ≡ codes "timer"
      → env.up_events ≡ true
      → env.now_ms + seconds * 1000 < 9223372036854775808
      → (started to_lowercase env ctx en text seconds h).1.events
        ≡ (schedule_event true env.created_at_ms
            (codes "timer")
            (pos (env.now_ms + seconds * 1000))
            (codes "athena/skills/timer/expired")
            (timer_payload seconds)
            h.events).1
  unfolding started
  started-events env ctx en text seconds h name up small =
      let topic = codes "athena/skills/timer/expired" in
      let at = (env.now_ms + seconds * 1000) % 18446744073709551616 in
      let same : at ≡ env.now_ms + seconds * 1000 = omega (arith, small) in
      remember-events env ctx seconds _ (schedule_mqtt env ctx at topic (timer_payload seconds) h).0
        (schedule_mqtt env ctx at topic (timer_payload seconds) h).1
      ∙ schedule_mqtt-events env ctx at (timer_payload seconds) h name (omega (arith, small))
      ∙ ap
          (λ b.
            (schedule_event b env.created_at_ms (codes "timer") (pos at) topic
              (timer_payload seconds) h.events).1)
          up
      ∙ ap
          (λ n.
            (schedule_event true env.created_at_ms (codes "timer") (pos n) topic
              (timer_payload seconds) h.events).1)
          same

  -- A request for a timer, while the database answers and the clock is in range, adds one event to the table
  -- if a duration was understood that is not above twenty-four hours: at the time of the request and the
  -- duration, under the name and in the namespace of the skill. In every other case the table stays.
  pub handle-timer_events :
      (env : Env) (ctx : SkillCtx) (locale : Text) (text : Text) (h : Host)
      → ctx.name ≡ codes "timer"
      → env.up_events ≡ true
      → env.now_ms < 9223285636854775808
      → (handle to_lowercase env ctx locale (some text) h).1.events
        ≡ timer_events env (requested to_lowercase locale text) h.events
  unfolding handle on_parsed
  handle-timer_events env ctx locale text h name up small =
      parsed (requested to_lowercase locale text)
    where
      parsed :
          (o : Option ℕ)
          → (on_parsed to_lowercase env ctx (starts_with (codes "en") locale) text o h).1.events
            ≡ timer_events env o h.events
      parsed none = refl
      parsed (some seconds) = elim (Bool-cases (ltb max_seconds seconds)) [
        | inl over ↦ rw over refl
        | inr fine ↦
            let bound : seconds ≤ max_seconds = ground (arith, fine) in
            rw fine (
              started-events env ctx (starts_with (codes "en") locale) text seconds h name up
                (omega (arith, small, bound)))
      ]
