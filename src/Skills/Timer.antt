-- ===== src/Skills/Timer.antt =====
-- The timer skill of skills-timer/src/lib.rs, over the calls of the host that it makes through
-- crates/athena-voice-skill-sdk/src/host.rs. The plugin's context has no name, so
-- its temporary values are under the empty name.
pub mod Duration
pub mod Expiry
pub mod Announced
use athena_voice.Base.{
  ℕ, zero, suc, ◌+◌, ◌*◌, ◌/◌, ◌%◌, Bool, true, false, Option, none, some, List, [], ◌∷◌, ltb,
  if◌then◌else◌, Result, ok, err,
}
use athena_voice.Base.Ints.{ℤ, pos, negsuc}
use athena_voice.Text.{Text, utf8, codes, starts_with, concat}
use athena_voice.Text.Decimal.{decimal}
use athena_voice.Wasm.Host.{
  SkillCtx, Host, host_schedule_mqtt, host_tmp_set, host_state_set, sched_err_acl, sched_err_store,
}
use athena_voice.Skills.Timer.Duration.{parse_fr_duration, parse_en_duration}

abbrev pub max_seconds : ℕ
max_seconds = 86400

-- `to_le_bytes` of 64 bits
abbrev le_bytes : ℕ → ℕ → List ℕ
le_bytes zero n = []
le_bytes (suc k) n = n % 256 ∷ le_bytes k (n / 256)

-- What the calls of the host meet: the clocks, and whether the database answers.
pub record Env : Type 0 where
  pub now_ms : ℕ
  pub now_sec : ℕ
  pub created_at_ms : ℤ
  pub timestamp_sec : ℤ
  pub up_events : Bool
  pub up_kv : Bool
  pub up_gc : Bool

-- The errors of `SkillError` that can arise here, without their texts.
pub data SkillError : Type 0 where
  mqtt_failed : SkillError
  state_failed : SkillError

-- What `schedule_mqtt` of the guest makes of the reply.
abbrev reply_id : Option ℤ → Result ℕ SkillError
reply_id none = err mqtt_failed
reply_id (some (pos id)) = ok id
reply_id (some (negsuc n)) = err mqtt_failed

unfoldable pub schedule_mqtt :
    Env → SkillCtx → ℕ → Text → List ℕ → Host → Result ℕ SkillError × Host
schedule_mqtt env ctx fires_at_ms topic payload h =
    let (reply, h') =
      host_schedule_mqtt env.up_events env.created_at_ms ctx (le_bytes 8 fires_at_ms) topic payload
        h in
    (reply_id reply, h')

abbrev state_reply : Option (Unit {0}) → Text → Result Text SkillError
state_reply none text = err state_failed
state_reply (some u) text = ok text

abbrev timer_key : ℕ → Text
unfolding decimal
timer_key id = concat (codes "timer/" ∷ decimal id ∷ [])

-- What follows the `?` of `schedule_mqtt`; `text` is the answer.
abbrev remember :
    Env → SkillCtx → ℕ → Text → Result ℕ SkillError × Host → Result Text SkillError × Host
unfolding host_state_set host_tmp_set timer_key
remember env ctx seconds text (err e, h) = (err e, h)
remember env ctx seconds text (ok id, h) =
    let stored = host_tmp_set ctx env.now_sec [] (timer_key id) (le_bytes 8 seconds) seconds h in
    let (done, h') =
      host_state_set env.up_kv env.up_gc env.timestamp_sec env.now_sec ctx (timer_key id)
        (le_bytes 8 seconds) stored in
    (state_reply done text, h')

abbrev slot_text : Option Text → Text
slot_text none = []
slot_text (some t) = t

-- `serde_json::to_vec(&json!({ "seconds": seconds }))`
unfoldable pub timer_payload : ℕ → List ℕ
timer_payload seconds = utf8 (concat (codes "{\"seconds\":" ∷ decimal seconds ∷ codes "}" ∷ []))

module _ (to_lowercase : Text → Text) where
  started : Env → SkillCtx → Bool → Text → ℕ → Host → Result Text SkillError × Host
  unfolding remember
  started env ctx en duration_text seconds h =
      let topic = codes "athena/skills/timer/expired" in
      let fires_at_ms = (env.now_ms + seconds * 1000) % 18446744073709551616 in
      let text =
        if en
        then concat (codes "okay, timer for " ∷ duration_text ∷ codes " started" ∷ [])
        else concat (codes "d'accord, minuteur de " ∷ duration_text ∷ codes " lancé" ∷ []) in
      remember env ctx seconds text
        (schedule_mqtt env ctx fires_at_ms topic (timer_payload seconds) h)

  on_parsed : Env → SkillCtx → Bool → Text → Option ℕ → Host → Result Text SkillError × Host
  unfolding started
  on_parsed env ctx en duration_text none h = (
    ok (
        if en
        then codes "sorry, I didn't understand the timer duration"
        else codes "désolé, je n'ai pas compris la durée du minuteur"),
    h,
  )
  on_parsed env ctx en duration_text (some seconds) h =
      let run = started env ctx en duration_text seconds h in
      if ltb max_seconds seconds
      then (
        ok (
            if en
            then codes "sorry, I only handle timers under twenty-four hours"
            else codes "désolé, je ne gère que les minuteurs de moins de vingt-quatre heures"),
        h,
      )
      else run

  unfoldable pub handle : Env → SkillCtx → Text → Option Text → Host → Result Text SkillError × Host
  unfolding on_parsed
  handle env ctx locale slot h =
      let duration_text = slot_text slot in
      let en = starts_with (codes "en") locale in
      let parsed =
        if en
        then parse_en_duration to_lowercase duration_text
        else parse_fr_duration to_lowercase duration_text in
      on_parsed env ctx en duration_text parsed h
