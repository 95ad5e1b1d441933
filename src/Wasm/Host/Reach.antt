-- ===== src/Wasm/Host/Reach.antt =====
-- What the host functions let a skill reach.

use athena_voice.Base.{
  ℕ, ◌+◌, ◌≡◌, refl, sym, ap, ◌∙◌, inl, inr, Bool, true, false, Option, none, some, List, [], ◌∷◌,
  ◌++◌, append-nil, append_assoc, Bool-cases, All,
}
use athena_voice.Base.Ints.{ℤ}
use athena_voice.Text.{Text}
use athena_voice.Storage.Events.{ScheduledEvent, schedule_event}
use athena_voice.Storage.Events.Once.{event_of}
use athena_voice.Wasm.Acl.{mqtt_topic_allowed, mqtt_publish_allowed}
use athena_voice.Wasm.Host.{
  SkillCtx, Host, from_le_bytes, host_state_set, host_schedule_mqtt, schedule_at, host_mqtt_publish,
  host_tmp_set, host_tmp_get,
}

-- In the own namespace, a call schedules what it says.
pub host_schedule_mqtt-allowed :
    (up : Bool) (created at : ℤ) (ctx : SkillCtx) (bytes : List ℕ) (topic : Text) (payload : List ℕ)
    (h : Host)
    → from_le_bytes bytes ≡ some at
    → mqtt_topic_allowed ctx.name topic ≡ true
    → (host_schedule_mqtt up created ctx bytes topic payload h).1.events
      ≡ (schedule_event up created ctx.name at topic payload h.events).1
unfolding host_schedule_mqtt
host_schedule_mqtt-allowed up created at ctx bytes topic payload h read allowed =
    ap (λ o. (schedule_at up created ctx o topic payload h).1.events) read ∙ rw allowed refl

-- A call of a host function that changes something.
pub data HostCall : Type 0 where
  sets_state : Bool → Bool → ℤ → ℕ → Text → List ℕ → HostCall
  publishes : Bool → Text → List ℕ → HostCall
  schedules : Bool → ℤ → List ℕ → Text → List ℕ → HostCall
  sets_tmp : ℕ → Text → Text → List ℕ → ℕ → HostCall
  gets_tmp : ℕ → Text → Text → HostCall

apply : SkillCtx → HostCall → Host → Host
apply ctx (sets_state up up_gc timestamp_sec now_sec key val) h =
    (host_state_set up up_gc timestamp_sec now_sec ctx key val h).1
apply ctx (publishes client_ok topic payload) h =
    (host_mqtt_publish client_ok ctx topic payload h).1
apply ctx (schedules up created_at_ms bytes topic payload) h =
    (host_schedule_mqtt up created_at_ms ctx bytes topic payload h).1
apply ctx (sets_tmp now skill key val expires_sec) h =
    host_tmp_set ctx now skill key val expires_sec h
apply ctx (gets_tmp now skill key) h = (host_tmp_get ctx now skill key h).1

pub run_calls : SkillCtx → List HostCall → Host → Host
unfolding apply
run_calls ctx [] h = h
run_calls ctx (c ∷ cs) h = run_calls ctx cs (apply ctx c h)

-- What is new on the broker and in the table of events is allowed to the skill, and carries its name.
abbrev pub IsConfined : SkillCtx → Host → Host → Type 0
IsConfined ctx h h' =
    (messages : List (Text × List ℕ)) × (events : List ScheduledEvent) × (((h'.published
          ≡ h.published ++ messages)
        × (h'.events.rows ≡ h.events.rows ++ events))
      × (All (λ m. mqtt_publish_allowed ctx.name m.0 ctx.mqtt_publish_allowlist ≡ true) messages
          × All (λ e. (e.skill ≡ ctx.name) × (mqtt_topic_allowed ctx.name e.mqtt_topic ≡ true))
              events))

IsConfined-same :
    (ctx : SkillCtx) (h h' : Host)
    → h'.published ≡ h.published
    → h'.events.rows ≡ h.events.rows
    → IsConfined ctx h h'
IsConfined-same ctx h h' p e =
    ([], [], ((p ∙ sym (append-nil h.published), e ∙ sym (append-nil h.events.rows)), (tt, tt)))

All-append : {A : Type 0} (P : A → Type 0) (xs ys : List A) → All P xs → All P ys → All P (xs ++ ys)
All-append P [] ys h k = k
All-append P (x ∷ xs) ys h k = (h.0, All-append P xs ys h.1 k)

IsConfined-trans :
    (ctx : SkillCtx) (a b c : Host) → IsConfined ctx a b → IsConfined ctx b c → IsConfined ctx a c
IsConfined-trans ctx a b c (ms, es, ((p, e), (hm, he))) (ms', es', ((p', e'), (hm', he'))) = (
  ms ++ ms',
  es ++ es',
  (
    (
      p' ∙ ap (λ l. l ++ ms') p ∙ append_assoc a.published ms ms',
      e' ∙ ap (λ l. l ++ es') e ∙ append_assoc a.events.rows es es',
    ),
    (All-append _ ms ms' hm hm', All-append _ es es' he he'),
  ),
)

host_mqtt_publish-IsConfined :
    (client_ok : Bool) (ctx : SkillCtx) (topic : Text) (payload : List ℕ) (h : Host)
    → IsConfined ctx h (host_mqtt_publish client_ok ctx topic payload h).1
unfolding host_mqtt_publish
host_mqtt_publish-IsConfined client_ok ctx topic payload h =
    elim (Bool-cases (mqtt_publish_allowed ctx.name topic ctx.mqtt_publish_allowlist)) [
      | inr foreign ↦ rw foreign (IsConfined-same ctx h h refl refl)
      | inl own ↦ elim (Bool-cases client_ok) [
        | inr fails ↦ rw (own, fails) (IsConfined-same ctx h h refl refl)
        | inl sends ↦
            rw (own, sends)
              ((topic, payload) ∷ [], [], ((refl, sym (append-nil h.events.rows)), ((own, tt), tt)))
      ]
    ]

schedule_event-IsConfined :
    (up : Bool) (created at : ℤ) (ctx : SkillCtx) (topic : Text) (payload : List ℕ) (h : Host)
    → mqtt_topic_allowed ctx.name topic ≡ true
    → IsConfined ctx h (record {
      kv = h.kv;
      events = (schedule_event up created ctx.name at topic payload h.events).1;
      tmp = h.tmp;
      published = h.published;
    })
unfolding schedule_event
schedule_event-IsConfined false created at ctx topic payload h own =
    ([], [], ((sym (append-nil h.published), sym (append-nil h.events.rows)), (tt, tt)))
schedule_event-IsConfined true created at ctx topic payload h own = (
  [],
  event_of created ctx.name at topic payload (h.events.seq + 1) ∷ [],
  ((sym (append-nil h.published), refl), (tt, ((refl, own), tt))),
)

schedule_at-IsConfined :
    (up : Bool) (created : ℤ) (ctx : SkillCtx) (at : Option ℤ) (topic : Text) (payload : List ℕ)
    (h : Host)
    → IsConfined ctx h (schedule_at up created ctx at topic payload h).1
schedule_at-IsConfined up created ctx none topic payload h = IsConfined-same ctx h h refl refl
schedule_at-IsConfined up created ctx (some at) topic payload h =
    elim (Bool-cases (mqtt_topic_allowed ctx.name topic)) [
      | inl own ↦ rw own (schedule_event-IsConfined up created at ctx topic payload h own)
      | inr foreign ↦ rw foreign (IsConfined-same ctx h h refl refl)
    ]

apply-IsConfined : (ctx : SkillCtx) (c : HostCall) (h : Host) → IsConfined ctx h (apply ctx c h)
unfolding apply host_state_set host_schedule_mqtt host_tmp_set host_tmp_get
apply-IsConfined ctx (sets_state up up_gc timestamp_sec now_sec key val) h =
    IsConfined-same ctx h (host_state_set up up_gc timestamp_sec now_sec ctx key val h).1 refl refl
apply-IsConfined ctx (publishes client_ok topic payload) h =
    host_mqtt_publish-IsConfined client_ok ctx topic payload h
apply-IsConfined ctx (schedules up created bytes topic payload) h =
    schedule_at-IsConfined up created ctx (from_le_bytes bytes) topic payload h
apply-IsConfined ctx (sets_tmp now skill key val expires_sec) h =
    IsConfined-same ctx h (host_tmp_set ctx now skill key val expires_sec h) refl refl
apply-IsConfined ctx (gets_tmp now skill key) h =
    IsConfined-same ctx h (host_tmp_get ctx now skill key h).1 refl refl

-- Whatever a skill calls of the host functions for messages, events and stored values, the messages that it adds to the broker are in its namespace or granted to it, and the
-- events that it adds to the schedule carry its name and have a topic of its namespace, which a grant does not
-- widen; nothing that was published or scheduled before is changed. Of the stored values it says nothing.
pub run_calls-IsConfined :
    (ctx : SkillCtx) (cs : List HostCall) (h : Host) → IsConfined ctx h (run_calls ctx cs h)
unfolding run_calls
run_calls-IsConfined ctx [] h = IsConfined-same ctx h h refl refl
run_calls-IsConfined ctx (c ∷ cs) h =
    IsConfined-trans ctx h (apply ctx c h) (run_calls ctx cs (apply ctx c h))
      (apply-IsConfined ctx c h) (run_calls-IsConfined ctx cs (apply ctx c h))
