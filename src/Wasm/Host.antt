-- ===== src/Wasm/Host.antt =====
-- The host functions that WebAssembly skills call, of crates/athena-voice-runtime/src/wasm/host_fns.rs.
-- The arguments are what the functions read from the guest's memory, and what they write there is the result;
-- `none` stands for an error of the call. Whether the database and the broker answer, and the clocks, are
-- arguments too. `url` is a parameter.
pub mod Reach
pub mod State
pub mod Urls
use athena_voice.Base.{
  ℕ, ◌+◌, ◌-◌, ◌*◌, Bool, true, false, ◌&&◌, ◌||◌, Option, none, some, List, [], ◌∷◌, ◌++◌, any,
  ltb, leb, if◌then◌else◌, Result, ok, err,
}
use athena_voice.Base.Ints.{ℤ, pos, negsuc}
use athena_voice.Text.{Text, codes, text_eq}
use athena_voice.Wasm.Acl.{mqtt_topic_allowed, mqtt_publish_allowed}
use athena_voice.Storage.Events.{ScheduledEvents, StoreError, schedule_event}
use athena_voice.Storage.SkillKv.{SkillKv, skill_kv_get, skill_kv_set, skill_kv_gc, as_i64}
use athena_voice.Storage.Tmp.{MemoryTmpStore, tmp_set, tmp_get}

pub record SkillCtx : Type 0 where
  pub name : Text
  pub http_allowlist : List Text
  pub mqtt_publish_allowlist : List Text
  pub retention_gc_after_sec : Option ℕ

-- What the host functions change: the tables, the temporary store, and the messages published.
pub record Host : Type 0 where
  pub kv : SkillKv
  pub events : ScheduledEvents
  pub tmp : MemoryTmpStore
  pub published : List (Text × List ℕ)

-- `i64::from_le_bytes` of exactly eight bytes
abbrev pub le_value : List ℕ → ℕ
le_value [] = 0
le_value (b ∷ bs) = b + 256 * le_value bs

unfoldable pub from_le_bytes : List ℕ → Option ℤ
unfolding as_i64
from_le_bytes (a ∷ b ∷ c ∷ d ∷ e ∷ f ∷ g ∷ h ∷ []) =
    some (as_i64 (le_value (a ∷ b ∷ c ∷ d ∷ e ∷ f ∷ g ∷ h ∷ [])))
from_le_bytes _ = none

abbrev or_default : Option (List ℕ) → List ℕ
or_default none = []
or_default (some v) = v

abbrev pub got : Result (Option (List ℕ)) StoreError → Option (List ℕ)
got (ok v) = some (or_default v)
got (err e) = none

unfoldable pub host_state_get : Bool → SkillCtx → Text → Host → Option (List ℕ)
host_state_get up ctx key h = got (skill_kv_get up ctx.name key h.kv)

-- What `host_state_set` does after the value was written.
abbrev gc_after : Bool → ℕ → SkillCtx → Option ℕ → SkillKv → Result (Unit {0}) StoreError × SkillKv
unfolding skill_kv_gc
gc_after up now_sec ctx none kv = (ok tt, kv)
gc_after up now_sec ctx (some ttl) kv = skill_kv_gc up ctx.name (now_sec - ttl) kv

abbrev then_gc :
    Bool
    → ℕ
    → SkillCtx
    → Result (Unit {0}) StoreError × SkillKv
    → Result (Unit {0}) StoreError × SkillKv
unfolding gc_after
then_gc up now_sec ctx (ok u, kv) = gc_after up now_sec ctx ctx.retention_gc_after_sec kv
then_gc up now_sec ctx (err e, kv) = (err e, kv)

abbrev done : Result (Unit {0}) StoreError → Option (Unit {0})
done (ok u) = some u
done (err e) = none

unfoldable pub host_state_set :
    Bool → Bool → ℤ → ℕ → SkillCtx → Text → List ℕ → Host → Option (Unit {0}) × Host
unfolding then_gc
host_state_set up up_gc timestamp_sec now_sec ctx key val h =
    let (r, kv) = then_gc up_gc now_sec ctx (skill_kv_set up timestamp_sec ctx.name key val h.kv) in
    (done r, record { kv = kv; events = h.events; tmp = h.tmp; published = h.published })

abbrev pub mqtt_ok : ℤ
mqtt_ok = pos 0

abbrev pub mqtt_err_acl : ℤ
mqtt_err_acl = pos 1

abbrev pub mqtt_err_client : ℤ
mqtt_err_client = pos 2

unfoldable pub host_mqtt_publish : Bool → SkillCtx → Text → List ℕ → Host → ℤ × Host
host_mqtt_publish client_ok ctx topic payload h =
    if mqtt_publish_allowed ctx.name topic ctx.mqtt_publish_allowlist
    then if client_ok
      then (
        mqtt_ok,
        record {
          kv = h.kv;
          events = h.events;
          tmp = h.tmp;
          published = h.published ++ (topic, payload) ∷ [];
        },
      )
      else (mqtt_err_client, h)
    else (mqtt_err_acl, h)

abbrev pub sched_err_acl : ℤ
sched_err_acl = negsuc 0

abbrev pub sched_err_store : ℤ
sched_err_store = negsuc 1

abbrev code_of : Result ℕ StoreError → ℤ
code_of (ok id) = pos id
code_of (err e) = sched_err_store

abbrev schedule_at : Bool → ℤ → SkillCtx → Option ℤ → Text → List ℕ → Host → Option ℤ × Host
schedule_at up created_at_ms ctx none topic payload h = (none, h)
schedule_at up created_at_ms ctx (some fires_at_ms) topic payload h =
    let (r, events) = schedule_event up created_at_ms ctx.name fires_at_ms topic payload h.events in
    if mqtt_topic_allowed ctx.name topic
    then (
      some (code_of r),
      record { kv = h.kv; events = events; tmp = h.tmp; published = h.published },
    )
    else (some sched_err_acl, h)

unfoldable pub host_schedule_mqtt :
    Bool → ℤ → SkillCtx → List ℕ → Text → List ℕ → Host → Option ℤ × Host
unfolding from_le_bytes
host_schedule_mqtt up created_at_ms ctx fires_at_bytes topic payload h =
    schedule_at up created_at_ms ctx (from_le_bytes fires_at_bytes) topic payload h

-- The name of the skill is an argument of the guest here, and not that of the context.
unfoldable pub host_tmp_set : SkillCtx → ℕ → Text → Text → List ℕ → ℕ → Host → Host
host_tmp_set ctx now skill key val expires_sec h = record {
  kv = h.kv;
  events = h.events;
  tmp = tmp_set skill key val expires_sec now h.tmp;
  published = h.published;
}

unfoldable pub host_tmp_get : SkillCtx → ℕ → Text → Text → Host → List ℕ × Host
host_tmp_get ctx now skill key h =
    let (tmp, v) = tmp_get skill key now h.tmp in
    (or_default v, record { kv = h.kv; events = h.events; tmp = tmp; published = h.published })

-- `reqwest::Url`
pub record UrlLib : Type 1 where
  pub Url : Type 0
  pub parse : Text → Option Url
  pub scheme : Url → Text
  pub host_str : Url → Option Text

-- Which of the errors of `HostFnError`, without the text.
pub data HostFnError : Type 0 where
  http_bad_url : HostFnError
  http_bad_scheme : Text → HostFnError
  http_host_not_allowed : Text → HostFnError

module _ (lib : UrlLib) where
  open lib use {Url, parse, scheme, host_str}

  host_allowed : List Text → Url → Option Text → Result Url HostFnError
  host_allowed allowlist url none = err http_bad_url
  host_allowed allowlist url (some host) =
      if any (λ h. text_eq h host) allowlist then ok url else err (http_host_not_allowed host)

  url_allowed : List Text → Option Url → Result Url HostFnError
  unfolding host_allowed
  url_allowed allowlist none = err http_bad_url
  url_allowed allowlist (some url) =
      if text_eq (scheme url) (codes "http") || text_eq (scheme url) (codes "https")
      then host_allowed allowlist url (host_str url)
      else err (http_bad_scheme (scheme url))

  unfoldable pub http_url_allowed : List Text → Text → Result Url HostFnError
  unfolding url_allowed
  http_url_allowed allowlist url = url_allowed allowlist (parse url)
