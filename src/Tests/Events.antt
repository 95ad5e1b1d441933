-- ===== src/Tests/Events.antt =====
-- The scheduled events, the scheduler and the timer at concrete inputs.
use mathlib.Core.List.{Mem}
use athena_voice.Base.{
  ℕ, ◌≡◌, refl, true, false, none, some, List, [], ◌∷◌, ◌++◌, if◌then◌else◌, ok, All, Perm, leb,
  ◌+◌, ◌-◌, ◌*◌, arith,
}
use athena_voice.Base.Ints.{pos, lebℤ}
use athena_voice.Text.{
  Text, codes, strip_prefix, utf8, utf8_char, is_ascii_digit, starts_with, text_eq, is_whitespace,
}
use athena_voice.Text.Words.{split_whitespace}
use athena_voice.Text.Decimal.{parse_u64, decimal}
use athena_voice.Skills.Timer.Duration.{parse_fr_duration}
use athena_voice.Core.Json.{JsonLib}
use athena_voice.Storage.Events.{ScheduledEvent, ScheduledEvents, InOrder, pop_due_events}
use athena_voice.Storage.Events.Due.{DistinctIds, IsValid, pop_due_events_exact}
use athena_voice.Storage.Events.Once.{
  EventOp, schedules, pops, deletes, start, run_ops, run_ops-once,
}
use athena_voice.Wasm.Scheduler.{tick, Received, notify, other, spawn_skill_notify_forwarder}
use athena_voice.Wasm.Scheduler.Notices.{
  spoken, utterances, notices, spawn_skill_notify_forwarder-utterances,
}
use athena_voice.Wasm.Host.{SkillCtx, Host}
use athena_voice.Skills.Timer.{Env, handle}
use athena_voice.Skills.Timer.Expiry.{requested}
use athena_voice.Skills.Timer.Announced.{ReadsBack, announcement, timer_event, handle-tick}
use athena_voice.Pipeline.Llm.{TtsMsg}
use athena_voice.Pipeline.Channel.{Channel}
use athena_voice.Tests.Sql.{sorting}

-- JSON that is a number, under every key.
abbrev number_json : JsonLib
number_json = record {
  Value = List ℕ;
  from_slice = λ bytes. some bytes;
  get = λ v key. some v;
  as_str = λ v. none;
  as_u64 = λ v. elim v [ [] ↦ none | ◌∷◌ n ns ↦ some n ];
  as_bool = λ v. none;
}

abbrev evening : List EventOp
evening =
    schedules true (pos 0) (codes "timer") (pos 5000) (codes "b") []
    ∷ schedules true (pos 0) (codes "timer") (pos 3000) (codes "a") []
    ∷ schedules true (pos 0) (codes "timer") (pos 9000) (codes "c") []
    ∷ pops false (pos 6000)
    ∷ pops true (pos 6000)
    ∷ deletes true 3
    ∷ []

run_ops-once_example :
    DistinctIds (run_ops sorting evening start).scheduled
    × Perm
        ((run_ops sorting evening start).fired
          ++ ((run_ops sorting evening start).deleted
              ++ (run_ops sorting evening start).table.rows))
        (run_ops sorting evening start).scheduled
run_ops-once_example = run_ops-once sorting evening

abbrev row : ℕ → ℕ → ScheduledEvent
row id at = record {
  id = id;
  skill = codes "timer";
  fires_at_ms = pos at;
  mqtt_topic = codes "athena/skills/timer/expired";
  payload = 5 ∷ [];
  created_at_ms = pos 0;
}

abbrev table : ScheduledEvents
table = record { rows = row 1 5000 ∷ row 2 3000 ∷ row 3 9000 ∷ []; seq = 3 }

abbrev table-IsValid : IsValid table
table-IsValid = ((refl, (refl, (refl, tt))), (omega arith, (omega arith, (omega arith, tt))))

pop_due_events_exact_example :
    (fired : List ScheduledEvent) × (rest : List ScheduledEvent) × ((pop_due_events sorting true
          (pos 6000)
          table
        ≡ (ok fired, record { rows = rest; seq = 3 }))
      × (InOrder fired
          × (Perm (fired ++ rest) table.rows
              × (All (λ e. lebℤ e.fires_at_ms (pos 6000) ≡ true) fired
                  × All (λ e. lebℤ e.fires_at_ms (pos 6000) ≡ false) rest))))
pop_due_events_exact_example = pop_due_events_exact sorting (pos 6000) table table-IsValid

abbrev bus : List Received
bus = notify (codes "fin") ∷ other ∷ notify (codes "encore") ∷ []

abbrev speech : Channel TtsMsg
speech = record { sent = []; left = 64 }

spawn_skill_notify_forwarder-utterances_example :
    (spawn_skill_notify_forwarder bus speech).sent ≡ [] ++ utterances (notices bus)
spawn_skill_notify_forwarder-utterances_example =
    spawn_skill_notify_forwarder-utterances bus speech (omega arith)

abbrev timer_ctx : SkillCtx
timer_ctx = record {
  name = codes "timer";
  http_allowlist = [];
  mqtt_publish_allowlist = [];
  retention_gc_after_sec = none;
}

abbrev host : Host
host = record { kv = []; events = table; tmp = record { store = [] }; published = [] }

abbrev env : Env
env = record {
  now_ms = 1000000;
  now_sec = 1000;
  created_at_ms = pos 1000000;
  timestamp_sec = pos 1000;
  up_events = true;
  up_kv = true;
  up_gc = true;
}

abbrev same_case : Text → Text
same_case t = t

-- A reader of the payload of a timer: the number in front of the brace, as the only field.
abbrev number_in : Text → ℕ → ℕ
number_in [] n = n
number_in (c ∷ t) n =
    let more = number_in t (n * 10 + (c - 48)) in if is_ascii_digit c then more else n

abbrev seconds_json : JsonLib
seconds_json = record {
  Value = List ℕ;
  from_slice = λ bytes. strip_prefix (codes "{\"seconds\":") bytes;
  get = λ v key. some v;
  as_str = λ v. none;
  as_u64 = λ v. some (number_in v 0);
  as_bool = λ v. none;
}

seconds-ReadsBack : ReadsBack seconds_json (codes "seconds") 120
unfolding utf8 utf8_char decimal strip_prefix
seconds-ReadsBack = (codes "120}", codes "120}", (refl, (refl, refl)))

two_minutes : requested same_case (codes "fr") (codes "deux minutes") ≡ some 120
unfolding starts_with parse_fr_duration split_whitespace is_whitespace parse_u64 text_eq
two_minutes = refl

handle-tick_example :
    let events =
      (handle same_case env timer_ctx (codes "fr") (some (codes "deux minutes")) host).1.events in
    let (effects, rest) = tick seconds_json sorting true (pos 1120000) 7 events in
    if leb (1000000 + 120 * 1000) 1120000
    then Mem (announcement 120) (spoken effects)
    else (spoken effects ≡ spoken (tick seconds_json sorting true (pos 1120000) 7 host.events).0)
      × Mem (timer_event env 120 table) rest.rows
handle-tick_example =
    handle-tick seconds_json sorting same_case env timer_ctx (codes "fr") (codes "deux minutes") 120
      host 1120000 7 table-IsValid refl refl (omega arith) two_minutes (omega arith)
      seconds-ReadsBack
