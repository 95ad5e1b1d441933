-- ===== src/Skills/Timer/Announced.antt =====
-- From the request for a timer to the announcement of its end.
use mathlib.Core.Path.{subst}
use mathlib.Core.List.{map, Mem, mem-cons_self, mem-append_right, mem-map_of_mem}
use mathlib.Core.List.Perm
use athena_voice.Base.{
  ℕ, ◌+◌, ◌*◌, ◌≤◌, ◌<◌, ◌≡◌, refl, sym, ap, ◌∙◌, inl, inr, true, false, not, some, List, [], ◌∷◌,
  ◌++◌, leb, if◌then◌else◌, Bool-cases, arith, ltb,
}
use athena_voice.Base.Ints.{ℤ, pos, lebℤ}
use athena_voice.Base.Select.{select, mem-select}
use athena_voice.Text.{Text, utf8, codes, text_eq, concat}
use athena_voice.Text.Decimal.{decimal}
use athena_voice.Text.Split.{text_eq_refl}
use athena_voice.Core.Json.{JsonLib}
use athena_voice.Storage.Events.{
  ScheduledEvent, ScheduledEvents, SqlLib, schedule_event, is_due, due_rows, pop_due_events,
}
use athena_voice.Storage.Events.Due.{IsValid, delete_rows-due}
use athena_voice.Storage.Events.Once.{event_of, IsValid-append}
use athena_voice.Wasm.Scheduler.{tick, timer_expiration_text}
use athena_voice.Wasm.Scheduler.Notices.{spoken, is_timer, tick-effects}
use athena_voice.Wasm.Host.{SkillCtx, Host}
use athena_voice.Skills.Timer.{timer_payload, Env, max_seconds, handle}
use athena_voice.Skills.Timer.Expiry.{requested, timer_events, handle-timer_events}

-- The text of a JSON object with one field, a number.
abbrev pub object_text : Text → ℕ → Text
object_text key n = concat (codes "{\"" ∷ key ∷ codes "\":" ∷ decimal n ∷ codes "}" ∷ [])

-- `serde_json` reads the number of such an object under its key.
abbrev pub ReadsBack : JsonLib → Text → ℕ → Type 0
ReadsBack lib key n =
    (v : lib.Value) × (w : lib.Value) × ((lib.from_slice (utf8 (object_text key n)) ≡ some v)
      × ((lib.get v key ≡ some w) × (lib.as_u64 w ≡ some n)))

timer_payload-object_text : (n : ℕ) → timer_payload n ≡ utf8 (object_text (codes "seconds") n)
unfolding timer_payload
timer_payload-object_text n = refl

-- The announcement of a timer.
abbrev pub announcement : ℕ → Text
unfolding decimal
announcement seconds =
    concat (codes "le minuteur de " ∷ decimal seconds ∷ codes " secondes est terminé." ∷ [])

timer_expiration_text-announcement :
    (lib : JsonLib) (n : ℕ)
    → ReadsBack lib (codes "seconds") n
    → timer_expiration_text lib (timer_payload n) ≡ announcement n
unfolding timer_expiration_text announcement
timer_expiration_text-announcement lib n (v, w, (parsed, (field, number))) =
    ap (timer_expiration_text lib) (timer_payload-object_text n)
    ∙ rw parsed (rw field (rw number refl))

-- The event of a timer that was understood.
abbrev pub timer_event : Env → ℕ → ScheduledEvents → ScheduledEvent
timer_event env seconds events =
    event_of env.created_at_ms (codes "timer") (pos (env.now_ms + seconds * 1000))
      (codes "athena/skills/timer/expired") (timer_payload seconds) (events.seq + 1)

module _ (lib : JsonLib) (sql : SqlLib) (to_lowercase : Text → Text) where
  -- The table after a request that was understood.
  handle-appended :
      (env : Env) (ctx : SkillCtx) (locale : Text) (text : Text) (seconds : ℕ) (h : Host)
      → ctx.name ≡ codes "timer"
      → env.up_events ≡ true
      → env.now_ms < 9223285636854775808
      → requested to_lowercase locale text ≡ some seconds
      → seconds ≤ max_seconds
      → (handle to_lowercase env ctx locale (some text) h).1.events ≡ record {
        rows = h.events.rows ++ timer_event env seconds h.events ∷ [];
        seq = h.events.seq + 1;
      }
  unfolding schedule_event
  handle-appended env ctx locale text seconds h name up small wish bound =
      let fine : ltb max_seconds seconds ≡ false = ground (arith, bound) in
      handle-timer_events to_lowercase env ctx locale text h name up small
      ∙ ap (λ o. timer_events env o h.events) wish
      ∙ rw fine refl

  announced :
      (e : ScheduledEvent) (t : ℤ) (session : ℕ) (s : ScheduledEvents)
      → Mem e s.rows
      → e.skill ≡ codes "timer"
      → is_due t e ≡ true
      → Mem (timer_expiration_text lib e.payload) (spoken (tick lib sql true t session s).0)
  announced e t session s m skill due =
      let timer : is_timer e ≡ true =
        ap (λ x. text_eq x (codes "timer")) skill ∙ text_eq_refl (codes "timer") in
      let popped : Mem e (due_rows sql t s) =
        (Perm.mem_iff (sql.order_by-Perm (select (is_due t) s.rows))).1
          (mem-select (is_due t) e s.rows m due) in
      subst (Mem (timer_expiration_text lib e.payload))
        (sym (tick-effects lib sql true t session s).1)
        (mem-map_of_mem (λ x. timer_expiration_text lib x.payload)
          (mem-select is_timer e (due_rows sql t s) popped timer))

  kept_waiting :
      (e : ScheduledEvent) (t : ℤ) (session : ℕ) (s : ScheduledEvents)
      → IsValid s
      → Mem e s.rows
      → is_due t e ≡ false
      → Mem e (tick lib sql true t session s).1.rows
  unfolding tick pop_due_events
  kept_waiting e t session s v m later =
      subst (Mem e) (sym (delete_rows-due sql t s v.0))
        (mem-select (λ r. not (is_due t r)) e s.rows m (ap not later))

  -- An event that is not due is not among those that are.
  due_rows-waiting :
      (e : ScheduledEvent) (t : ℤ) (rows : List ScheduledEvent)
      → is_due t e ≡ false
      → select (is_due t) (rows ++ e ∷ []) ≡ select (is_due t) rows
  unfolding select
  due_rows-waiting e t [] later = rw later refl
  due_rows-waiting e t (r ∷ rows) later = elim (Bool-cases (is_due t r)) [
    | inl due ↦ rw due (ap (λ l. r ∷ l) (due_rows-waiting e t rows later))
    | inr not_yet ↦ rw not_yet (due_rows-waiting e t rows later)
  ]

  unspoken :
      (e : ScheduledEvent) (t : ℤ) (session : ℕ) (events s : ScheduledEvents)
      → s.rows ≡ events.rows ++ e ∷ []
      → is_due t e ≡ false
      → spoken (tick lib sql true t session s).0 ≡ spoken (tick lib sql true t session events).0
  unspoken e t session events s appended later =
      let speak = λ (rows : List ScheduledEvent).
        map (λ x. timer_expiration_text lib x.payload) (select is_timer (sql.order_by rows)) in
      (tick-effects lib sql true t session s).1
      ∙ ap (λ rows. speak (select (is_due t) rows)) appended
      ∙ ap speak (due_rows-waiting e t events.rows later)
      ∙ sym (tick-effects lib sql true t session events).1

  -- What a tick makes of a table that ends with the event of a timer, and has the others before it.
  abbrev Outcome : Env → ℕ → ℕ → ℕ → ScheduledEvent → ScheduledEvents → ScheduledEvents → Type 0
  unfolding announcement
  Outcome env seconds t session e before events =
      let (effects, rest) = tick lib sql true (pos t) session events in
      if leb (env.now_ms + seconds * 1000) t
      then Mem (announcement seconds) (spoken effects)
      else (spoken effects ≡ spoken (tick lib sql true (pos t) session before).0) × Mem e rest.rows

  appended-Outcome :
      (env : Env) (seconds t session : ℕ) (events : ScheduledEvents)
      → IsValid events
      → ReadsBack lib (codes "seconds") seconds
      → Outcome env seconds t session (timer_event env seconds events) events (record {
        rows = events.rows ++ timer_event env seconds events ∷ [];
        seq = events.seq + 1;
      })
  unfolding Outcome lebℤ
  appended-Outcome env seconds t session events v reads =
      let e = timer_event env seconds events in
      let s : ScheduledEvents = record { rows = events.rows ++ e ∷ []; seq = events.seq + 1 } in
      let there : Mem e s.rows = mem-append_right events.rows mem-cons_self in
      elim (Bool-cases (leb (env.now_ms + seconds * 1000) t)) [
        | inl due ↦ rw due (
            subst (λ x. Mem x (spoken (tick lib sql true (pos t) session s).0))
              (timer_expiration_text-announcement lib seconds reads)
              (announced e (pos t) session s there refl due))
        | inr later ↦ rw later (
          unspoken e (pos t) session events s refl later,
          kept_waiting e (pos t) session s (IsValid-append e events.seq events.rows refl v) there
              later,
        )
      ]

  -- A timer from the request to the end: when the skill understood a duration that is not above twenty-four
  -- hours and the database answers, a tick at or after the end of the duration announces the end, with the number
  -- of seconds; a tick before it speaks just what it would speak without the request, and leaves the event of
  -- the timer in the table. The clock is far from the end of an `i64`, and the JSON object with the number of
  -- seconds, as its one field `seconds`, is read back.
  pub handle-tick :
      (env : Env) (ctx : SkillCtx) (locale : Text) (text : Text) (seconds : ℕ) (h : Host)
      (t session : ℕ)
      → IsValid h.events
      → ctx.name ≡ codes "timer"
      → env.up_events ≡ true
      → env.now_ms < 9223285636854775808
      → requested to_lowercase locale text ≡ some seconds
      → seconds ≤ max_seconds
      → ReadsBack lib (codes "seconds") seconds
      → let events = (handle to_lowercase env ctx locale (some text) h).1.events in
        let (effects, rest) = tick lib sql true (pos t) session events in
        if leb (env.now_ms + seconds * 1000) t
        then Mem (announcement seconds) (spoken effects)
        else (spoken effects ≡ spoken (tick lib sql true (pos t) session h.events).0)
          × Mem (timer_event env seconds h.events) rest.rows
  unfolding Outcome
  handle-tick env ctx locale text seconds h t session v name up small wish bound reads =
      subst (Outcome env seconds t session (timer_event env seconds h.events) h.events)
        (sym (handle-appended env ctx locale text seconds h name up small wish bound))
        (appended-Outcome env seconds t session h.events v reads)
