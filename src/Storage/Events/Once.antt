-- ===== src/Storage/Events/Once.antt =====
-- Over a history of uses of the table, every event that was scheduled is fired once, or was deleted, or waits.
use mathlib.Core.Path.{subst}
use mathlib.Core.List.Perm
use athena_voice.Base.{
  ℕ, ◌+◌, ◌≡◌, refl, sym, ap, ◌∙◌, Bool, true, false, not, ◌||◌, List, [], ◌∷◌, ◌++◌, append-nil,
  append_assoc, any, ◌==◌, Result, ok, err, Perm, perm_middle, arith,
}
use athena_voice.Base.Ints.{ℤ}
use athena_voice.Base.Select.{select, select-Perm}
use athena_voice.Text.{Text}
use athena_voice.Storage.Events.{
  ScheduledEvent, ScheduledEvents, StoreError, SqlLib, schedule_event, delete_row, is_due,
  delete_scheduled, due_rows, pop_due_events,
}
use athena_voice.Storage.Events.Due.{names, DistinctIds, IsValid, IsValid-select, delete_rows-due}

pub data EventOp : Type 0 where
  schedules : Bool → ℤ → Text → ℤ → Text → List ℕ → EventOp
  pops : Bool → ℤ → EventOp
  deletes : Bool → ℕ → EventOp

-- The table, and what its users know: the events that they scheduled, with the ids that they were given, the
-- events that the pops gave, and the rows that were deleted.
pub record History : Type 0 where
  pub table : ScheduledEvents
  pub scheduled : List ScheduledEvent
  pub fired : List ScheduledEvent
  pub deleted : List ScheduledEvent

abbrev pub given : Result ℕ StoreError → (ℕ → ScheduledEvent) → List ScheduledEvent
given (ok id) e = e id ∷ []
given (err x) e = []

abbrev pub popped : Result (List ScheduledEvent) StoreError → List ScheduledEvent
popped (ok es) = es
popped (err x) = []

abbrev pub removed : Result Bool StoreError → List ScheduledEvent → List ScheduledEvent
removed (ok b) rs = rs
removed (err x) rs = []

abbrev pub event_of : ℤ → Text → ℤ → Text → List ℕ → ℕ → ScheduledEvent
event_of created_at_ms skill fires_at_ms topic payload id = record {
  id = id;
  skill = skill;
  fires_at_ms = fires_at_ms;
  mqtt_topic = topic;
  payload = payload;
  created_at_ms = created_at_ms;
}

abbrev pub start : History
start = record { table = record { rows = []; seq = 0 }; scheduled = []; fired = []; deleted = [] }

any-append :
    (p : ScheduledEvent → Bool) (xs ys : List ScheduledEvent)
    → any p (xs ++ ys) ≡ (any p xs || any p ys)
any-append p [] ys = refl
any-append p (x ∷ xs) ys = rw (any-append p xs ys) (assoc (p x) (any p xs) (any p ys))
  where
    assoc : (a b c : Bool) → (a || (b || c)) ≡ ((a || b) || c)
    assoc true b c = refl
    assoc false b c = refl

-- A row with the next key keeps the table valid.
pub IsValid-append :
    (e : ScheduledEvent) (n : ℕ) (rs : List ScheduledEvent)
    → e.id ≡ n + 1
    → IsValid (record { rows = rs; seq = n })
    → IsValid (record { rows = rs ++ e ∷ []; seq = n + 1 })
IsValid-append e n [] h v = ((refl, tt), (omega (arith, h), tt))
IsValid-append e n (r ∷ rs) h ((fresh, d), (le, ls)) =
    let (d', ls') = IsValid-append e n rs h (d, ls) in
    let other : (e.id == r.id) ≡ false = ground (arith, h, le) in
    ((any-append (names r.id) rs (e ∷ []) ∙ rw (fresh, other) refl, d'), (omega (arith, le), ls'))

append_exchange : (xs ys zs : List ScheduledEvent) → Perm (xs ++ (ys ++ zs)) (ys ++ (xs ++ zs))
append_exchange [] ys zs = Perm.rfl
append_exchange (x ∷ xs) ys zs =
    Perm.trans (Perm.cons x (append_exchange xs ys zs)) (Perm.symm (perm_middle ys (xs ++ zs)))

-- Events that move from the table to those that have fired.
moved_fired :
    (fired deleted due kept : List ScheduledEvent)
    → Perm ((fired ++ due) ++ (deleted ++ kept)) (fired ++ (deleted ++ (due ++ kept)))
moved_fired fired deleted due kept =
    rw (append_assoc fired due (deleted ++ kept))
      (Perm.append_left fired (append_exchange due deleted kept))

module _ (sql : SqlLib) where
  apply : EventOp → History → History
  apply (schedules up created skill at topic payload) h =
      let (r, s) = schedule_event up created skill at topic payload h.table in
      record {
        table = s;
        scheduled = h.scheduled ++ given r (event_of created skill at topic payload);
        fired = h.fired;
        deleted = h.deleted;
      }
  apply (pops up now_ms) h =
      let (r, s) = pop_due_events sql up now_ms h.table in
      record {
        table = s;
        scheduled = h.scheduled;
        fired = h.fired ++ popped r;
        deleted = h.deleted;
      }
  apply (deletes up id) h =
      let (r, s) = delete_scheduled up id h.table in
      record {
        table = s;
        scheduled = h.scheduled;
        fired = h.fired;
        deleted = h.deleted ++ removed r (select (names id) h.table.rows);
      }

  pub run_ops : List EventOp → History → History
  unfolding apply
  run_ops [] h = h
  run_ops (op ∷ ops) h = run_ops ops (apply op h)

  -- The table is valid, the events that were scheduled have ids of their own, none above the largest, and
  -- what has fired, was deleted and waits is what was scheduled.
  IsSound : History → Type 0
  IsSound h =
      IsValid h.table
      × (IsValid (record { rows = h.scheduled; seq = h.table.seq })
          × Perm (h.fired ++ (h.deleted ++ h.table.rows)) h.scheduled)

  apply-IsSound : (op : EventOp) (h : History) → IsSound h → IsSound (apply op h)
  unfolding IsSound apply schedule_event pop_due_events delete_scheduled delete_row
  apply-IsSound (schedules false created skill at topic payload) h (v, (w, p)) =
      (v, (rw (append-nil h.scheduled) w, rw (append-nil h.scheduled) p))
  apply-IsSound (schedules true created skill at topic payload) h (v, (w, p)) =
      let e = event_of created skill at topic payload (h.table.seq + 1) in
      (
        IsValid-append e h.table.seq h.table.rows refl v,
        (
          IsValid-append e h.table.seq h.scheduled refl w,
          subst (λ l. Perm l (h.scheduled ++ e ∷ []))
              (append_assoc h.fired (h.deleted ++ h.table.rows) (e ∷ [])
                ∙ ap (λ l. h.fired ++ l) (append_assoc h.deleted h.table.rows (e ∷ [])))
              (Perm.append_right (e ∷ []) p),
        ),
      )
  apply-IsSound (pops false now_ms) h (v, (w, p)) = (v, (w, rw (append-nil h.fired) p))
  apply-IsSound (pops true now_ms) h (v, (w, p)) =
      let due = due_rows sql now_ms h.table in
      let kept = select (λ r. not (is_due now_ms r)) h.table.rows in
      rw (delete_rows-due sql now_ms h.table v.0) (
        IsValid-select (λ r. not (is_due now_ms r)) h.table v,
        (
          w,
          Perm.trans (moved_fired h.fired h.deleted due kept) (
              Perm.trans
                (Perm.append_left h.fired (
                  Perm.append_left h.deleted (
                    Perm.trans (Perm.append_right kept (sql.order_by-Perm _))
                      (select-Perm (is_due now_ms) h.table.rows))))
                p),
        ),
      )
  apply-IsSound (deletes false id) h (v, (w, p)) = (v, (w, rw (append-nil h.deleted) p))
  apply-IsSound (deletes true id) h (v, (w, p)) =
      let gone = select (names id) h.table.rows in
      let kept = select (λ r. not (r.id == id)) h.table.rows in
      (
        IsValid-select (λ r. not (r.id == id)) h.table v,
        (
          w,
          Perm.trans
              (subst (λ l. Perm (h.fired ++ l) (h.fired ++ (h.deleted ++ (gone ++ kept))))
                (sym (append_assoc h.deleted gone kept)) Perm.rfl)
              (Perm.trans
                (Perm.append_left h.fired
                  (Perm.append_left h.deleted (select-Perm (names id) h.table.rows)))
                p),
        ),
      )

  run_ops-IsSound : (ops : List EventOp) (h : History) → IsSound h → IsSound (run_ops ops h)
  unfolding run_ops
  run_ops-IsSound [] h k = k
  run_ops-IsSound (op ∷ ops) h k = run_ops-IsSound ops (apply op h) (apply-IsSound op h k)

  -- From an empty table, over every history of schedulings, pops and deletions, of which the database may fail
  -- any, no id is given twice, and the events that have fired, those that were deleted, and those that wait
  -- are together the events that were scheduled, each exactly once.
  pub run_ops-once :
      (ops : List EventOp)
      → DistinctIds (run_ops ops start).scheduled
        × Perm
            ((run_ops ops start).fired
              ++ ((run_ops ops start).deleted ++ (run_ops ops start).table.rows))
            (run_ops ops start).scheduled
  unfolding IsSound
  run_ops-once ops =
      let (v, (w, p)) = run_ops-IsSound ops start ((tt, tt), ((tt, tt), Perm.rfl)) in (w.0, p)
