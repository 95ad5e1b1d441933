-- ===== src/Storage/Events.antt =====
-- The scheduled events of crates/athena-voice-storage/src/sqlite.rs: the table `scheduled_events`, of which
-- the key is declared AUTOINCREMENT, and the statements on it. `up` is whether the database answers; a
-- transaction that fails changes nothing. The order that `ORDER BY` gives to rows of one time is not
-- documented, so the ordering is a parameter.
pub mod Due
pub mod Once
use athena_voice.Base.{
  ℕ, ◌+◌, ◌≡◌, Bool, true, false, not, Option, none, some, List, [], ◌∷◌, ◌++◌, any, ◌==◌,
  if◌then◌else◌, Result, ok, err, Perm,
}
use athena_voice.Base.Ints.{ℤ, lebℤ}
use athena_voice.Base.Select.{select}
use athena_voice.Text.{Text}

pub record ScheduledEvent : Type 0 where
  pub id : ℕ
  pub skill : Text
  pub fires_at_ms : ℤ
  pub mqtt_topic : Text
  pub payload : List ℕ
  pub created_at_ms : ℤ

-- `seq` is the largest key that was ever given.
pub record ScheduledEvents : Type 0 where
  pub rows : List ScheduledEvent
  pub seq : ℕ

pub data StoreError : Type 0 where
  db : StoreError

-- A list in which no event is later than one behind it.
abbrev pub NoneEarlier : ScheduledEvent → List ScheduledEvent → Type 0
NoneEarlier e [] = Unit
NoneEarlier e (d ∷ ds) = (lebℤ e.fires_at_ms d.fires_at_ms ≡ true) × NoneEarlier e ds

abbrev pub InOrder : List ScheduledEvent → Type 0
InOrder [] = Unit
InOrder (e ∷ es) = NoneEarlier e es × InOrder es

-- `ORDER BY fires_at_ms ASC`
pub record SqlLib : Type 0 where
  pub order_by : List ScheduledEvent → List ScheduledEvent
  pub order_by-Perm : (rows : List ScheduledEvent) → Perm (order_by rows) rows
  pub order_by-InOrder : (rows : List ScheduledEvent) → InOrder (order_by rows)

unfoldable pub schedule_event :
    Bool → ℤ → Text → ℤ → Text → List ℕ → ScheduledEvents → Result ℕ StoreError × ScheduledEvents
schedule_event up created_at_ms skill fires_at_ms topic payload s =
    if up
    then (
      ok (s.seq + 1),
      record {
        rows =
            s.rows
            ++ record {
              id = s.seq + 1;
              skill = skill;
              fires_at_ms = fires_at_ms;
              mqtt_topic = topic;
              payload = payload;
              created_at_ms = created_at_ms;
            }
              ∷ [];
        seq = s.seq + 1;
      },
    )
    else (err db, s)

-- `DELETE FROM scheduled_events WHERE id = ?1`
unfoldable pub delete_row : ℕ → List ScheduledEvent → List ScheduledEvent
delete_row id rows = select (λ r. not (r.id == id)) rows

-- The loop of `pop_due_events` over the rows that it read.
unfoldable pub delete_rows : List ScheduledEvent → List ScheduledEvent → List ScheduledEvent
delete_rows [] rows = rows
delete_rows (e ∷ es) rows = delete_rows es (delete_row e.id rows)

-- `WHERE fires_at_ms <= ?1`
abbrev pub is_due : ℤ → ScheduledEvent → Bool
is_due now_ms e = lebℤ e.fires_at_ms now_ms

unfoldable pub delete_scheduled :
    Bool → ℕ → ScheduledEvents → Result Bool StoreError × ScheduledEvents
delete_scheduled up id s =
    if up
    then (ok (any (λ r. r.id == id) s.rows), record { rows = delete_row id s.rows; seq = s.seq })
    else (err db, s)

module _ (sql : SqlLib) where
  open sql use {order_by}

  abbrev pub due_rows : ℤ → ScheduledEvents → List ScheduledEvent
  due_rows now_ms s = order_by (select (is_due now_ms) s.rows)

  unfoldable pub pop_due_events :
      Bool → ℤ → ScheduledEvents → Result (List ScheduledEvent) StoreError × ScheduledEvents
  pop_due_events up now_ms s =
      if up
      then (
        ok (due_rows now_ms s),
        record { rows = delete_rows (due_rows now_ms s) s.rows; seq = s.seq },
      )
      else (err db, s)
