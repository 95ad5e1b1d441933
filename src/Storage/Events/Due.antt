-- ===== src/Storage/Events/Due.antt =====
-- Scheduled events fire exactly once, in order, and not early.
use mathlib.Core.Path.{subst}
use mathlib.Core.List.Perm
use athena_voice.Base.{
  ℕ, ◌≤◌, ◌≡◌, refl, sym, ap, ◌∙◌, inl, inr, Bool, true, false, not, ◌&&◌, ◌||◌, List, [], ◌∷◌,
  ◌++◌, any, All, ◌==◌, ==_refl, Bool-cases, ok, Perm, arith,
}
use athena_voice.Base.Ints.{ℤ, lebℤ}
use athena_voice.Base.Select.{
  select, select_take, select_skip, select-select, select_agree, any_of_Perm, All-select,
  select-Perm, select-All, All-Perm,
}
use athena_voice.Storage.Events.{
  ScheduledEvent, ScheduledEvents, SqlLib, InOrder, delete_row, delete_rows, is_due, due_rows,
  pop_due_events,
}

abbrev pub names : ℕ → ScheduledEvent → Bool
names id r = r.id == id

-- Whether one of a list of events has the key of a row.
abbrev taken : List ScheduledEvent → ScheduledEvent → Bool
taken es r = any (names r.id) es

-- No key twice, and none above the largest that was given.
abbrev pub DistinctIds : List ScheduledEvent → Type 0
DistinctIds [] = Unit
DistinctIds (r ∷ rs) = (any (names r.id) rs ≡ false) × DistinctIds rs

abbrev pub IsValid : ScheduledEvents → Type 0
IsValid s = DistinctIds s.rows × All (λ r. r.id ≤ s.seq) s.rows

==_sym : (a b : ℕ) → (a == b) ≡ (b == a)
==_sym a b = ground arith

de_morgan : (a b : Bool) → (not a && not b) ≡ not (a || b)
de_morgan true b = refl
de_morgan false b = refl

delete_rows-select :
    (es rows : List ScheduledEvent) → delete_rows es rows ≡ select (λ r. not (taken es r)) rows
unfolding delete_rows delete_row select
delete_rows-select [] rows = sym (select_all rows)
  where
    select_all : (rs : List ScheduledEvent) → select (λ r. true) rs ≡ rs
    select_all [] = refl
    select_all (r ∷ rs) = ap (λ l. r ∷ l) (select_all rs)
delete_rows-select (e ∷ es) rows =
    delete_rows-select es (delete_row e.id rows)
    ∙ select-select (λ r. not (taken es r)) (λ r. not (r.id == e.id)) rows
    ∙ select_agree _ _ rows (agree rows)
  where
    agree :
        (rs : List ScheduledEvent)
        → All (λ r. (not (r.id == e.id) && not (taken es r)) ≡ not (taken (e ∷ es) r)) rs
    agree [] = tt
    agree (r ∷ rs) = (each (==_sym r.id e.id), agree rs)
      where
        each :
            (r.id == e.id) ≡ (e.id == r.id)
            → (not (r.id == e.id) && not (taken es r)) ≡ not ((e.id == r.id) || taken es r)
        each h = rw h (de_morgan (e.id == r.id) (taken es r))

pub no_more : (a b c : Bool) → (a || b) ≡ false → c ≡ false → (a || c) ≡ false
no_more true b c h k = h
no_more false b c h k = k

-- A key that is in no row is in no selection of the rows.
any-select :
    (q p : ScheduledEvent → Bool) (rows : List ScheduledEvent)
    → any q rows ≡ false
    → any q (select p rows) ≡ false
unfolding select
any-select q p [] h = refl
any-select q p (r ∷ rs) h =
    let rest = any-select q p rs (ground arith) in
    elim (Bool-cases (p r)) [
      | inl hit ↦ rw hit (no_more (q r) (any q rs) (any q (select p rs)) h rest)
      | inr miss ↦ rw miss rest
    ]

-- An event with a key of its own takes no other row.
taken-cons :
    (p : ScheduledEvent → Bool) (e : ScheduledEvent) (es rows : List ScheduledEvent)
    → any (names e.id) rows ≡ false
    → All (λ r. taken es r ≡ p r) rows
    → All (λ r. taken (e ∷ es) r ≡ p r) rows
taken-cons p e es [] fresh h = tt
taken-cons p e es (r ∷ rs) fresh h =
    (other (==_sym r.id e.id) ∙ h.0, taken-cons p e es rs (ground arith) h.1)
  where
    other : (r.id == e.id) ≡ (e.id == r.id) → ((e.id == r.id) || taken es r) ≡ taken es r
    other k = no_less (r.id == e.id) (any (names e.id) rs) (e.id == r.id) (taken es r) fresh k
      where
        no_less : (a b c d : Bool) → (a || b) ≡ false → a ≡ c → (c || d) ≡ d
        no_less true b c d g k' = cc
        no_less false b true d g k' = cc
        no_less false b false d g k' = refl

-- With distinct keys, the rows that share a key with a selected row are the selected rows.
taken-select :
    (p : ScheduledEvent → Bool) (rows : List ScheduledEvent)
    → DistinctIds rows
    → All (λ r. taken (select p rows) r ≡ p r) rows
taken-select p [] d = tt
taken-select p (r ∷ rs) d =
    let rest = taken-select p rs d.1 in
    elim (Bool-cases (p r)) [
      | inl hit ↦
          agrees (select_take p r rs hit)
            (rw (==_refl r.id) (sym hit), taken-cons p r (select p rs) rs d.0 rest)
      | inr miss ↦
          agrees (select_skip p r rs miss) (any-select (names r.id) p rs d.0 ∙ sym miss, rest)
    ]
  where
    agrees :
        {es es' : List ScheduledEvent}
        → es ≡ es'
        → All (λ x. taken es' x ≡ p x) (r ∷ rs)
        → All (λ x. taken es x ≡ p x) (r ∷ rs)
    agrees e h = subst (λ l. All (λ x. taken l x ≡ p x) (r ∷ rs)) (sym e) h

pub DistinctIds-select :
    (p : ScheduledEvent → Bool) (rows : List ScheduledEvent)
    → DistinctIds rows
    → DistinctIds (select p rows)
unfolding select
DistinctIds-select p [] d = tt
DistinctIds-select p (r ∷ rs) d =
    let rest = DistinctIds-select p rs d.1 in
    elim (Bool-cases (p r)) [
      | inl hit ↦ rw hit (any-select (names r.id) p rs d.0, rest)
      | inr miss ↦ rw miss rest
    ]

pub IsValid-select :
    (p : ScheduledEvent → Bool) (s : ScheduledEvents)
    → IsValid s
    → IsValid (record { rows = select p s.rows; seq = s.seq })
IsValid-select p s (d, h) =
    (DistinctIds-select p s.rows d, All-select (λ r. r.id ≤ s.seq) p s.rows h)

module _ (sql : SqlLib) where
  -- What is left after the due events were deleted one by one.
  pub delete_rows-due :
      (now_ms : ℤ) (s : ScheduledEvents)
      → DistinctIds s.rows
      → delete_rows (due_rows sql now_ms s) s.rows ≡ select (λ r. not (is_due now_ms r)) s.rows
  delete_rows-due now_ms s d =
      delete_rows-select (due_rows sql now_ms s) s.rows
      ∙ select_agree _ _ s.rows (agree s.rows (taken-select (is_due now_ms) s.rows d))
    where
      agree :
          (rs : List ScheduledEvent)
          → All (λ r. taken (select (is_due now_ms) s.rows) r ≡ is_due now_ms r) rs
          → All (λ r. not (taken (due_rows sql now_ms s) r) ≡ not (is_due now_ms r)) rs
      agree [] h = tt
      agree (r ∷ rs) h = (
        ap not (any_of_Perm (names r.id) (sql.order_by-Perm (select (is_due now_ms) s.rows)) ∙ h.0),
        agree rs h.1,
      )

  -- Of a valid table, a pop at a time gives the events that are due then, the earliest first, each of them
  -- once and with no other, and leaves the events that are not due.
  pub pop_due_events_exact :
      (now_ms : ℤ) (s : ScheduledEvents)
      → IsValid s
      → (fired : List ScheduledEvent) × (rest : List ScheduledEvent) × ((pop_due_events sql true
              now_ms s
            ≡ (ok fired, record { rows = rest; seq = s.seq }))
          × (InOrder fired
              × (Perm (fired ++ rest) s.rows
                  × (All (λ e. lebℤ e.fires_at_ms now_ms ≡ true) fired
                      × All (λ e. lebℤ e.fires_at_ms now_ms ≡ false) rest))))
  unfolding pop_due_events
  pop_due_events_exact now_ms s (d, h) =
      let due = select (is_due now_ms) s.rows in
      let kept = select (λ r. not (is_due now_ms r)) s.rows in
      let fired = due_rows sql now_ms s in
      let share = Perm.append_right kept (sql.order_by-Perm due) in
      (
        fired,
        kept,
        (
          rw (delete_rows-due now_ms s d) refl,
          (
            sql.order_by-InOrder due,
            (
              Perm.trans share (select-Perm (is_due now_ms) s.rows),
              (
                All-Perm (λ e. lebℤ e.fires_at_ms now_ms) (Perm.symm (sql.order_by-Perm due))
                    (select-All (is_due now_ms) s.rows),
                negated kept (select-All (λ r. not (is_due now_ms r)) s.rows),
              ),
            ),
          ),
        ),
      )
    where
      negated :
          (rs : List ScheduledEvent)
          → All (λ r. not (is_due now_ms r) ≡ true) rs
          → All (λ e. lebℤ e.fires_at_ms now_ms ≡ false) rs
      negated [] k = tt
      negated (r ∷ rs) k = (ground arith, negated rs k.1)
