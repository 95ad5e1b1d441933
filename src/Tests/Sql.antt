-- ===== src/Tests/Sql.antt =====
-- An `ORDER BY` that sorts by insertion, as an instance of the parameter.
use mathlib.Core.List.Perm
use athena_voice.Base.{◌≡◌, true, List, [], ◌∷◌, if◌then◌else◌, Bool-cases, inl, inr, Perm}
use athena_voice.Base.Ints.{lebℤ, lebℤ_trans, lebℤ_total}
use athena_voice.Storage.Events.{ScheduledEvent, NoneEarlier, InOrder, SqlLib}

abbrev pub ordered_insert : ScheduledEvent → List ScheduledEvent → List ScheduledEvent
ordered_insert e [] = e ∷ []
ordered_insert e (d ∷ ds) =
    let rest = ordered_insert e ds in
    if lebℤ e.fires_at_ms d.fires_at_ms then e ∷ d ∷ ds else d ∷ rest

abbrev pub sort : List ScheduledEvent → List ScheduledEvent
sort [] = []
sort (e ∷ es) = ordered_insert e (sort es)

ordered_insert-Perm :
    (e : ScheduledEvent) (ds : List ScheduledEvent) → Perm (ordered_insert e ds) (e ∷ ds)
ordered_insert-Perm e [] = Perm.rfl
ordered_insert-Perm e (d ∷ ds) = elim (Bool-cases (lebℤ e.fires_at_ms d.fires_at_ms)) [
  | inl first ↦ rw first Perm.rfl
  | inr later ↦ rw later (Perm.trans (Perm.cons d (ordered_insert-Perm e ds)) (Perm.swap e d ds))
]

pub sort-Perm : (es : List ScheduledEvent) → Perm (sort es) es
sort-Perm [] = Perm.rfl
sort-Perm (e ∷ es) = Perm.trans (ordered_insert-Perm e (sort es)) (Perm.cons e (sort-Perm es))

NoneEarlier-trans :
    (e d : ScheduledEvent) (ds : List ScheduledEvent)
    → lebℤ e.fires_at_ms d.fires_at_ms ≡ true
    → NoneEarlier d ds
    → NoneEarlier e ds
NoneEarlier-trans e d [] h n = tt
NoneEarlier-trans e d (c ∷ cs) h n =
    (lebℤ_trans e.fires_at_ms d.fires_at_ms c.fires_at_ms h n.0, NoneEarlier-trans e d cs h n.1)

NoneEarlier-ordered_insert :
    (d e : ScheduledEvent) (ds : List ScheduledEvent)
    → lebℤ d.fires_at_ms e.fires_at_ms ≡ true
    → NoneEarlier d ds
    → NoneEarlier d (ordered_insert e ds)
NoneEarlier-ordered_insert d e [] h n = (h, tt)
NoneEarlier-ordered_insert d e (c ∷ cs) h n = elim (Bool-cases (lebℤ e.fires_at_ms c.fires_at_ms)) [
  | inl first ↦ rw first (h, n)
  | inr later ↦ rw later (n.0, NoneEarlier-ordered_insert d e cs h n.1)
]

ordered_insert-InOrder :
    (e : ScheduledEvent) (ds : List ScheduledEvent) → InOrder ds → InOrder (ordered_insert e ds)
ordered_insert-InOrder e [] o = (tt, tt)
ordered_insert-InOrder e (d ∷ ds) o = elim (Bool-cases (lebℤ e.fires_at_ms d.fires_at_ms)) [
  | inl first ↦ rw first ((first, NoneEarlier-trans e d ds first o.0), o)
  | inr later ↦ rw later (
    NoneEarlier-ordered_insert d e ds (lebℤ_total e.fires_at_ms d.fires_at_ms later) o.0,
    ordered_insert-InOrder e ds o.1,
  )
]

pub sort-InOrder : (es : List ScheduledEvent) → InOrder (sort es)
sort-InOrder [] = tt
sort-InOrder (e ∷ es) = ordered_insert-InOrder e (sort es) (sort-InOrder es)

abbrev pub sorting : SqlLib
sorting = record { order_by = sort; order_by-Perm = sort-Perm; order_by-InOrder = sort-InOrder }
