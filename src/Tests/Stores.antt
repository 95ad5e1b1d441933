-- ===== src/Tests/Stores.antt =====
-- The session manager and the stores at concrete histories.
use athena_voice.Base.{
  ◌-◌, ◌%◌, ◌+◌, ◌≡◌, ◌↔◌, ◌⊎◌, ◌++◌, refl, true, Bool, false, if◌then◌else◌, leb, some, none, List,
  [], ◌∷◌, arith,
}
use athena_voice.Text.{Text, codes, starts_with, text_eq}
use athena_voice.Core.Ids.{SatelliteId, Locale}
use athena_voice.Sessions.Manager.{SessionManager, get, reap_idle}
use athena_voice.Sessions.Manager.Laws.{
  kept, is_stale, cancel_each, stale_tokens, member, reap_idle_exact,
}
use athena_voice.Sessions.Manager.Histories.{
  ManagerOp, opens, touches, run_ops as run_manager, run_ops-Distinct,
}
use athena_voice.Storage.Tmp.{same_key, MemoryTmpStore, u64, tmp_get, tmp_set}
use athena_voice.Storage.Tmp.Expiry.{TmpOp, sets, gets, gcs, run_ops, AllLeave, tmp_get-tmp_set}
use athena_voice.Wasm.Acl.{mqtt_topic_prefix, mqtt_topic_allowed, mqtt_publish_allowed}
use athena_voice.Wasm.Acl.Isolation.{SomeMatches, namespaces_apart, mqtt_publish_allowed_iff}

abbrev phone : SatelliteId
phone = record { as_str = codes "phone" }

abbrev fr : Locale
fr = record { as_str = codes "fr" }

abbrev day : List (ManagerOp Bool)
day =
    opens 7 phone fr true false 1000
    ∷ opens 8 phone fr true true 2000
    ∷ touches 7 400000
    ∷ opens 7 phone fr true true 3000
    ∷ []

abbrev empty_manager : SessionManager Bool
empty_manager = record { map = []; next_token = 0; cancelled = [] }

reap_idle_exact_example :
    let m = run_manager day empty_manager in
    let cutoff = 450000 - 300000 % 18446744073709551616 in
    (get 8 (reap_idle 300000 450000 m).0 ≡ kept cutoff (get 8 m))
    × ((member 8 (reap_idle 300000 450000 m).1 ≡ is_stale cutoff (get 8 m))
        × ((reap_idle 300000 450000 m).0.cancelled
            ≡ cancel_each (stale_tokens cutoff m.map) m.cancelled))
reap_idle_exact_example =
    reap_idle_exact 300000 450000 8 (run_manager day empty_manager)
      (run_ops-Distinct day empty_manager tt)

abbrev empty_store : MemoryTmpStore
empty_store = record { store = [] }

abbrev other_uses : List TmpOp
other_uses =
    sets (codes "home") (codes "k") (9 ∷ []) 5 101
    ∷ gets (codes "timer") (codes "k") 150
    ∷ gcs 155
    ∷ []

apart : same_key (codes "timer", codes "k") (codes "home", codes "k") ≡ false
unfolding text_eq
apart = refl

leaves : AllLeave (codes "timer", codes "k") 159 other_uses
leaves = (apart, (ground arith, (ground arith, tt)))

tmp_get-tmp_set_example :
    (tmp_get
      (codes "timer")
      (codes "k")
      159
      (run_ops other_uses (tmp_set (codes "timer") (codes "k") (4 ∷ []) 60 100 empty_store))).1
    ≡ (if leb (u64 (100 + 60)) 159 then none else some (4 ∷ []))
tmp_get-tmp_set_example =
    tmp_get-tmp_set (codes "timer") (codes "k") (4 ∷ []) 60 100 159 other_uses empty_store tt leaves

abbrev timer_topic : Text
timer_topic = codes "athena/skills/timer/rings"

owned : mqtt_topic_allowed (codes "timer") timer_topic ≡ true
unfolding mqtt_topic_allowed mqtt_topic_prefix starts_with
owned = refl

namespaces_apart_example : codes "timer" ≡ codes "timer"
namespaces_apart_example =
    namespaces_apart (codes "timer") (codes "timer") timer_topic refl refl owned owned

mqtt_publish_allowed_iff_example :
    (mqtt_publish_allowed (codes "timer") timer_topic (codes "home/#" ∷ []) ≡ true) ↔ (
      ((rest : Text) × (timer_topic ≡ mqtt_topic_prefix (codes "timer") ++ rest))
      ⊎ SomeMatches (codes "home/#" ∷ []) timer_topic)
mqtt_publish_allowed_iff_example =
    mqtt_publish_allowed_iff (codes "timer") timer_topic (codes "home/#" ∷ [])
