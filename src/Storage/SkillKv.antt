-- ===== src/Storage/SkillKv.antt =====
-- The key-value table of the skills, `skill_kv`, in crates/athena-voice-storage/src/sqlite.rs: its primary key is
-- the pair of the skill and the key. `up` is whether the database answers, `timestamp_sec` its clock.
use athena_voice.Base.{
  ℕ, ◌-◌, Bool, not, ◌&&◌, Option, none, some, List, ltb, if◌then◌else◌, Result, ok, err,
}
use athena_voice.Base.Dict.{lookup, insert}
use athena_voice.Base.Ints.{ℤ, pos, negsuc, lebℤ}
use athena_voice.Base.Select.{select}
use athena_voice.Text.{Text, text_eq}
use athena_voice.Storage.Tmp.{Key, keys}
use athena_voice.Storage.Events.{StoreError, db}

-- The rows: the time of the last write, and the value.
abbrev pub SkillKv : Type 0
SkillKv = List (Key × (ℤ × List ℕ))

abbrev pub value_of : Option (ℤ × List ℕ) → Option (List ℕ)
value_of none = none
value_of (some (t, v)) = some v

unfoldable pub skill_kv_get : Bool → Text → Text → SkillKv → Result (Option (List ℕ)) StoreError
skill_kv_get up skill key kv = if up then ok (value_of (lookup keys (skill, key) kv)) else err db

unfoldable pub skill_kv_set :
    Bool → ℤ → Text → Text → List ℕ → SkillKv → Result (Unit {0}) StoreError × SkillKv
skill_kv_set up timestamp_sec skill key value kv =
    if up then (ok tt, insert keys (skill, key) (timestamp_sec, value) kv) else (err db, kv)

-- `as i64` of a `u64`
unfoldable pub as_i64 : ℕ → ℤ
as_i64 n = if ltb n 9223372036854775808 then pos n else negsuc (18446744073709551615 - n)

-- `WHERE skill = ?1 AND timestamp_sec <= ?2`
unfoldable pub expired : Text → ℕ → Key × (ℤ × List ℕ) → Bool
unfolding as_i64
expired skill now_sec ((s, k), (t, v)) = text_eq s skill && lebℤ t (as_i64 now_sec)

unfoldable pub skill_kv_gc : Bool → Text → ℕ → SkillKv → Result (Unit {0}) StoreError × SkillKv
unfolding expired
skill_kv_gc up skill now_sec kv =
    if up then (ok tt, select (λ e. not (expired skill now_sec e)) kv) else (err db, kv)
