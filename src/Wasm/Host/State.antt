-- ===== src/Wasm/Host/State.antt =====
-- The state of a skill is its own; a temporary value is not.
use athena_voice.Base.{
  ℕ, ◌+◌, ◌-◌, ◌≡◌, refl, ap, ◌∙◌, inl, inr, Bool, true, false, not, ◌&&◌, Option, none, some, List,
  [], leb, if◌then◌else◌, Bool-cases,
}
use athena_voice.Base.Dict.{lookup, insert, Distinct, lookup-insert, insert-Distinct, filtered}
use athena_voice.Base.Table.{lookup-select}
use athena_voice.Base.Ints.{ℤ, lebℤ}
use athena_voice.Text.{Text, text_eq}
use athena_voice.Text.Split.{text_eq_refl}
use athena_voice.Storage.SkillKv.{
  SkillKv, value_of, skill_kv_get, skill_kv_set, skill_kv_gc, as_i64, expired,
}
use athena_voice.Storage.Tmp.{same_key_refl, keys, u64}
use athena_voice.Storage.Tmp.Expiry.{run_ops, tmp_get-tmp_set}
use athena_voice.Wasm.Host.{
  SkillCtx, Host, or_default, host_state_get, host_state_set, then_gc, gc_after, host_tmp_set,
  host_tmp_get,
}

-- Whether the retention of a skill has run out for a row that was written at a time.
abbrev pub lapsed : SkillCtx → ℤ → ℕ → Bool
lapsed ctx timestamp_sec now_sec = elim ctx.retention_gc_after_sec [
  | none ↦ false
  | some ttl ↦ lebℤ timestamp_sec (as_i64 (now_sec - ttl))
]

abbrev entry : Text → Text → SkillKv → Option (ℤ × List ℕ)
entry skill key kv = lookup keys (skill, key) kv

skill_kv_gc-entry :
    (up : Bool) (skill other key : Text) (now_sec : ℕ) (kv : SkillKv)
    → Distinct keys kv
    → entry other key (skill_kv_gc up skill now_sec kv).1 ≡ (
        if up
        then filtered
            (λ v. not (text_eq other skill && lebℤ v.0 (as_i64 now_sec)))
            (entry other key kv)
        else entry other key kv)
unfolding skill_kv_gc expired
skill_kv_gc-entry false skill other key now_sec kv d = refl
skill_kv_gc-entry true skill other key now_sec kv d =
    lookup-select keys (λ e. not (expired skill now_sec e)) (other, key) kv d

filtered-keeps :
    {V : Type 0} (p : V → Bool) (o : Option V) → ((v : V) → p v ≡ true) → filtered p o ≡ o
filtered-keeps p none h = refl
filtered-keeps p (some v) h = rw (h v) refl

-- A clean-up for one skill leaves the rows of another.
gc_after-other :
    (up : Bool) (now_sec : ℕ) (ctx : SkillCtx) (r : Option ℕ) (other key : Text) (kv : SkillKv)
    → Distinct keys kv
    → text_eq other ctx.name ≡ false
    → entry other key (gc_after up now_sec ctx r kv).1 ≡ entry other key kv
unfolding gc_after
gc_after-other up now_sec ctx none other key kv d apart = refl
gc_after-other up now_sec ctx (some ttl) other key kv d apart =
    skill_kv_gc-entry up ctx.name other key (now_sec - ttl) kv d ∙ (elim (Bool-cases up) [
      | inr down ↦ rw down refl
      | inl answers ↦ rw answers (
          filtered-keeps (λ v. not (text_eq other ctx.name && lebℤ v.0 (as_i64 (now_sec - ttl))))
            (entry other key kv)
            (λ v. ap (λ b. not (b && lebℤ v.0 (as_i64 (now_sec - ttl)))) apart))
    ])

-- A skill cannot change what another skill reads from its state: whatever it sets, whether the database answers
-- or fails in the middle, and whatever its retention clears away.
pub host_state_set-other :
    (up up_gc : Bool) (timestamp_sec : ℤ) (now_sec : ℕ) (ctx other : SkillCtx) (key key' : Text)
    (val : List ℕ) (h : Host)
    → Distinct keys h.kv
    → text_eq other.name ctx.name ≡ false
    → host_state_get true other key' (host_state_set up up_gc timestamp_sec now_sec ctx key val h).1
      ≡ host_state_get true other key' h
unfolding host_state_get skill_kv_get host_state_set skill_kv_set then_gc
host_state_set-other false up_gc timestamp_sec now_sec ctx other key key' val h d apart = refl
host_state_set-other true up_gc timestamp_sec now_sec ctx other key key' val h d apart =
    let written = insert keys (ctx.name, key) (timestamp_sec, val) h.kv in
    let untouched : entry other.name key' written ≡ entry other.name key' h.kv =
      lookup-insert keys (other.name, key') (ctx.name, key) (timestamp_sec, val) h.kv
      ∙ rw apart refl in
    ap (λ o. some (or_default (value_of o)))
      (gc_after-other up_gc now_sec ctx ctx.retention_gc_after_sec other.name key' written
          (insert-Distinct keys (ctx.name, key) (timestamp_sec, val) h.kv d) apart
        ∙ untouched)

gc_after-own :
    (up : Bool) (now_sec : ℕ) (ctx : SkillCtx) (r : Option ℕ) (key : Text) (t : ℤ) (val : List ℕ)
    (kv : SkillKv)
    → Distinct keys kv
    → entry ctx.name key kv ≡ some (t, val)
    → or_default (value_of (entry ctx.name key (gc_after up now_sec ctx r kv).1)) ≡ (
        if up && (elim r [ none ↦ false | some ttl ↦ lebℤ t (as_i64 (now_sec - ttl)) ])
        then []
        else val)
unfolding gc_after
gc_after-own up now_sec ctx none key t val kv d here =
    ap (λ o. or_default (value_of o)) here ∙ never up
  where
    never : (b : Bool) → val ≡ (if b && false then [] else val)
    never true = refl
    never false = refl
gc_after-own up now_sec ctx (some ttl) key t val kv d here =
    ap (λ o. or_default (value_of o))
      (skill_kv_gc-entry up ctx.name ctx.name key (now_sec - ttl) kv d)
    ∙ (elim (Bool-cases up) [
      | inr down ↦ rw (down, here) refl
      | inl answers ↦
          rw (answers, here, text_eq_refl ctx.name)
            (elim (Bool-cases (lebℤ t (as_i64 (now_sec - ttl)))) [
              | inl over ↦ rw over refl
              | inr alive ↦ rw alive refl
            ])
    ])

-- A skill reads back what it set, unless its own retention has cleared it in the same call: that is so if the
-- time of writing is not after the current time less the retention, as with a retention of no seconds. A
-- key that is cleared reads as the empty value.
pub host_state_get-host_state_set :
    (up_gc : Bool) (timestamp_sec : ℤ) (now_sec : ℕ) (ctx : SkillCtx) (key : Text) (val : List ℕ)
    (h : Host)
    → Distinct keys h.kv
    → host_state_get true ctx key (host_state_set true up_gc timestamp_sec now_sec ctx key val h).1
      ≡ some (if up_gc && lapsed ctx timestamp_sec now_sec then [] else val)
unfolding host_state_get skill_kv_get host_state_set skill_kv_set then_gc
host_state_get-host_state_set up_gc timestamp_sec now_sec ctx key val h d =
    let written = insert keys (ctx.name, key) (timestamp_sec, val) h.kv in
    ap some (
      gc_after-own up_gc now_sec ctx ctx.retention_gc_after_sec key timestamp_sec val written
        (insert-Distinct keys (ctx.name, key) (timestamp_sec, val) h.kv d)
        (lookup-insert keys (ctx.name, key) (ctx.name, key) (timestamp_sec, val) h.kv
          ∙ rw (same_key_refl (ctx.name, key)) refl))

-- A temporary value has no such protection: the skill's name is the caller's word, so what is set under a name
-- is read by every skill that gives the same name, until it expires.
pub host_tmp_get-host_tmp_set :
    (ctx other : SkillCtx) (start now expires_sec : ℕ) (skill key : Text) (val : List ℕ) (h : Host)
    → Distinct keys h.tmp.store
    → (host_tmp_get other now skill key (host_tmp_set ctx start skill key val expires_sec h)).0
      ≡ (if leb (u64 (start + expires_sec)) now then [] else val)
unfolding host_tmp_get host_tmp_set run_ops
host_tmp_get-host_tmp_set ctx other start now expires_sec skill key val h d =
    ap or_default (tmp_get-tmp_set skill key val expires_sec start now [] h.tmp d tt)
    ∙ (elim (Bool-cases (leb (u64 (start + expires_sec)) now)) [
      | inl over ↦ rw over refl
      | inr alive ↦ rw alive refl
    ])
