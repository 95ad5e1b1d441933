-- ===== src/Storage/Tmp.antt =====
-- The temporary store of crates/athena-voice-storage/src/tmp/mod.rs.
-- A key is the pair of the skill and the skill's key; `now` is the clock in seconds. No operation fails.
pub mod Expiry
use athena_voice.Base.{
  ℕ, ◌+◌, ◌%◌, ◌≡◌, Bool, true, false, ◌&&◌, Option, none, some, List, [], ◌∷◌, ltb, leb,
  if◌then◌else◌, arith, &&-true, refl, ap, ◌∙◌,
}
use athena_voice.Base.Dict.{KeyTest, lookup, insert, remove, retain}
use athena_voice.Text.{Text, text_eq}
use athena_voice.Text.Split.{text_eq_refl, eq_of_text_eq}

abbrev pub Key : Type 0
Key = Text × Text

abbrev pub same_key : Key → Key → Bool
same_key (s, k) (s', k') = text_eq s s' && text_eq k k'

pub same_key_refl : (k : Key) → same_key k k ≡ true
same_key_refl (s, k) = rw (text_eq_refl s, text_eq_refl k) refl

pub same_key_sound : (j k : Key) → same_key j k ≡ true → j ≡ k
same_key_sound (s, k) (s', k') h =
    let (a, b) = &&-true (text_eq s s') (text_eq k k') h in
    ap (λ x. (x, k)) (eq_of_text_eq s s' a) ∙ ap (λ x. (s', x)) (eq_of_text_eq k k' b)

abbrev pub keys : KeyTest Key
keys = record { same = same_key; same_refl = same_key_refl; same_sound = same_key_sound }

-- The entries: the time of expiry, and the value.
pub record MemoryTmpStore : Type 0 where
  pub store : List (Key × (ℕ × List ℕ))

pub new : MemoryTmpStore
new = record { store = [] }

abbrev pub u64 : ℕ → ℕ
u64 n = n % 18446744073709551616

unfoldable pub tmp_set : Text → Text → List ℕ → ℕ → ℕ → MemoryTmpStore → MemoryTmpStore
tmp_set skill key val expires_sec now s = record {
  store = insert keys (skill, key) (u64 (now + expires_sec), val) s.store;
}

-- The `match` of `tmp_get` on the entry.
unfoldable pub get_found :
    Key → Option (ℕ × List ℕ) → ℕ → MemoryTmpStore → MemoryTmpStore × Option (List ℕ)
get_found k none now s = (s, none)
get_found k (some (expires_at, val)) now s =
    if leb expires_at now then (record { store = remove keys k s.store }, none) else (s, some val)

unfoldable pub tmp_get : Text → Text → ℕ → MemoryTmpStore → MemoryTmpStore × Option (List ℕ)
tmp_get skill key now s = get_found (skill, key) (lookup keys (skill, key) s.store) now s

unfoldable pub tmp_gc : ℕ → MemoryTmpStore → MemoryTmpStore
tmp_gc now_sec s = record { store = retain (λ e. ltb now_sec e.0) s.store }
