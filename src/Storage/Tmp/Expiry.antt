-- ===== src/Storage/Tmp/Expiry.antt =====
-- A value is there until it expires, and not longer.
use athena_voice.Base.{
  ℕ, ◌+◌, ◌≤◌, ◌≡◌, refl, ap, ◌∙◌, ◌⊎◌, inl, inr, true, false, Option, none, some, List, [], ◌∷◌,
  ltb, leb, if◌then◌else◌, Bool-cases, arith,
}
use athena_voice.Base.Dict.{
  lookup, insert, Distinct, lookup-insert, lookup-remove, lookup-retain, insert-Distinct,
  remove-Distinct, retain-Distinct, filtered,
}
use athena_voice.Text.{Text}
use athena_voice.Storage.Tmp.{
  Key, same_key, same_key_refl, same_key_sound, keys, MemoryTmpStore, u64, tmp_set, tmp_get,
  get_found, tmp_gc,
}

-- A use of the store, with its time.
pub data TmpOp : Type 0 where
  sets : Text → Text → List ℕ → ℕ → ℕ → TmpOp
  gets : Text → Text → ℕ → TmpOp
  gcs : ℕ → TmpOp

apply : TmpOp → MemoryTmpStore → MemoryTmpStore
apply (sets skill key val expires_sec now) s = tmp_set skill key val expires_sec now s
apply (gets skill key now) s = (tmp_get skill key now s).0
apply (gcs now_sec) s = tmp_gc now_sec s

unfoldable pub run_ops : List TmpOp → MemoryTmpStore → MemoryTmpStore
unfolding apply
run_ops [] s = s
run_ops (op ∷ ops) s = run_ops ops (apply op s)

-- No use before the end of a time, and none that sets the key.
abbrev pub Leaves : Key → ℕ → TmpOp → Type 0
Leaves k end (sets skill key val expires_sec now) = same_key k (skill, key) ≡ false
Leaves k end (gets skill key now) = now ≤ end
Leaves k end (gcs now_sec) = now_sec ≤ end

abbrev pub AllLeave : Key → ℕ → List TmpOp → Type 0
AllLeave k end [] = Unit
AllLeave k end (op ∷ ops) = Leaves k end op × AllLeave k end ops

-- Whether an entry is still to be read at a time, which is all that may change.
abbrev readable : ℕ → Option (ℕ × List ℕ) → Option (List ℕ)
readable now none = none
readable now (some (expires_at, val)) = if leb expires_at now then none else some val

tmp_get-readable :
    (skill key : Text) (now : ℕ) (s : MemoryTmpStore)
    → (tmp_get skill key now s).1 ≡ readable now (lookup keys (skill, key) s.store)
unfolding tmp_get get_found
tmp_get-readable skill key now s = found (lookup keys (skill, key) s.store)
  where
    found : (o : Option (ℕ × List ℕ)) → (get_found (skill, key) o now s).1 ≡ readable now o
    found none = refl
    found (some (expires_at, val)) = elim (Bool-cases (leb expires_at now)) [
      | inl over ↦ rw over refl
      | inr alive ↦ rw alive refl
    ]

-- An entry as it was set, or gone after its expiry.
abbrev Kept : ℕ → List ℕ → ℕ → Option (ℕ × List ℕ) → Type 0
Kept e v end o = (o ≡ some (e, v)) ⊎ ((o ≡ none) × (e ≤ end))

Kept-readable :
    (e : ℕ) (v : List ℕ) (end : ℕ) (o : Option (ℕ × List ℕ))
    → Kept e v end o
    → readable end o ≡ (if leb e end then none else some v)
Kept-readable e v end o (inl there) = rw there refl
Kept-readable e v end o (inr (gone, over)) =
    let late : leb e end ≡ true = ground arith in rw (gone, late) refl

Kept-filtered :
    (e : ℕ) (v : List ℕ) (end t : ℕ) (o : Option (ℕ × List ℕ))
    → t ≤ end
    → Kept e v end o
    → Kept e v end (filtered (λ x. ltb t x.0) o)
Kept-filtered e v end t o h (inr (gone, over)) = rw gone (inr (refl, over))
Kept-filtered e v end t o h (inl there) = rw there (elim (Bool-cases (ltb t e)) [
  | inl alive ↦ rw alive (inl refl)
  | inr over ↦ rw over (inr (refl, ground arith))
])

-- The entry of a key after a read of a key, possibly another.
get_found-Kept :
    (e : ℕ) (v : List ℕ) (end t : ℕ) (k j : Key) (s : MemoryTmpStore) (o : Option (ℕ × List ℕ))
    → lookup keys j s.store ≡ o
    → t ≤ end
    → Kept e v end (lookup keys k s.store)
    → Kept e v end (lookup keys k (get_found j o t s).0.store)
unfolding get_found
get_found-Kept e v end t k j s none at h kept = kept
get_found-Kept e v end t k j s (some (e', v')) at h kept = elim (Bool-cases (leb e' t)) [
  | inr alive ↦ rw alive kept
  | inl over ↦
      rw (over, lookup-remove keys k j s.store)
        (elim (Bool-cases (same_key k j)) [
          | inr apart ↦ rw apart kept
          | inl hit ↦
              rw hit
                (removed kept (ap (λ x. lookup keys x s.store) (same_key_sound k j hit) ∙ at) over)
        ])
]
  where
    removed :
        Kept e v end (lookup keys k s.store)
        → lookup keys k s.store ≡ some (e', v')
        → leb e' t ≡ true
        → Kept e v end none
    removed (inr (gone, past)) here over = inr (refl, past)
    removed (inl there) here over = let same : e ≡ e' = cc in inr (refl, ground arith)

apply-Kept :
    (e : ℕ) (v : List ℕ) (end : ℕ) (k : Key) (op : TmpOp) (s : MemoryTmpStore)
    → Distinct keys s.store
    → Leaves k end op
    → Kept e v end (lookup keys k s.store)
    → Kept e v end (lookup keys k (apply op s).store) × Distinct keys (apply op s).store
unfolding apply tmp_set tmp_get tmp_gc get_found
apply-Kept e v end k (sets skill key val expires_sec now) s d h kept = (
  rw (lookup-insert keys k (skill, key) (u64 (now + expires_sec), val) s.store, h) kept,
  insert-Distinct keys (skill, key) _ s.store d,
)
apply-Kept e v end k (gets skill key now) s d h kept = (
  get_found-Kept e v end now k (skill, key) s (lookup keys (skill, key) s.store) refl h kept,
  got-Distinct (lookup keys (skill, key) s.store),
)
  where
    got-Distinct :
        (o : Option (ℕ × List ℕ)) → Distinct keys (get_found (skill, key) o now s).0.store
    got-Distinct none = d
    got-Distinct (some (e', v')) = elim (Bool-cases (leb e' now)) [
      | inl over ↦ rw over (remove-Distinct keys (skill, key) s.store d)
      | inr alive ↦ rw alive d
    ]
apply-Kept e v end k (gcs now_sec) s d h kept = (
  rw (lookup-retain keys (λ x. ltb now_sec x.0) k s.store d)
      (Kept-filtered e v end now_sec (lookup keys k s.store) h kept),
  retain-Distinct keys (λ x. ltb now_sec x.0) s.store d,
)

run_ops-Kept :
    (e : ℕ) (v : List ℕ) (end : ℕ) (k : Key) (ops : List TmpOp) (s : MemoryTmpStore)
    → Distinct keys s.store
    → AllLeave k end ops
    → Kept e v end (lookup keys k s.store)
    → Kept e v end (lookup keys k (run_ops ops s).store)
unfolding run_ops
run_ops-Kept e v end k [] s d h kept = kept
run_ops-Kept e v end k (op ∷ ops) s d h kept =
    let (kept', d') = apply-Kept e v end k op s d h.0 kept in
    run_ops-Kept e v end k ops (apply op s) d' h.1 kept'

-- A value is read back until it expires, and never after: in a store without a key twice, whatever is set
-- under other keys, read, or cleared away in between, a read at a time that is not before them gives the
-- value that was set, if the time of its expiry has not come, and nothing else. The time of expiry is the
-- time of setting and the seconds that were asked for, modulo 2 ^ 64.
pub tmp_get-tmp_set :
    (skill key : Text) (val : List ℕ) (expires_sec start now : ℕ) (ops : List TmpOp)
    (s : MemoryTmpStore)
    → Distinct keys s.store
    → AllLeave (skill, key) now ops
    → (tmp_get skill key now (run_ops ops (tmp_set skill key val expires_sec start s))).1
      ≡ (if leb (u64 (start + expires_sec)) now then none else some val)
unfolding tmp_set
tmp_get-tmp_set skill key val expires_sec start now ops s d h =
    let k : Key = (skill, key) in
    let e = u64 (start + expires_sec) in
    let store : List (Key × (ℕ × List ℕ)) = insert keys k (e, val) s.store in
    let here : lookup keys k store ≡ some (e, val) =
      lookup-insert keys k k (e, val) s.store ∙ rw (same_key_refl k) refl in
    let kept =
      run_ops-Kept e val now k ops (record { store = store })
        (insert-Distinct keys k (e, val) s.store d) h (inl here) in
    tmp_get-readable skill key now (run_ops ops (record { store = store }))
    ∙ Kept-readable e val now _ kept
