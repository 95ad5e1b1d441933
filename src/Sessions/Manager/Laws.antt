-- ===== src/Sessions/Manager/Laws.antt =====
-- Sessions live until they are closed or idle for too long.
use athena_voice.Base.{
  ℕ, ◌-◌, ◌%◌, ◌≡◌, refl, sym, arith, ap, ◌∙◌, inl, inr, Bool, false, ok, err, ◌+◌, Option, none,
  some, List, [], ◌∷◌, any, ltb, ◌==◌, if◌then◌else◌, Bool-cases,
}
use athena_voice.Base.Dict.{lookup, insert, Distinct, lookup-remove, lookup-insert}
use athena_voice.Core.Ids.{SatelliteId, Locale}
use athena_voice.Sessions.Manager.{
  SessionState, SessionManager, ids, get, open_session, touch, close, close_found, close_all,
  stale_keys, reap_idle, same_id_refl,
}

abbrev pub member : ℕ → List ℕ → Bool
member j = any (λ k. j == k)

-- Tokens that are cancelled one after the other.
abbrev pub cancel_each : List ℕ → List ℕ → List ℕ
cancel_each [] done = done
cancel_each (t ∷ ts) done = cancel_each ts (t ∷ done)

module _ {Tx : Type 0} where
  pub close-get :
      (j k : ℕ) (m : SessionManager Tx) → get j (close k m) ≡ (if j == k then none else get j m)
  unfolding get close close_found
  close-get j k m = closed (lookup ids k m.map) refl
    where
      closed :
          (o : Option (SessionState Tx))
          → lookup ids k m.map ≡ o
          → get j (close_found k o m) ≡ (if j == k then none else get j m)
      closed (some st) e = lookup-remove ids j k m.map
      closed none e = elim (Bool-cases (j == k)) [
        | inl hit ↦ rw hit (ap (λ x. lookup ids x m.map) (ids.same_sound j k hit) ∙ e)
        | inr miss ↦ rw miss refl
      ]

  -- The activity of a session that is open.
  pub touch-get :
      (j k now : ℕ) (m : SessionManager Tx) (st : SessionState Tx)
      → get k m ≡ some st
      → get j (touch k now m)
        ≡ (if j == k then some (record st { last_activity_ms = now }) else get j m)
  unfolding get touch
  touch-get j k now m st e =
      rw (touch, e) (lookup-insert ids j k (record st { last_activity_ms = now }) m.map)

  pub touch_absent : (k now : ℕ) (m : SessionManager Tx) → get k m ≡ none → touch k now m ≡ m
  unfolding get touch
  touch_absent k now m e = rw (touch, e) refl

  pub close_absent : (k : ℕ) (m : SessionManager Tx) → get k m ≡ none → close k m ≡ m
  unfolding get close close_found
  close_absent k m e = ap (λ o. close_found k o m) e

  -- A session that is open is not opened again.
  pub open_session-present :
      (k : ℕ) (sat : SatelliteId) (locale : Locale) (audio_tx text_tx : Tx) (now : ℕ)
      (m : SessionManager Tx) (st : SessionState Tx)
      → get k m ≡ some st
      → open_session k sat locale audio_tx text_tx now m ≡ (m, err (record { session = k }))
  unfolding get open_session
  open_session-present k sat locale audio_tx text_tx now m st e = rw e refl

  pub open_session-get :
      (k : ℕ) (sat : SatelliteId) (locale : Locale) (audio_tx text_tx : Tx) (now : ℕ)
      (m : SessionManager Tx)
      → get k m ≡ none
      → open_session k sat locale audio_tx text_tx now m ≡ (
        record {
          map =
              insert ids k
                (record {
                  sat = sat;
                  locale = locale;
                  cancel = m.next_token;
                  audio_tx = audio_tx;
                  text_tx = text_tx;
                  last_activity_ms = now;
                })
                m.map;
          next_token = m.next_token + 1;
          cancelled = m.cancelled;
        },
        ok tt,
      )
  unfolding get open_session
  open_session-get k sat locale audio_tx text_tx now m e = rw e refl

  close_all-get :
      (j : ℕ) (ks : List ℕ) (m : SessionManager Tx)
      → get j (close_all ks m) ≡ (if member j ks then none else get j m)
  unfolding close_all
  close_all-get j [] m = refl
  close_all-get j (k ∷ ks) m = close_all-get j ks (close k m) ∙ elim (Bool-cases (j == k)) [
    | inl hit ↦ elim (Bool-cases (member j ks)) [
      | inl later ↦ rw (hit, later) refl
      | inr once ↦ rw (hit, once) (close-get j k m ∙ rw hit refl)
    ]
    | inr miss ↦ elim (Bool-cases (member j ks)) [
      | inl later ↦ rw (miss, later) refl
      | inr never ↦ rw (miss, never) (close-get j k m ∙ rw miss refl)
    ]
  ]

  -- Whether an entry was last active before a time.
  abbrev pub is_stale : ℕ → Option (SessionState Tx) → Bool
  is_stale cutoff none = false
  is_stale cutoff (some st) = ltb st.last_activity_ms cutoff

  stale_keys-member :
      (cutoff j : ℕ) (es : List (ℕ × SessionState Tx))
      → Distinct ids es
      → member j (stale_keys cutoff es) ≡ is_stale cutoff (lookup ids j es)
  unfolding stale_keys lookup
  stale_keys-member cutoff j [] d = refl
  stale_keys-member cutoff j ((k, st) ∷ es) (absent, d) =
      let rest = stale_keys-member cutoff j es d in
      elim (Bool-cases (j == k)) [
        | inl hit ↦
            let gone =
              ap (λ x. is_stale cutoff (lookup ids x es)) (ids.same_sound j k hit)
              ∙ ap (is_stale cutoff) absent in
            elim (Bool-cases (ltb st.last_activity_ms cutoff)) [
              | inl old ↦ rw (hit, old) (rw hit refl)
              | inr young ↦ rw (hit, young) (rest ∙ gone)
            ]
        | inr miss ↦ elim (Bool-cases (ltb st.last_activity_ms cutoff)) [
          | inl old ↦ rw (miss, old) (rw miss rest)
          | inr young ↦ rw (miss, young) rest
        ]
      ]

  -- What stays of an entry.
  abbrev pub kept : ℕ → Option (SessionState Tx) → Option (SessionState Tx)
  kept cutoff o = if is_stale cutoff o then none else o

  -- The tokens of the sessions that were last active before a time.
  abbrev pub stale_tokens : ℕ → List (ℕ × SessionState Tx) → List ℕ
  stale_tokens cutoff [] = []
  stale_tokens cutoff ((k, st) ∷ es) =
      let rest = stale_tokens cutoff es in
      if ltb st.last_activity_ms cutoff then st.cancel ∷ rest else rest

  -- Every entry of a list is the one that a map has.
  abbrev HoldsIn : List (ℕ × SessionState Tx) → List (ℕ × SessionState Tx) → Type 0
  HoldsIn [] map = Unit
  HoldsIn ((k, st) ∷ es) map = (lookup ids k map ≡ some st) × HoldsIn es map

  absent_apart :
      (k j : ℕ) (st : SessionState Tx) (es : List (ℕ × SessionState Tx))
      → lookup ids k ((j, st) ∷ es) ≡ none
      → ((j == k) ≡ false) × (lookup ids k es ≡ none)
  unfolding lookup
  absent_apart k j st es h = elim (Bool-cases (k == j)) [
    | inl hit ↦ absurd (some-not-none st (sym (rw hit refl) ∙ h))
    | inr miss ↦
        let apart : (j == k) ≡ false = ground (arith, miss) in (apart, sym (rw miss refl) ∙ h)
  ]
    where
      some-not-none : (a : SessionState Tx) → ¬ (some a ≡ none)
      some-not-none a e = cc

  HoldsIn-cons :
      (k : ℕ) (a : SessionState Tx) (es map : List (ℕ × SessionState Tx))
      → lookup ids k es ≡ none
      → HoldsIn es map
      → HoldsIn es ((k, a) ∷ map)
  unfolding lookup
  HoldsIn-cons k a [] map h held = tt
  HoldsIn-cons k a ((j, st) ∷ es) map h (here, held) =
      let (apart, later) = absent_apart k j st es h in
      (rw apart here, HoldsIn-cons k a es map later held)

  Distinct-HoldsIn : (es : List (ℕ × SessionState Tx)) → Distinct ids es → HoldsIn es es
  unfolding lookup
  Distinct-HoldsIn [] d = tt
  Distinct-HoldsIn ((k, st) ∷ es) (absent, d) =
      (rw (same_id_refl k) refl, HoldsIn-cons k st es es absent (Distinct-HoldsIn es d))

  HoldsIn-close :
      (k : ℕ) (es : List (ℕ × SessionState Tx)) (m : SessionManager Tx)
      → lookup ids k es ≡ none
      → HoldsIn es m.map
      → HoldsIn es (close k m).map
  unfolding get
  HoldsIn-close k [] m h held = tt
  HoldsIn-close k ((j, st) ∷ es) m h (here, held) =
      let (apart, later) = absent_apart k j st es h in
      (close-get j k m ∙ rw apart here, HoldsIn-close k es m later held)

  close-cancelled :
      (k : ℕ) (m : SessionManager Tx) (st : SessionState Tx)
      → lookup ids k m.map ≡ some st
      → (close k m).cancelled ≡ st.cancel ∷ m.cancelled
  unfolding close close_found
  close-cancelled k m st e = ap (λ o. (close_found k o m).cancelled) e

  close_all-cancelled :
      (cutoff : ℕ) (es : List (ℕ × SessionState Tx)) (m : SessionManager Tx)
      → Distinct ids es
      → HoldsIn es m.map
      → (close_all (stale_keys cutoff es) m).cancelled
        ≡ cancel_each (stale_tokens cutoff es) m.cancelled
  unfolding close_all stale_keys
  close_all-cancelled cutoff [] m d held = refl
  close_all-cancelled cutoff ((k, st) ∷ es) m (absent, d) (here, held) =
      elim (Bool-cases (ltb st.last_activity_ms cutoff)) [
        | inl old ↦ rw old (
            close_all-cancelled cutoff es (close k m) d (HoldsIn-close k es m absent held)
            ∙ ap (cancel_each (stale_tokens cutoff es)) (close-cancelled k m st here))
        | inr young ↦ rw young (close_all-cancelled cutoff es m d held)
      ]

  -- Reaping is exact: of the sessions of a manager that has no session twice, those are closed and reported
  -- that were last active before the cutoff, and every other one is kept as it was; the tokens that are cancelled
  -- are exactly those of the closed sessions, each once. The cutoff is the idle time before now, or 0.
  pub reap_idle_exact :
      (max_idle now j : ℕ) (m : SessionManager Tx)
      → Distinct ids m.map
      → let cutoff = now - max_idle % 18446744073709551616 in
        (get j (reap_idle max_idle now m).0 ≡ kept cutoff (get j m))
        × ((member j (reap_idle max_idle now m).1 ≡ is_stale cutoff (get j m))
            × ((reap_idle max_idle now m).0.cancelled
                ≡ cancel_each (stale_tokens cutoff m.map) m.cancelled))
  unfolding reap_idle get
  reap_idle_exact max_idle now j m d =
      let cutoff = now - max_idle % 18446744073709551616 in
      let listed = stale_keys-member cutoff j m.map d in
      (
        close_all-get j (stale_keys cutoff m.map) m ∙ rw listed refl,
        (listed, close_all-cancelled cutoff m.map m d (Distinct-HoldsIn m.map d)),
      )
