-- ===== src/Sessions/Manager.antt =====
-- The session manager of crates/athena-voice-runtime/src/session/manager.rs.
-- A session id is the 128-bit number of the UUID. `now` is what `now_ms` reads. A cancellation token is a
-- number: the tasks of a session hold clones of it, and `cancelled` is the list of the tokens that were
-- cancelled, so a token outlives its entry. `Tx` is the type of the two senders, which are only stored.
-- Each method is one step; `DashMap` iterates in any order, here in the order of the list.
pub mod Laws
pub mod Histories
use athena_voice.Base.{
  ℕ, ◌+◌, ◌-◌, ◌%◌, Bool, true, false, not, Option, none, some, List, [], ◌∷◌, ◌++◌, ltb, ◌==◌,
  if◌then◌else◌, is_some, length, Result, ok, err, ◌≡◌, arith,
}
use athena_voice.Base.Dict.{KeyTest, lookup, insert, remove}
use athena_voice.Core.Ids.{Locale, SatelliteId}

pub record SessionExists : Type 0 where
  pub session : ℕ

pub record SessionState (Tx : Type 0) : Type 0 where
  pub sat : SatelliteId
  pub locale : Locale
  pub cancel : ℕ
  pub audio_tx : Tx
  pub text_tx : Tx
  pub last_activity_ms : ℕ

pub record SessionManager (Tx : Type 0) : Type 0 where
  pub map : List (ℕ × SessionState Tx)
  pub next_token : ℕ
  pub cancelled : List ℕ

pub same_id_refl : (k : ℕ) → (k == k) ≡ true
same_id_refl k = ground arith

pub same_id_sound : (j k : ℕ) → (j == k) ≡ true → j ≡ k
same_id_sound j k h = ground arith

-- Equality of session ids.
abbrev pub ids : KeyTest ℕ
ids = record { same = λ j k. j == k; same_refl = same_id_refl; same_sound = same_id_sound }

module _ {Tx : Type 0} where
  unfoldable pub new : SessionManager Tx
  new = record { map = []; next_token = 0; cancelled = [] }

  pub open_session :
      ℕ
      → SatelliteId
      → Locale
      → Tx
      → Tx
      → ℕ
      → SessionManager Tx
      → SessionManager Tx × Result (Unit {0}) SessionExists
  open_session session sat locale audio_tx text_tx now m =
      if is_some (lookup ids session m.map) then (m, err (record { session = session })) else (
        record {
          map =
              insert ids session
                (record {
                  sat = sat;
                  locale = locale;
                  cancel = m.next_token;
                  audio_tx = audio_tx;
                  text_tx = text_tx;
                  last_activity_ms = now;
                })
                m.map;
          next_token = m.next_token + 1;
          cancelled = m.cancelled;
        },
        ok tt,
      )

  unfoldable pub get : ℕ → SessionManager Tx → Option (SessionState Tx)
  get session m = lookup ids session m.map

  -- The store into the entry is an insertion of the changed entry.
  pub touch : ℕ → ℕ → SessionManager Tx → SessionManager Tx
  touch session now m = elim (lookup ids session m.map) [
    | none ↦ m
    | some st ↦ record m { map = insert ids session (record st { last_activity_ms = now }) m.map }
  ]

  close_found : ℕ → Option (SessionState Tx) → SessionManager Tx → SessionManager Tx
  close_found session none m = m
  close_found session (some st) m = record m {
    map = remove ids session m.map;
    cancelled = st.cancel ∷ m.cancelled;
  }

  pub close : ℕ → SessionManager Tx → SessionManager Tx
  unfolding close_found
  close session m = close_found session (lookup ids session m.map) m

  -- The keys of the entries that were last active before the cutoff.
  stale_keys : ℕ → List (ℕ × SessionState Tx) → List ℕ
  stale_keys cutoff [] = []
  stale_keys cutoff ((k, st) ∷ es) =
      let rest = stale_keys cutoff es in if ltb st.last_activity_ms cutoff then k ∷ rest else rest

  pub close_all : List ℕ → SessionManager Tx → SessionManager Tx
  unfolding close
  close_all [] m = m
  close_all (k ∷ ks) m = close_all ks (close k m)

  -- `max_idle` in milliseconds, cut to a `u64`.
  pub reap_idle : ℕ → ℕ → SessionManager Tx → SessionManager Tx × List ℕ
  unfolding stale_keys close_all
  reap_idle max_idle now m =
      let stale = stale_keys (now - max_idle % 18446744073709551616) m.map in
      (close_all stale m, stale)

  tokens : List (ℕ × SessionState Tx) → List ℕ
  tokens [] = []
  tokens ((k, st) ∷ es) = st.cancel ∷ tokens es

  pub cancel_all : SessionManager Tx → SessionManager Tx
  unfolding tokens
  cancel_all m = record m { cancelled = tokens m.map ++ m.cancelled }

  pub len : SessionManager Tx → ℕ
  len m = length m.map

  pub is_empty : SessionManager Tx → Bool
  is_empty m = elim (m.map) [ [] ↦ true | e ∷ es ↦ false ]
