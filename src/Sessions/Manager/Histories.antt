-- ===== src/Sessions/Manager/Histories.antt =====
-- The manager over its histories.
use athena_voice.Base.{
  ◌-◌, ◌%◌, ℕ, Bool, true, false, Option, none, some, List, [], ◌∷◌, if◌then◌else◌, is_some,
}
use athena_voice.Base.Dict.{lookup, insert, Distinct, insert-Distinct, remove-Distinct}
use athena_voice.Core.Ids.{Locale, SatelliteId}
use athena_voice.Sessions.Manager.{
  SessionState, SessionManager, ids, open_session, touch, close, close_found, close_all, stale_keys,
  reap_idle, cancel_all,
}

-- The calls that change a manager.
pub data ManagerOp (Tx : Type 0) : Type 0 where
  opens : ℕ → SatelliteId → Locale → Tx → Tx → ℕ → ManagerOp Tx
  touches : ℕ → ℕ → ManagerOp Tx
  closes : ℕ → ManagerOp Tx
  reaps : ℕ → ℕ → ManagerOp Tx
  cancels_all : ManagerOp Tx

module _ {Tx : Type 0} where
  apply : ManagerOp Tx → SessionManager Tx → SessionManager Tx
  apply (opens session sat locale audio_tx text_tx now) m =
      (open_session session sat locale audio_tx text_tx now m).0
  apply (touches session now) m = touch session now m
  apply (closes session) m = close session m
  apply (reaps max_idle now) m = (reap_idle max_idle now m).0
  apply cancels_all m = cancel_all m

  pub run_ops : List (ManagerOp Tx) → SessionManager Tx → SessionManager Tx
  unfolding apply
  run_ops [] m = m
  run_ops (op ∷ ops) m = run_ops ops (apply op m)

  touch_found-Distinct :
      (session now : ℕ) (o : Option (SessionState Tx)) (m : SessionManager Tx)
      → Distinct ids m.map
      → Distinct ids
          (elim o as (λ x. SessionManager Tx) [
            | none ↦ m
            | some st ↦ record m {
              map = insert ids session (record st { last_activity_ms = now }) m.map;
            }
          ]).map
  touch_found-Distinct session now none m d = d
  touch_found-Distinct session now (some st) m d =
      insert-Distinct ids session (record st { last_activity_ms = now }) m.map d

  close_found-Distinct :
      (session : ℕ) (o : Option (SessionState Tx)) (m : SessionManager Tx)
      → Distinct ids m.map
      → Distinct ids (close_found session o m).map
  unfolding close_found
  close_found-Distinct session none m d = d
  close_found-Distinct session (some st) m d = remove-Distinct ids session m.map d

  close_all-Distinct :
      (ks : List ℕ) (m : SessionManager Tx) → Distinct ids m.map → Distinct ids (close_all ks m).map
  unfolding close_all close
  close_all-Distinct [] m d = d
  close_all-Distinct (k ∷ ks) m d =
      close_all-Distinct ks (close k m) (close_found-Distinct k (lookup ids k m.map) m d)

  choice-Distinct :
      {R : Type 0} (r r' : R) (b : Bool) (m m' : SessionManager Tx)
      → Distinct ids m.map
      → Distinct ids m'.map
      → Distinct ids (if◌then◌else◌ {A = SessionManager Tx × R} b (m, r) (m', r')).0.map
  choice-Distinct r r' true m m' d d' = d
  choice-Distinct r r' false m m' d d' = d'

  apply-Distinct :
      (op : ManagerOp Tx) (m : SessionManager Tx)
      → Distinct ids m.map
      → Distinct ids (apply op m).map
  unfolding apply open_session touch close reap_idle cancel_all
  apply-Distinct (opens session sat locale audio_tx text_tx now) m d =
      choice-Distinct _ _ (is_some (lookup ids session m.map)) m _ d
        (insert-Distinct ids session _ m.map d)
  apply-Distinct (touches session now) m d =
      touch_found-Distinct session now (lookup ids session m.map) m d
  apply-Distinct (closes session) m d = close_found-Distinct session (lookup ids session m.map) m d
  apply-Distinct (reaps max_idle now) m d =
      close_all-Distinct (stale_keys (now - max_idle % 18446744073709551616) m.map) m d
  apply-Distinct cancels_all m d = d

  -- Whatever is done with a manager, no session is ever in it twice.
  pub run_ops-Distinct :
      (ops : List (ManagerOp Tx)) (m : SessionManager Tx)
      → Distinct ids m.map
      → Distinct ids (run_ops ops m).map
  unfolding run_ops
  run_ops-Distinct [] m d = d
  run_ops-Distinct (op ∷ ops) m d = run_ops-Distinct ops (apply op m) (apply-Distinct op m d)
