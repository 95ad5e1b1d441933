-- ===== src/Providers/Retry.antt =====
-- The provider decorators of crates/athena-voice-providers/src/retry.rs.
-- A call of the wrapped provider is a parameter: `calls k` is what the k-th call of the run answers
-- (counted from 0) with the clock reading that follows it. `A` is what a provider returns, `E` its
-- error. The futures are awaited one after the other, so a call is a step.
pub mod Laws
use athena_voice.Base.{
  ℕ, zero, suc, ◌+◌, ◌*◌, Bool, true, false, Option, none, some, List, [], ◌∷◌, ◌++◌, get_elem?,
  ltb, if◌then◌else◌, String, Result, ok, err, is_err,
}
use athena_voice.Providers.Circuit.{CircuitBreaker, can_call, record_success, record_failure}

pub record RetryConfig : Type 0 where
  pub max_attempts : ℕ
  pub backoff : List ℕ

unfoldable pub llm : RetryConfig
llm = record { max_attempts = 1; backoff = [] }

unfoldable pub stt : RetryConfig
stt = record { max_attempts = 1; backoff = [] }

-- 200 ms, in nanoseconds
unfoldable pub tts : RetryConfig
tts = record { max_attempts = 2; backoff = (200 * 1000000) ∷ [] }

-- `BoxError`: the provider's own error, or a message of the decorator.
pub data BoxError (E : Type 0) : Type 0 where
  inner : E → BoxError E
  message : String → BoxError E

-- What one call of the wrapped provider gives, and the time at which the circuit reads the clock.
pub record Answer (A E : Type 0) : Type 0 where
  pub result : Result A E
  pub now : ℕ

-- The outcome of a decorated call: the circuit after it, what is returned, how often the provider was
-- called, and the pauses that were slept.
pub record Run (A E : Type 0) : Type 0 where
  pub circuit : CircuitBreaker
  pub returned : Result A (BoxError E)
  pub called : ℕ
  pub slept : List ℕ

-- The sleep after the attempt of an index, if another one follows and the backoff has an entry.
pause : RetryConfig → ℕ → List ℕ
pause config attempt =
    if ltb (attempt + 1) config.max_attempts
    then elim (get_elem? config.backoff attempt) [ none ↦ [] | some delay ↦ delay ∷ [] ]
    else []

module _ {A E : Type 0} where
  -- `last_err.unwrap_or_else(…)`
  exhausted : Option E → Result A (BoxError E)
  exhausted none = err (message "tts retry exhausted")
  exhausted (some e) = err (inner e)

  prepend : List ℕ → Run A E → Run A E
  prepend pauses r = record r { slept = pauses ++ r.slept }

  -- `for attempt in 0..max_attempts`, with `rounds` attempts left.
  attempts :
      RetryConfig → (ℕ → Answer A E) → (rounds attempt : ℕ) → CircuitBreaker → Option E → Run A E
  unfolding exhausted pause prepend
  attempts config calls zero attempt c last_err = record {
    circuit = c;
    returned = exhausted last_err;
    called = attempt;
    slept = [];
  }
  attempts config calls (suc rounds) attempt c last_err = elim ((calls attempt).result) [
    | ok s ↦ record {
      circuit = record_success c;
      returned = ok s;
      called = attempt + 1;
      slept = [];
    }
    | err e ↦
        prepend (pause config attempt) (
          attempts config calls rounds (attempt + 1) (record_failure c (calls attempt).now)
            (some e))
  ]

  pub synthesize : RetryConfig → CircuitBreaker → ℕ → (ℕ → Answer A E) → Run A E
  synthesize config c now calls =
      let (c', permit) = can_call c now in
      if is_err permit
      then record {
        circuit = c';
        returned = err (message "tts circuit open");
        called = 0;
        slept = [];
      }
      else attempts config calls config.max_attempts 0 c' none

  -- The single attempt of the other two decorators.
  transcribe_answer : CircuitBreaker → Answer A E → Run A E
  transcribe_answer c a = elim (a.result) [
    | ok s ↦ record { circuit = record_success c; returned = ok s; called = 1; slept = [] }
    | err e ↦ record {
      circuit = record_failure c a.now;
      returned = err (inner e);
      called = 1;
      slept = [];
    }
  ]

  pub transcribe : CircuitBreaker → ℕ → Answer A E → Run A E
  unfolding transcribe_answer
  transcribe c now answer =
      let (c', permit) = can_call c now in
      if is_err permit
      then record {
        circuit = c';
        returned = err (message "stt circuit open");
        called = 0;
        slept = [];
      }
      else transcribe_answer c' answer

  complete_answer : CircuitBreaker → Answer A E → Run A E
  complete_answer c a = elim (a.result) [
    | ok s ↦ record { circuit = record_success c; returned = ok s; called = 1; slept = [] }
    | err e ↦ record {
      circuit = record_failure c a.now;
      returned = err (inner e);
      called = 1;
      slept = [];
    }
  ]

  pub complete : CircuitBreaker → ℕ → Answer A E → Run A E
  unfolding complete_answer
  complete c now answer =
      let (c', permit) = can_call c now in
      if is_err permit
      then record {
        circuit = c';
        returned = err (message "llm circuit open");
        called = 0;
        slept = [];
      }
      else complete_answer c' answer
