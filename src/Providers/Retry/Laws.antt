-- ===== src/Providers/Retry/Laws.antt =====
-- What the decorators do, described by the provider's answers alone.
use native.Mathlib.Decide.{dec_lt}
use athena_voice.Base.{
  ℕ, zero, suc, ◌+◌, ◌≤◌, ◌<◌, ◌≡◌, refl, ap, ◌∙◌, Option, none, some, List, [], ◌∷◌, arith, ok,
  err,
}
use athena_voice.Providers.Circuit.{
  CircuitBreaker, closed, can_call, record_success, record_failure,
}
use athena_voice.Providers.Circuit.Laws.{failures_at, refused_unchanged}
use athena_voice.Providers.Retry.{
  RetryConfig, Answer, Run, inner, message, exhausted, attempts, synthesize, transcribe, complete,
}

module _ {A E : Type 0} (calls : ℕ → Answer A E) (errs : ℕ → E) where
  -- The calls from one index up to another, that one excluded, all fail, each with its error.
  abbrev pub FailFrom : ℕ → ℕ → Type 0
  FailFrom i n = (j : ℕ) → i ≤ j → j < n → (calls j).result ≡ err (errs j)

  -- What a run with its first success at `n` gives.
  abbrev pub Succeeds : ℕ → A → Run A E → Type 0
  Succeeds n a r = (r.returned ≡ ok a) × (r.called ≡ n + 1) × (r.circuit.state ≡ closed 0)

  attempts_succeed :
      (config : RetryConfig) (rounds attempt : ℕ) (c : CircuitBreaker) (last_err : Option E) (n : ℕ)
      (a : A)
      → attempt ≤ n
      → n < attempt + rounds
      → FailFrom attempt n
      → (calls n).result ≡ ok a
      → Succeeds n a (attempts config calls rounds attempt c last_err)
  unfolding attempts record_success
  attempts_succeed config zero attempt c last_err n a l u f s = absurd (omega arith)
  attempts_succeed config (suc rounds) attempt c last_err n a l u f s = elim (dec_lt attempt n) [
    | yes p ↦
        rw (f attempt (omega arith) p, attempts)
          (attempts_succeed config rounds (attempt + 1) (record_failure c (calls attempt).now)
            (some (errs attempt)) n a (omega arith) (omega arith) (λ j x y. f j (omega arith) y) s)
    | no p ↦
        let same : attempt ≡ n = omega arith in
        let q : (calls attempt).result ≡ ok a = rw same s in
        rw (q, attempts) (refl, ap (λ (k : ℕ). k + 1) same, refl)
  ]

  -- The clock readings of `rounds` calls from an index on.
  abbrev pub times : ℕ → ℕ → List ℕ
  times zero attempt = []
  times (suc rounds) attempt = (calls attempt).now ∷ times rounds (attempt + 1)

  -- The error that is left when `rounds` more attempts fail.
  abbrev left_over : ℕ → ℕ → Option E → Option E
  left_over zero attempt last_err = last_err
  left_over (suc rounds) attempt last_err = some (errs (attempt + rounds))

  left_over-suc :
      (rounds attempt : ℕ) (last_err : Option E)
      → left_over rounds (attempt + 1) (some (errs attempt))
        ≡ left_over (suc rounds) attempt last_err
  left_over-suc zero attempt last_err =
      let e : attempt ≡ attempt + 0 = omega arith in ap (λ k. some (errs k)) e
  left_over-suc (suc rounds) attempt last_err =
      let e : attempt + 1 + rounds ≡ attempt + suc rounds = omega arith in ap (λ k. some (errs k)) e

  left_over-eq : (rounds last : ℕ) → rounds ≡ suc last → left_over rounds 0 none ≡ some (errs last)
  left_over-eq rounds last p =
      let e : 0 + last ≡ last = omega arith in rw p (ap (λ k. some (errs k)) e)

  -- What a run of `rounds` failing attempts gives.
  abbrev Exhausts : ℕ → ℕ → CircuitBreaker → Option E → Run A E → Type 0
  Exhausts rounds attempt c last_err r =
      (r.returned ≡ exhausted (left_over rounds attempt last_err))
      × (r.called ≡ attempt + rounds)
      × (r.circuit ≡ failures_at c (times rounds attempt))

  attempts_exhaust :
      (config : RetryConfig) (rounds attempt : ℕ) (c : CircuitBreaker) (last_err : Option E)
      → FailFrom attempt (attempt + rounds)
      → Exhausts rounds attempt c last_err (attempts config calls rounds attempt c last_err)
  unfolding attempts failures_at
  attempts_exhaust config zero attempt c last_err f = (refl, omega arith, refl)
  attempts_exhaust config (suc rounds) attempt c last_err f =
      let ih =
        attempts_exhaust config rounds (attempt + 1) (record_failure c (calls attempt).now)
          (some (errs attempt)) (λ j x y. f j (omega arith) (omega arith)) in
      rw (f attempt (omega arith) (omega arith), attempts)
        (ih.0 ∙ ap exhausted (left_over-suc rounds attempt last_err), omega (arith, ih.1), ih.2)

  -- If the circuit lets the call through and some attempt below the maximum succeeds, the answer of the
  -- first one that does is returned, the provider is called no more after it, and the circuit is closed
  -- with no failure counted.
  pub synthesize_first_success :
      (config : RetryConfig) (c : CircuitBreaker) (now n : ℕ) (a : A)
      → (can_call c now).1 ≡ ok tt
      → n < config.max_attempts
      → FailFrom 0 n
      → (calls n).result ≡ ok a
      → Succeeds n a (synthesize config c now calls)
  unfolding synthesize
  synthesize_first_success config c now n a permitted below f s = rw permitted (
      attempts_succeed config config.max_attempts 0 (can_call c now).0 none n a (omega arith)
        (omega arith) f s)

  -- If the circuit lets the call through and every attempt up to the maximum, which is not 0, fails, the
  -- provider is called exactly that often, the last error is returned, and the circuit has counted
  -- every one of the failures at its time.
  pub synthesize_exhausted :
      (config : RetryConfig) (c : CircuitBreaker) (now last : ℕ)
      → (can_call c now).1 ≡ ok tt
      → config.max_attempts ≡ suc last
      → FailFrom 0 config.max_attempts
      → let r = synthesize config c now calls in
        (r.returned ≡ err (inner (errs last)))
        × (r.called ≡ config.max_attempts)
        × (r.circuit ≡ failures_at (can_call c now).0 (times config.max_attempts 0))
  unfolding synthesize exhausted
  synthesize_exhausted config c now last permitted positive f =
      let all =
        attempts_exhaust config config.max_attempts 0 (can_call c now).0 none
          (λ j x y. f j x (omega arith)) in
      rw permitted (
        all.0 ∙ ap exhausted (left_over-eq config.max_attempts last positive),
        omega (arith, all.1),
        all.2,
      )

-- When the circuit refuses, none of the three decorators calls its provider or touches the circuit, and
-- each returns its own error.
pub refused :
    {A E : Type 0} (config : RetryConfig) (c : CircuitBreaker) (now wait : ℕ)
    (calls : ℕ → Answer A E)
    → (can_call c now).1 ≡ err wait
    → (synthesize config c now calls ≡ record {
      circuit = c;
      returned = err (message "tts circuit open");
      called = 0;
      slept = [];
    })
      × (transcribe c now (calls 0) ≡ record {
        circuit = c;
        returned = err (message "stt circuit open");
        called = 0;
        slept = [];
      })
      × (complete c now (calls 0) ≡ record {
        circuit = c;
        returned = err (message "llm circuit open");
        called = 0;
        slept = [];
      })
unfolding synthesize transcribe complete
refused config c now wait calls h =
    let same = refused_unchanged c now wait h in rw (h, same) (refl, refl, refl)
