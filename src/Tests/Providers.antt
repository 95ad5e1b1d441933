-- ===== src/Tests/Providers.antt =====
-- The circuit breaker and the retries at concrete inputs.
use athena_voice.Base.{ℕ, zero, suc, ◌+◌, ◌≤◌, ◌<◌, ◌≡◌, refl, inl, [], ◌∷◌, String, arith, ok, err}
use athena_voice.Providers.Circuit.{CircuitBreaker, open_until, new, can_call}
use athena_voice.Providers.Circuit.Laws.{IsValid, failures_at, new-failures_at}
use athena_voice.Providers.Retry.{Answer, tts, inner, synthesize}
use athena_voice.Providers.Retry.Laws.{times, synthesize_exhausted}

abbrev three : CircuitBreaker
unfolding new
three = new 3 100 30

three-IsValid : IsValid three
unfolding new
three-IsValid = record { threshold_u32 = omega arith; counts = inl refl }

new-failures_at_example :
    let c = failures_at (new 3 100 30) (5 ∷ 6 ∷ 9 ∷ 50 ∷ []) in
    (c.state ≡ open_until 109) × ((can_call c 60).1 ≡ err 49)
new-failures_at_example = new-failures_at 3 100 30 (5 ∷ 6 ∷ 9 ∷ 50 ∷ []) 60 (omega arith)

abbrev tripped : CircuitBreaker
tripped = record {
  failure_threshold = 3;
  open_duration = 100;
  half_open_probe_gap = 30;
  state = open_until 109;
}

-- A provider that fails at once and answers 7 at the second call.
abbrev flaky : ℕ → Answer ℕ String
flaky zero = record { result = err "busy"; now = 10 }
flaky (suc _) = record { result = ok 7; now = 20 }

abbrev dead : ℕ → Answer ℕ String
dead n = record { result = err "busy"; now = 10 + n }

flaky_fails : (j : ℕ) → 0 ≤ j → j < 1 → (flaky j).result ≡ err "busy"
flaky_fails zero l u = refl
flaky_fails (suc j) l u = absurd (omega arith)

synthesize_exhausted_example :
    ((synthesize tts three 0 dead).returned ≡ err (inner "busy"))
    × ((synthesize tts three 0 dead).called ≡ tts.max_attempts)
    × ((synthesize tts three 0 dead).circuit
        ≡ failures_at (can_call three 0).0 (times dead (λ _. "busy") tts.max_attempts 0))
unfolding can_call new tts
synthesize_exhausted_example =
    synthesize_exhausted dead (λ _. "busy") tts three 0 1 refl refl (λ j l u. refl)
