-- ===== src/Providers/Circuit.antt =====
-- The circuit breaker of crates/athena-voice-providers/src/circuit.rs.
-- `Instant` and `Duration` are numbers of nanoseconds. Subtraction of instants saturates at zero in
-- Rust, as `-` does here. The mutex makes each method one step, and the clock is an argument.
pub mod Laws
use athena_voice.Base.{ℕ, ◌+◌, ◌-◌, ◌%◌, Bool, true, false, leb, if◌then◌else◌, Result, ok, err}

pub data State : Type 0 where
  closed : ℕ → State
  open_until : ℕ → State
  half_open : ℕ → State

pub record CircuitBreaker : Type 0 where
  pub failure_threshold : ℕ
  pub open_duration : ℕ
  pub half_open_probe_gap : ℕ
  pub state : State

abbrev pub Permit : Type 0
Permit = Result (Unit {0}) ℕ

-- `u32` arithmetic wraps.
abbrev u32 : ℕ → ℕ
u32 n = n % 4294967296

unfoldable pub new : ℕ → ℕ → ℕ → CircuitBreaker
new failure_threshold open_duration half_open_probe_gap = record {
  failure_threshold = failure_threshold;
  open_duration = open_duration;
  half_open_probe_gap = half_open_probe_gap;
  state = closed 0;
}

-- The `match *st` of `can_call`: the arms of `HalfOpen` in the order of the source.
permit : State → ℕ → ℕ → State × Permit
permit (closed failures) gap now = (closed failures, ok tt)
permit (open_until until) gap now =
    if leb until now then (half_open now, ok tt) else (open_until until, err (until - now))
permit (half_open last_probe) gap now =
    if leb gap (now - last_probe) then (half_open now, ok tt) else (
      half_open last_probe,
      let elapsed = now - last_probe in if leb gap elapsed then ok tt else err (gap - elapsed),
    )

unfoldable pub can_call : CircuitBreaker → ℕ → CircuitBreaker × Permit
unfolding permit
can_call c now =
    let (st, answer) = permit c.state c.half_open_probe_gap now in (record c { state = st }, answer)

unfoldable pub record_success : CircuitBreaker → CircuitBreaker
record_success c = record c { state = closed 0 }

failed : State → ℕ → ℕ → State
failed (closed failures) threshold reopens =
    let new_failures = u32 (failures + 1) in
    if leb threshold new_failures then open_until reopens else closed new_failures
failed (half_open last_probe) threshold reopens = open_until reopens
failed (open_until until) threshold reopens = open_until until

unfoldable pub record_failure : CircuitBreaker → ℕ → CircuitBreaker
unfolding failed
record_failure c now = record c {
  state = failed c.state c.failure_threshold (now + c.open_duration);
}

abbrev matches_open : State → Bool
matches_open (open_until until) = true
matches_open _ = false

unfoldable pub is_open : CircuitBreaker → Bool
is_open c = matches_open c.state
