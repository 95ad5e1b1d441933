-- ===== src/Providers/Circuit/Laws.antt =====
-- What the circuit breaker guarantees, over every history of calls.
use athena_voice.Base.{
  ℕ, suc, if◌then◌else◌, leb, ◌∙◌, Bool-cases, inl, inr, ◌+◌, ◌-◌, ◌≤◌, ◌<◌, ◌≡◌, refl, ap, ◌⊎◌,
  ◌↔◌, Option, none, some, List, [], ◌∷◌, length, get_elem?, arith, ok, err,
}
use athena_voice.Providers.Circuit.{
  CircuitBreaker, State, Permit, permit, closed, open_until, half_open, new, can_call,
  record_success, record_failure,
}

-- A closed circuit counts fewer failures than the threshold.
abbrev pub CountsBelow : ℕ → State → Type 0
CountsBelow threshold (closed failures) = (failures ≡ 0) ⊎ (failures < threshold)
CountsBelow threshold _ = Unit

pub record IsValid (c : CircuitBreaker) : Type 0 where
  pub threshold_u32 : c.failure_threshold < 4294967296
  pub counts : CountsBelow c.failure_threshold c.state

-- One call of the public methods, at a time where one is read.
pub data Call : Type 0 where
  ask fail : ℕ → Call
  succeed : Call

unfoldable pub step : CircuitBreaker → Call → CircuitBreaker
step c (ask now) = (can_call c now).0
step c (fail now) = record_failure c now
step c succeed = record_success c

unfoldable pub run : CircuitBreaker → List Call → CircuitBreaker
run c [] = c
run c (e ∷ es) = run (step c e) es

step-IsValid : (c : CircuitBreaker) (e : Call) → IsValid c → IsValid (step c e)
unfolding step can_call record_failure record_success
step-IsValid c (ask now) v = ground arith
step-IsValid c (fail now) v = ground arith
step-IsValid c succeed v = ground arith

-- Every history of `can_call`, `record_success` and `record_failure` keeps a valid circuit valid.
pub run-IsValid : (c : CircuitBreaker) (es : List Call) → IsValid c → IsValid (run c es)
unfolding run
run-IsValid c [] v = v
run-IsValid c (e ∷ es) v = run-IsValid (step c e) es (step-IsValid c e v)

-- The failures of a list of times, one after the other.
unfoldable pub failures_at : CircuitBreaker → List ℕ → CircuitBreaker
failures_at c [] = c
failures_at c (now ∷ nows) = failures_at (record_failure c now) nows

-- The state when `seen` failures are counted, or when the failure at a time has opened the circuit.
abbrev pub opened : ℕ → Option ℕ → ℕ → State
opened duration none seen = closed seen
opened duration (some now) seen = open_until (now + duration)

stays_open :
    (c : CircuitBreaker) (until : ℕ) (nows : List ℕ)
    → c.state ≡ open_until until
    → (failures_at c nows).state ≡ open_until until
unfolding failures_at record_failure
stays_open c until [] h = h
stays_open c until (now ∷ nows) h = stays_open (record_failure c now) until nows (ground arith)

module _ (c : CircuitBreaker) (seen now : ℕ) (nows : List ℕ) where
  index_here :
      c.failure_threshold ≤ seen + 1
      → get_elem? (now ∷ nows) (c.failure_threshold - 1 - seen) ≡ some now
  index_here h =
      let e : c.failure_threshold - 1 - seen ≡ 0 = omega arith in ap (get_elem? (now ∷ nows)) e

  index_later :
      seen + 1 < c.failure_threshold
      → get_elem? (now ∷ nows) (c.failure_threshold - 1 - seen)
        ≡ get_elem? nows (c.failure_threshold - 1 - (seen + 1))
  index_later h =
      let e : c.failure_threshold - 1 - seen ≡ suc (c.failure_threshold - 1 - (seen + 1)) =
        omega arith in
      ap (get_elem? (now ∷ nows)) e

failures_at-eq :
    (c : CircuitBreaker) (seen : ℕ) (nows : List ℕ)
    → c.failure_threshold < 4294967296
    → c.state ≡ closed seen
    → (seen ≡ 0) ⊎ (seen < c.failure_threshold)
    → (failures_at c nows).state
      ≡ opened c.open_duration
          (get_elem? nows (c.failure_threshold - 1 - seen))
          (seen + length nows)
unfolding failures_at record_failure
failures_at-eq c seen [] t s h = ground arith
failures_at-eq c seen (now ∷ nows) t s h = ground (
  arith,
  index_here c seen now nows,
  index_later c seen now nows,
  stays_open (record_failure c now) (now + c.open_duration) nows,
  failures_at-eq (record_failure c now) (seen + 1) nows,
)

-- The answer to a call, when a failure at a time has opened the circuit, or none has.
abbrev pub answer_at : ℕ → Option ℕ → ℕ → Permit
answer_at duration none now = ok tt
answer_at duration (some failure) now =
    if leb (failure + duration) now then ok tt else err (failure + duration - now)

can_call-answer_at :
    (c : CircuitBreaker) (o : Option ℕ) (seen duration now : ℕ)
    → c.state ≡ opened duration o seen
    → (can_call c now).1 ≡ answer_at duration o now
unfolding can_call permit
can_call-answer_at c none seen duration now e = ap (λ st. (permit st c.half_open_probe_gap now).1) e
can_call-answer_at c (some failure) seen duration now e =
    ap (λ st. (permit st c.half_open_probe_gap now).1) e
    ∙ elim (Bool-cases (leb (failure + duration) now)) [
      | inl over ↦ rw over refl
      | inr early ↦ rw early refl
    ]

new_state-failures_at :
    (threshold duration gap : ℕ) (nows : List ℕ)
    → threshold < 4294967296
    → (failures_at (new threshold duration gap) nows).state
      ≡ opened duration (get_elem? nows (threshold - 1)) (length nows)
unfolding new
new_state-failures_at threshold duration gap nows t =
    ground (arith, failures_at-eq (new threshold duration gap) 0 nows t refl)

-- A new circuit that has seen only failures, at the times of a list and however far apart, is closed with all
-- of them counted if there are fewer than the threshold, and else open until the duration after the failure
-- that reached the threshold (the first one, if the threshold is 0), whatever failed later. A call is then let
-- through if the circuit is closed, or if that time has come; before it, the call is refused with the wait that
-- is left. The threshold is a `u32`.
pub new-failures_at :
    (threshold duration gap : ℕ) (nows : List ℕ) (now : ℕ)
    → threshold < 4294967296
    → let c = failures_at (new threshold duration gap) nows in
      let failure = get_elem? nows (threshold - 1) in
      (c.state ≡ opened duration failure (length nows))
      × ((can_call c now).1 ≡ answer_at duration failure now)
new-failures_at threshold duration gap nows now t =
    let e = new_state-failures_at threshold duration gap nows t in
    (
      e,
      can_call-answer_at (failures_at (new threshold duration gap) nows)
          (get_elem? nows (threshold - 1)) (length nows) duration now e,
    )

-- The clock has not run back behind the last probe.
abbrev pub ProbeBefore : ℕ → State → Type 0
ProbeBefore now (half_open last_probe) = last_probe ≤ now
ProbeBefore now _ = Unit

-- A refusal is exact: it asks for a wait that is not zero, and the same circuit, asked again later,
-- permits the call exactly when that wait is over.
pub refusal_exact :
    (c : CircuitBreaker) (now wait k : ℕ)
    → ProbeBefore now c.state
    → (can_call c now).1 ≡ err wait
    → (0 < wait) × ((can_call c (now + k)).1 ≡ ok tt ↔ wait ≤ k)
unfolding can_call
refusal_exact c now wait k b h = ground arith

-- A refused call leaves the circuit as it was.
pub refused_unchanged :
    (c : CircuitBreaker) (now wait : ℕ) → (can_call c now).1 ≡ err wait → (can_call c now).0 ≡ c
unfolding can_call
refused_unchanged c now wait h = ground arith

-- Probes are spaced: once an open or half-open circuit lets a call through, the next one passes
-- exactly when the probe gap has gone by.
pub probes_spaced :
    (c : CircuitBreaker) (now k : ℕ)
    → (n : ℕ) → (c.state ≡ open_until n) ⊎ (c.state ≡ half_open n)
    → (can_call c now).1 ≡ ok tt
    → ((can_call (can_call c now).0 (now + k)).1 ≡ ok tt) ↔ (c.half_open_probe_gap ≤ k)
unfolding can_call
probes_spaced c now k n s h = ground arith

-- A probe decides: after a permitted call of an open or half-open circuit, a success closes it with no
-- failures counted, and a failure opens it again for the whole duration.
pub probe_decides :
    (c : CircuitBreaker) (now later n : ℕ)
    → (c.state ≡ open_until n) ⊎ (c.state ≡ half_open n)
    → (can_call c now).1 ≡ ok tt
    → ((record_success (can_call c now).0).state ≡ closed 0)
      × ((record_failure (can_call c now).0 later).state ≡ open_until (later + c.open_duration))
unfolding can_call record_success record_failure
probe_decides c now later n s h = ground arith
