-- ===== src/Satellite/Mic/Silence.antt =====
-- When an utterance ends.
use athena_voice.Base.{
  ℕ, zero, suc, ◌+◌, ◌/◌, ◌≤◌, ◌<◌, ◌≡◌, refl, sym, ap, ◌∙◌, inl, inr, Bool, true, false, ◌&&◌,
  ◌||◌, Option, none, some, is_some, List, [], ◌∷◌, ◌++◌, ltb, leb, if◌then◌else◌, Bool-cases,
  arith,
}
use native.Mathlib.Nat.{div_self}
use athena_voice.Satellite.Mic.{
  isqrt, SilenceTracker, floor_warmup_frames, isqrt_loop, rms, threshold, update_floor, heard, push,
  u32,
}

-- Fuel for the guess is enough: the loop ends at a guess that the next turn would not lower.
isqrt_loop-exits :
    (fuel n x y : ℕ)
    → x ≤ fuel
    → y ≡ (x + n / x) / 2
    → let r = isqrt_loop fuel n x y in ltb ((r + n / r) / 2) r ≡ false
unfolding isqrt_loop
isqrt_loop-exits zero n x y h e =
    let empty : x ≡ 0 = omega (arith, h) in rw empty (not_below_zero ((0 + n / 0) / 2))
  where
    not_below_zero : (a : ℕ) → ltb a 0 ≡ false
    not_below_zero a = ground arith
isqrt_loop-exits (suc fuel) n x y h e = elim (Bool-cases (ltb y x)) [
  | inl lower ↦ rw lower (isqrt_loop-exits fuel n y ((y + n / y) / 2) (ground arith) refl)
  | inr ends ↦ rw ends (ap (λ a. ltb a x) (sym e) ∙ ends)
]

-- The loop of `isqrt` ends in this way for every number that it is run for.
isqrt-exits : (n : ℕ) → 2 ≤ n → let r = isqrt n in ltb ((r + n / r) / 2) r ≡ false
unfolding isqrt
isqrt-exits n h =
    let big : ltb n 2 ≡ false = ground arith in
    let one : n / n ≡ 1 = div_self (omega (arith, h)) in
    rw big (isqrt_loop-exits n n n ((n + 1) / 2) (omega arith) (rw one refl))

-- A tracker with the settings, the gate and the run of another.
record SameRun (s s' : SilenceTracker) : Type 0 where
  silence : s'.silence_ms ≡ s.silence_ms
  frame : s'.frame_ms ≡ s.frame_ms
  run : s'.run_ms ≡ s.run_ms
  speech : s'.speech_started ≡ s.speech_started

update_floor-SameRun : (s : SilenceTracker) (r : ℕ) → SameRun s (update_floor s r)
unfolding update_floor
update_floor-SameRun s r =
    let seen = if ltb s.seen_frames 4294967295 then s.seen_frames + 1 else 4294967295 in
    elim (Bool-cases (leb seen floor_warmup_frames)) [
      | inl warm ↦ rw warm (record { silence = refl; frame = refl; run = refl; speech = refl })
      | inr on ↦ rw on (record { silence = refl; frame = refl; run = refl; speech = refl })
    ]

quiet_test : (r bar : ℕ) → r < bar → leb bar r ≡ false
quiet_test r bar h = ground arith

heard_speaking :
    (s : SilenceTracker) (r bar : ℕ)
    → s.speech_started ≡ true
    → r < bar
    → heard s r bar ≡ (
      record s { run_ms = u32 (s.run_ms + s.frame_ms) },
      leb s.silence_ms (u32 (s.run_ms + s.frame_ms)),
    )
unfolding heard
heard_speaking s r bar on h = simp (quiet_test r bar h, on) refl

heard_waiting :
    (s : SilenceTracker) (r bar : ℕ)
    → s.speech_started ≡ false
    → r < bar
    → heard s r bar ≡ (s, false)
unfolding heard
heard_waiting s r bar off h = simp (quiet_test r bar h, off) refl

-- The tracker after some frames, and that each of them is below the threshold at its time.
unfoldable pub after : SilenceTracker → List (List ℕ) → SilenceTracker
after s [] = s
after s (f ∷ fs) = after (push s f).0 fs

unfoldable pub AllQuiet : SilenceTracker → List (List ℕ) → Type 0
AllQuiet s [] = Unit
AllQuiet s (f ∷ fs) = (rms f < threshold s) × AllQuiet (push s f).0 fs

-- The time of some frames.
abbrev pub total : ℕ → List (List ℕ) → ℕ
total ms [] = 0
total ms (f ∷ fs) = ms + total ms fs

push_waiting :
    (s : SilenceTracker) (f : List ℕ)
    → s.speech_started ≡ false
    → rms f < threshold s
    → ((push s f).1 ≡ false) × ((push s f).0.speech_started ≡ false)
unfolding push
push_waiting s f off h =
    let s₁ = update_floor s (rms f) in
    let k = update_floor-SameRun s (rms f) in
    rw (heard_waiting s₁ (rms f) (threshold s) (k.speech ∙ off) h) (refl, k.speech ∙ off)

-- A speaking tracker that has gone one quiet frame further.
record Further (s s' : SilenceTracker) : Type 0 where
  silence : s'.silence_ms ≡ s.silence_ms
  frame : s'.frame_ms ≡ s.frame_ms
  run : s'.run_ms ≡ u32 (s.run_ms + s.frame_ms)
  speech : s'.speech_started ≡ true

push_speaking :
    (s : SilenceTracker) (f : List ℕ)
    → s.speech_started ≡ true
    → rms f < threshold s
    → ((push s f).1 ≡ leb s.silence_ms (u32 (s.run_ms + s.frame_ms))) × Further s (push s f).0
unfolding push
push_speaking s f on h =
    let s₁ = update_floor s (rms f) in
    let k = update_floor-SameRun s (rms f) in
    let runs : u32 (s₁.run_ms + s₁.frame_ms) ≡ u32 (s.run_ms + s.frame_ms) =
      simp (k.run, k.frame) refl in
    rw (heard_speaking s₁ (rms f) (threshold s) (k.speech ∙ on) h) (
      ap (λ a. leb a (u32 (s₁.run_ms + s₁.frame_ms))) k.silence ∙ ap (leb s.silence_ms) runs,
      record { silence = k.silence; frame = k.frame; run = runs; speech = k.speech ∙ on },
    )

waiting_quiet :
    (s : SilenceTracker) (fs : List (List ℕ)) (f : List ℕ)
    → s.speech_started ≡ false
    → AllQuiet s (fs ++ f ∷ [])
    → (push (after s fs) f).1 ≡ false
unfolding after AllQuiet
waiting_quiet s [] f off q = (push_waiting s f off q.0).0
waiting_quiet s (g ∷ fs) f off q = waiting_quiet (push s g).0 fs f (push_waiting s g off q.0).1 q.1

speaking_quiet :
    (s : SilenceTracker) (fs : List (List ℕ)) (f : List ℕ)
    → s.speech_started ≡ true
    → AllQuiet s (fs ++ f ∷ [])
    → s.run_ms + total s.frame_ms (fs ++ f ∷ []) < 4294967296
    → (push (after s fs) f).1 ≡ leb s.silence_ms (s.run_ms + total s.frame_ms (fs ++ f ∷ []))
unfolding after AllQuiet
speaking_quiet s [] f on q h =
    let fits : u32 (s.run_ms + s.frame_ms) ≡ s.run_ms + (s.frame_ms + 0) = omega (arith, h) in
    (push_speaking s f on q.0).0 ∙ ap (leb s.silence_ms) fits
speaking_quiet s (g ∷ fs) f on q h =
    let k = (push_speaking s g on q.0).1 in
    let rest = total s.frame_ms (fs ++ f ∷ []) in
    let s' = (push s g).0 in
    let fits : u32 (s.run_ms + s.frame_ms) ≡ s.run_ms + s.frame_ms = omega (arith, h) in
    let sum : s'.run_ms + total s'.frame_ms (fs ++ f ∷ []) ≡ s.run_ms + (s.frame_ms + rest) =
      ap (λ a. s'.run_ms + total a (fs ++ f ∷ [])) k.frame
      ∙ ap (λ a. a + rest) (k.run ∙ fits)
      ∙ omega arith in
    let below : s'.run_ms + total s'.frame_ms (fs ++ f ∷ []) < 4294967296 = rw sum h in
    speaking_quiet s' fs f k.speech q.1 below
    ∙ ap (λ a. leb a (s'.run_ms + total s'.frame_ms (fs ++ f ∷ []))) k.silence
    ∙ ap (leb s.silence_ms) sum

quiet_ends :
    (s : SilenceTracker) (fs : List (List ℕ)) (f : List ℕ)
    → AllQuiet s (fs ++ f ∷ [])
    → s.run_ms + total s.frame_ms (fs ++ f ∷ []) < 4294967296
    → (push (after s fs) f).1
      ≡ (s.speech_started && leb s.silence_ms (s.run_ms + total s.frame_ms (fs ++ f ∷ [])))
quiet_ends s fs f q h = elim (Bool-cases s.speech_started) [
  | inl on ↦
      speaking_quiet s fs f on q h
      ∙ ap (λ b. b && leb s.silence_ms (s.run_ms + total s.frame_ms (fs ++ f ∷ []))) (sym on)
  | inr off ↦
      waiting_quiet s fs f off q
      ∙ ap (λ b. b && leb s.silence_ms (s.run_ms + total s.frame_ms (fs ++ f ∷ []))) (sym off)
]

-- A tracker after a loud frame: speech has started, and no quiet time is counted.
record Loudened (s s' : SilenceTracker) : Type 0 where
  silence : s'.silence_ms ≡ s.silence_ms
  frame : s'.frame_ms ≡ s.frame_ms
  run : s'.run_ms ≡ 0
  speech : s'.speech_started ≡ true

push_loud :
    (s : SilenceTracker) (f : List ℕ)
    → threshold s ≤ rms f
    → ((push s f).1 ≡ false) × Loudened s (push s f).0
unfolding push heard
push_loud s f h =
    let loud : leb (threshold s) (rms f) ≡ true = ground (arith, h) in
    let k = update_floor-SameRun s (rms f) in
    rw loud (refl, record { silence = k.silence; frame = k.frame; run = refl; speech = refl })

-- The frames of a run of quiet, which a loud frame may precede.
abbrev pub after_loud : SilenceTracker → Option (List ℕ) → SilenceTracker
after_loud s none = s
after_loud s (some g) = (push s g).0

abbrev pub IsLoud : SilenceTracker → Option (List ℕ) → Type 0
IsLoud s none = Unit
IsLoud s (some g) = threshold s ≤ rms g

abbrev pub reported : SilenceTracker → Option (List ℕ) → Bool
reported s none = false
reported s (some g) = (push s g).1

-- The quiet time that is counted before the run.
abbrev pub counted : SilenceTracker → Option (List ℕ) → ℕ
counted s none = s.run_ms
counted s (some g) = 0

-- Silence ends an utterance in time, and only after speech. At the last of a run of quiet frames, each below the
-- threshold at its time, the tracker reports the end exactly if speech had started, be it with a loud frame just
-- before the run or earlier, and the quiet time is as long as the silence that is asked for: that of the run
-- and, without a loud frame before it, the time counted until then. A loud frame, one that reaches the threshold
-- at its time, ends nothing. The quiet time must fit a `u32`.
pub silence_ends :
    (s : SilenceTracker) (g : Option (List ℕ)) (fs : List (List ℕ)) (f : List ℕ)
    → IsLoud s g
    → AllQuiet (after_loud s g) (fs ++ f ∷ [])
    → counted s g + total s.frame_ms (fs ++ f ∷ []) < 4294967296
    → (reported s g ≡ false)
      × ((push (after (after_loud s g) fs) f).1 ≡ (
          (s.speech_started || is_some g)
          && leb s.silence_ms (counted s g + total s.frame_ms (fs ++ f ∷ []))))
silence_ends s none fs f l q h = (
  refl,
  quiet_ends s fs f q h
      ∙ ap (λ b. b && leb s.silence_ms (s.run_ms + total s.frame_ms (fs ++ f ∷ [])))
          (sym (or_false s.speech_started)),
)
  where
    or_false : (b : Bool) → (b || false) ≡ b
    or_false true = refl
    or_false false = refl
silence_ends s (some g) fs f l q h =
    let (quiet, k) = push_loud s g l in
    let s' = (push s g).0 in
    let sum : s'.run_ms + total s'.frame_ms (fs ++ f ∷ []) ≡ 0 + total s.frame_ms (fs ++ f ∷ []) =
      ap (λ a. a + total s'.frame_ms (fs ++ f ∷ [])) k.run
      ∙ ap (λ a. 0 + total a (fs ++ f ∷ [])) k.frame in
    (
      quiet,
      speaking_quiet s' fs f k.speech q (rw sum h)
          ∙ ap (λ a. leb a (s'.run_ms + total s'.frame_ms (fs ++ f ∷ []))) k.silence
          ∙ ap (leb s.silence_ms) sum
          ∙ ap (λ b. b && leb s.silence_ms (0 + total s.frame_ms (fs ++ f ∷ [])))
              (sym (or_true s.speech_started)),
    )
  where
    or_true : (b : Bool) → (b || true) ≡ true
    or_true true = refl
    or_true false = refl
