-- ===== src/Satellite/Mic.antt =====
-- The end of an utterance, of satellite-esp32/src/mic.rs.
-- A sample is the 16 bits of an `i16`. The loop of `isqrt` runs on fuel; its first guess is enough fuel, since
-- the guess falls in each turn (Mic/Silence).
pub mod Silence
use athena_voice.Base.{
  ℕ, zero, suc, ◌+◌, ◌-◌, ◌*◌, ◌/◌, ◌%◌, max, Bool, true, false, not, Option, none, some, List, [],
  ◌∷◌, ltb, leb, if◌then◌else◌, length,
}

abbrev pub u32 : ℕ → ℕ
u32 n = n % 4294967296

-- 10 frames
abbrev pub floor_warmup_frames : ℕ
floor_warmup_frames = 10

pub record SilenceTracker : Type 0 where
  pub min_threshold : ℕ
  pub silence_ms : ℕ
  pub frame_ms : ℕ
  pub run_ms : ℕ
  pub floor : Option ℕ
  pub seen_frames : ℕ
  pub speech_started : Bool

pub new : ℕ → ℕ → ℕ → SilenceTracker
new min_threshold silence_ms frame_ms = record {
  min_threshold = min_threshold;
  silence_ms = silence_ms;
  frame_ms = frame_ms;
  run_ms = 0;
  floor = none;
  seen_frames = 0;
  speech_started = false;
}

pub reset : SilenceTracker → SilenceTracker
reset s = record s { run_ms = 0; speech_started = false }

-- `while y < x`
isqrt_loop : (fuel : ℕ) → ℕ → ℕ → ℕ → ℕ
isqrt_loop zero n x y = x
isqrt_loop (suc fuel) n x y =
    let rest = isqrt_loop fuel n y ((y + n / y) / 2) in if ltb y x then rest else x

unfoldable pub isqrt : ℕ → ℕ
unfolding isqrt_loop
isqrt n = if ltb n 2 then n else isqrt_loop n n n ((n + 1) / 2)

-- The square of a sample.
square : ℕ → ℕ
square bits = if ltb bits 32768 then bits * bits else (65536 - bits) * (65536 - bits)

sum_sq : List ℕ → ℕ
unfolding square
sum_sq [] = 0
sum_sq (s ∷ frame) = square s + sum_sq frame

unfoldable pub rms : List ℕ → ℕ
unfolding sum_sq
rms [] = 0
rms (s ∷ frame) = u32 (isqrt (sum_sq (s ∷ frame) / length (s ∷ frame)))

-- `saturating_mul(3)` of the floor
triple : Option ℕ → ℕ
triple none = 0
triple (some f) = if ltb (f * 3) 4294967296 then f * 3 else 4294967295

unfoldable pub threshold : SilenceTracker → ℕ
unfolding triple
threshold s = max (triple s.floor) s.min_threshold

next_floor : Option ℕ → ℕ → ℕ
next_floor none r = max r 1
next_floor (some f) r = if ltb r f then f - (f - r + 7) / 8 else u32 (f + max (f / 4096) 1)

update_floor : SilenceTracker → ℕ → SilenceTracker
unfolding next_floor
update_floor s r =
    let seen = if ltb s.seen_frames 4294967295 then s.seen_frames + 1 else 4294967295 in
    if leb seen floor_warmup_frames
    then record s { seen_frames = seen }
    else record s { seen_frames = seen; floor = some (next_floor s.floor r) }

pub observe : SilenceTracker → List ℕ → SilenceTracker
unfolding update_floor
observe s frame = update_floor s (rms frame)

-- `push` behind the update of the floor, with the frame's level and the threshold before it.
heard : SilenceTracker → ℕ → ℕ → SilenceTracker × Bool
heard s r bar =
    if leb bar r
    then (record s { speech_started = true; run_ms = 0 }, false)
    else if not s.speech_started
    then (s, false)
    else (
      record s { run_ms = u32 (s.run_ms + s.frame_ms) },
      leb s.silence_ms (u32 (s.run_ms + s.frame_ms)),
    )

unfoldable pub push : SilenceTracker → List ℕ → SilenceTracker × Bool
unfolding heard update_floor
push s frame = heard (update_floor s (rms frame)) (rms frame) (threshold s)
