-- ===== src/Tests/Mic.antt =====
-- The silence tracker at a pause after speech.
use athena_voice.Base.{
  ◌+◌, ℕ, ◌≡◌, ◌&&◌, ◌||◌, false, some, ◌++◌, refl, true, none, List, [], ◌∷◌, leb, arith,
}
use athena_voice.Satellite.Mic.{SilenceTracker, rms, isqrt, threshold, push}
use athena_voice.Satellite.Mic.Silence.{
  after, AllQuiet, total, after_loud, IsLoud, reported, silence_ends,
}

-- A tracker that has heard nothing and wants 40 ms of silence.
abbrev waiting : SilenceTracker
waiting = record {
  min_threshold = 500;
  silence_ms = 40;
  frame_ms = 20;
  run_ms = 0;
  floor = none;
  seen_frames = 3;
  speech_started = false;
}

abbrev hum : List ℕ
hum = 3 ∷ 65535 ∷ []

abbrev word : List ℕ
word = 2000 ∷ 63536 ∷ []

loud : IsLoud waiting (some word)
unfolding rms isqrt threshold
loud = omega arith

quiet : AllQuiet (after_loud waiting (some word)) ((hum ∷ []) ++ hum ∷ [])
unfolding AllQuiet rms isqrt threshold push
quiet = (omega arith, (omega arith, tt))

silence_ends_example :
    (reported waiting (some word) ≡ false)
    × ((push (after (after_loud waiting (some word)) (hum ∷ [])) hum).1
        ≡ ((false || true) && leb 40 (0 + total 20 ((hum ∷ []) ++ hum ∷ []))))
silence_ends_example = silence_ends waiting (some word) (hum ∷ []) hum loud quiet (omega arith)

ended : (push (after (after_loud waiting (some word)) (hum ∷ [])) hum).1 ≡ true
unfolding after rms isqrt threshold push
ended = refl
