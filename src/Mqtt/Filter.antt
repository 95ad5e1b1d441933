-- ===== src/Mqtt/Filter.antt =====
-- The MQTT topic-filter matcher of crates/athena-voice-runtime/src/wasm/host_fns.rs.
pub mod Matching
use athena_voice.Base.{
  ℕ, ◌+◌, Bool, true, false, not, Option, none, some, List, [], ◌∷◌, ◌==◌, if◌then◌else◌, length,
  get_elem?,
}
use athena_voice.Text.{Text, codes, text_eq, split}

-- The loop over `pat_levels.iter().enumerate()`: `n` is the number of pattern levels, `i` the index of
-- the first one that is left.
match_levels : ℕ → ℕ → List Text → List Text → Bool
match_levels n i [] topic_levels = n == length topic_levels
match_levels n i (p ∷ ps) topic_levels =
    let rest = match_levels n (i + 1) ps topic_levels in
    if text_eq p (codes "#") then i + 1 == n else elim (get_elem? topic_levels i) [
      | none ↦ false
      | some t ↦ if text_eq p (codes "+") then rest else if not (text_eq p t) then false else rest
    ]

pub mqtt_topic_matches : Text → Text → Bool
unfolding match_levels
mqtt_topic_matches pattern topic =
    let pat_levels = split b'/' pattern in
    match_levels (length pat_levels) 0 pat_levels (split b'/' topic)
