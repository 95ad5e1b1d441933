-- ===== src/Intent/Engine.antt =====
-- The search for the best rule, of crates/athena-voice-runtime/src/intent/engine.rs. The confidences are floating
-- point numbers, a parameter with the three tests that the search makes; what a phrase and an input give is a
-- parameter of the search, `try_match_phrase`. The splitting of phrases and the normalisation of literals are
-- below it.
pub mod Best
pub mod Phrases
use athena_voice.Base.{
  ℕ, Bool, true, false, ◌||◌, not, Option, none, some, List, [], ◌∷◌, ◌++◌, ltb, ◌==◌,
  if◌then◌else◌, any,
}
use athena_voice.Text.{Text, text_eq, is_empty}
use athena_voice.Intent.Rules.{
  HostSlotKind, string_kind, number_kind, one_of, HostSlotSpec, HostPatternRule, RuleEntry,
  RuleIndex, for_locale,
}

-- The tests on confidences: at least `MATCH_THRESHOLD`; apart by at most `SPECIFICITY_EPSILON`; greater.
pub record Confidences : Type 1 where
  pub F32 : Type 0
  pub reaches : F32 → Bool
  pub near : F32 → F32 → Bool
  pub above : F32 → F32 → Bool

module _ (floats : Confidences) where
  open floats use {F32, reaches, near, above}

  pub record IntentMatch : Type 0 where
    pub intent : Text
    pub slots : List (Text × Option Text)
    pub skill : Text
    pub confidence : F32
    pub specificity : ℕ

  -- The closure `better` of the search.
  unfoldable pub beats : IntentMatch → IntentMatch → Bool
  beats m b =
      if near m.confidence b.confidence
      then ltb b.specificity m.specificity
      else above m.confidence b.confidence

  pick : Option IntentMatch → IntentMatch → Option IntentMatch
  unfolding beats
  pick none m = some m
  pick (some b) m = if beats m b then some m else some b

  abbrev with_skill : Text → IntentMatch → IntentMatch
  with_skill skill m = record m { skill = skill }

  -- What one phrase does to the best match so far.
  try_one : Option IntentMatch → Text → Option IntentMatch → Option IntentMatch
  unfolding pick
  try_one none skill best = best
  try_one (some candidate) skill best =
      if reaches candidate.confidence then pick best (with_skill skill candidate) else best

  module _ (try_match_phrase : Text → HostPatternRule → Text → Option IntentMatch) where
    try_phrases :
        List Text → HostPatternRule → Text → Text → Option IntentMatch → Option IntentMatch
    unfolding try_one
    try_phrases [] rule skill text best = best
    try_phrases (phrase ∷ phrases) rule skill text best =
        try_phrases phrases rule skill text (try_one (try_match_phrase phrase rule text) skill best)

    try_rules : List RuleEntry → Text → Option IntentMatch → Option IntentMatch
    unfolding try_phrases
    try_rules [] text best = best
    try_rules ((rule, skill) ∷ rules) text best =
        try_rules rules text (try_phrases rule.phrases rule skill text best)

    search : Option (List RuleEntry) → Text → Option IntentMatch
    unfolding try_rules
    search none text = none
    search (some rules) text = try_rules rules text none

    unfoldable pub find_match : Text → Text → RuleIndex → Option IntentMatch
    unfolding search
    find_match text locale index = search (for_locale locale index) text

pub data Segment : Type 0 where
  literal : Text → Segment
  slot : Text → Segment

abbrev flush : Text → List Segment → List Segment
flush [] segments = segments
flush (c ∷ buf) segments = literal (c ∷ buf) ∷ segments

-- The loop of `split_phrase`; `in_slot` is whether the inner loop over a slot's name runs, and `buf` is the
-- literal or the name at hand.
split_from : Bool → Text → Text → List Segment
split_from false buf [] = flush buf []
split_from true name [] = slot name ∷ []
split_from false buf (c ∷ t) =
    let name = split_from true [] t in
    let more = split_from false (buf ++ c ∷ []) t in if c == b'{' then flush buf name else more
split_from true name (c ∷ t) =
    let rest = split_from false [] t in
    let more = split_from true (name ++ c ∷ []) t in if c == b'}' then slot name ∷ rest else more

unfoldable pub split_phrase : Text → List Segment
unfolding split_from
split_phrase phrase = split_from false [] phrase

-- `normalize_literal` behind `to_lowercase`; `pending_space` and the text so far are the loop's state.
normalize_from : (ℕ → Bool) → Bool → Text → Text → Text
normalize_from is_alphanumeric pending_space out [] = out
normalize_from is_alphanumeric pending_space out (c ∷ t) =
    let kept =
      normalize_from is_alphanumeric false
        (out ++ (if pending_space then (if is_empty out then [] else b' ' ∷ []) else []) ++ c ∷ [])
        t in
    let dropped = normalize_from is_alphanumeric true out t in
    if is_alphanumeric c || (c == 0x27 || c == b'-') then kept else dropped

unfoldable pub normalize_literal : (Text → Text) → (ℕ → Bool) → Text → Text
unfolding normalize_from
normalize_literal to_lowercase is_alphanumeric s =
    normalize_from is_alphanumeric false [] (to_lowercase s)

-- `iter().find(|s| s.name == slot_name)`
find_slot : Text → List HostSlotSpec → Option HostSlotSpec
find_slot slot_name [] = none
find_slot slot_name (s ∷ ss) =
    let rest = find_slot slot_name ss in if text_eq s.name slot_name then some s else rest

-- The tests on the text of a slot: whether it parses as a float, and equality up to ASCII case.
module _ (parses_f64 : Text → Bool) (eq_ignore_ascii_case : Text → Text → Bool) where
  of_kind : Text → HostSlotKind → Bool
  of_kind raw string_kind = true
  of_kind raw number_kind = parses_f64 raw
  of_kind raw (one_of options) = any (λ o. eq_ignore_ascii_case o raw) options

  of_spec : Text → Option HostSlotSpec → Bool
  unfolding of_kind
  of_spec raw none = true
  of_spec raw (some spec) = of_kind raw spec.kind

  unfoldable pub slot_matches_kind : Text → HostPatternRule → Text → Bool
  unfolding of_spec find_slot
  slot_matches_kind raw rule slot_name = of_spec raw (find_slot slot_name rule.slots)
