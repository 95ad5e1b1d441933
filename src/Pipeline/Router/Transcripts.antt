-- ===== src/Pipeline/Router/Transcripts.antt =====
-- What becomes of a final transcript.
use athena_voice.Base.Select.{select}
use athena_voice.Base.{
  map, not, true, ℕ, ◌+◌, ◌≡◌, Bool, false, Option, none, some, List, [], ◌∷◌, ◌++◌, if◌then◌else◌,
  is_some, length,
}
use athena_voice.Text.{Text, codes}
use athena_voice.Pipeline.Router.{
  RuleMatch, PendingDispatch, RouterDeps, Router, Call, RouterEvent, barge_in, intent_matched,
  llm_fallback, skill_invoked, no_match, missing_slots, join_comma, has_prior_work, next_epoch,
}

-- The skill calls, and the prompts, that a transcript with its match is worth.
abbrev pub calls_of : RouterDeps → ℕ → Option RuleMatch → List Call
calls_of deps epoch none = []
calls_of deps epoch (some m) =
    if deps.has_dispatcher
    then record {
      epoch = epoch;
      skill = m.skill;
      intent = m.intent;
      slots = m.slots;
      locale = deps.locale.as_str;
    }
      ∷ []
    else []

-- The slots of a match that have no value.
abbrev pub open_slots : List (Text × Option Text) → List Text
open_slots slots = map (λ s. s.0) (select (λ s. not (is_some s.1)) slots)

-- A prompt that asks for slots.
abbrev pub question_for : Text → Text → List Text → Text
question_for text intent slots =
    codes "The user said \""
    ++ (text
        ++ (codes "\". The matched intent "
            ++ (intent
                ++ (codes " needs the value for slots "
                    ++ (join_comma slots
                        ++ codes ". Ask a short follow-up question to obtain it.")))))

abbrev pub prompt_for : Text → RuleMatch → List Text → Text
prompt_for text m [] = text
prompt_for text m (k ∷ ks) = question_for text m.intent (k ∷ ks)

abbrev pub prompts_of : RouterDeps → Text → Option RuleMatch → List Text
prompts_of deps text none = text ∷ []
prompts_of deps text (some m) =
    if deps.has_dispatcher then [] else prompt_for text m (open_slots m.slots) ∷ []

-- What is announced of a match, and of a transcript that goes to the language model.
abbrev pub fallback_of : Bool → List Text → List RouterEvent
fallback_of true [] = []
fallback_of false [] = llm_fallback no_match [] ∷ []
fallback_of called (k ∷ ks) = llm_fallback missing_slots (k ∷ ks) ∷ []

abbrev pub announced : RouterDeps → Option RuleMatch → List RouterEvent
announced deps none = llm_fallback no_match [] ∷ []
announced deps (some m) =
    if deps.has_dispatcher
    then intent_matched m ∷ fallback_of true (open_slots m.slots)
    else intent_matched m ∷ skill_invoked m.skill ∷ fallback_of false (open_slots m.slots)

-- The call that is pending then, which is the last one made.
abbrev pub pending_of : RouterDeps → ℕ → ℕ → Option RuleMatch → Option PendingDispatch
pending_of deps epoch made none = none
pending_of deps epoch made (some m) =
    if deps.has_dispatcher
    then some (record { epoch = epoch; skill = m.skill; cancel = made })
    else none

-- The cancellation tokens of what is pending.
abbrev pub tokens_of_pending : Option PendingDispatch → List ℕ
tokens_of_pending none = []
tokens_of_pending (some p) = p.cancel ∷ []

-- The barge-in, if something of the utterance before is outstanding.
abbrev pub interruption : Router → List RouterEvent
interruption r = if has_prior_work r then barge_in ∷ [] else []

-- The router after a final transcript, by what it was before.
pub record Taken (deps : RouterDeps) (text : Text) (matched : Option RuleMatch) (r r' : Router)
    : Type 0 where
  pub epoch : r'.epoch ≡ next_epoch r.epoch
  pub calls : r'.calls ≡ r.calls ++ calls_of deps (next_epoch r.epoch) matched
  pub prompts : r'.to_llm.sent ≡ r.to_llm.sent ++ prompts_of deps text matched
  pub once :
      length (calls_of deps (next_epoch r.epoch) matched) + length (prompts_of deps text matched)
      ≡ 1
  pub cancelled : r'.cancelled ≡ r.cancelled ++ tokens_of_pending r.pending_dispatch
  pub pending : r'.pending_dispatch ≡ pending_of deps (next_epoch r.epoch) (length r.calls) matched
  pub interrupts : r'.events ≡ (r.events ++ interruption r) ++ announced deps matched

-- A new epoch, with what was outstanding cancelled.
record Superseded (r r₁ : Router) : Type 0 where
  epoch : r₁.epoch ≡ next_epoch r.epoch
  calls : r₁.calls ≡ r.calls
  to_llm : r₁.to_llm ≡ r.to_llm
  cancelled : r₁.cancelled ≡ r.cancelled ++ tokens_of_pending r.pending_dispatch
  events : r₁.events ≡ r.events ++ interruption r
  pending : r₁.pending_dispatch ≡ none

-- What the match adds to a router, with the calls, prompts and events of the transcript.
record Adds (calls : List Call) (prompts : List Text) (es : List RouterEvent)
    (p : Option PendingDispatch) (r₁ r' : Router) : Type 0 where
  epoch : r'.epoch ≡ r₁.epoch
  called : r'.calls ≡ r₁.calls ++ calls
  prompted : r'.to_llm.sent ≡ r₁.to_llm.sent ++ prompts
  cancelled : r'.cancelled ≡ r₁.cancelled
  events : r'.events ≡ r₁.events ++ es
  pending : r'.pending_dispatch ≡ p
