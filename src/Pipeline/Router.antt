-- ===== src/Pipeline/Router.antt =====
-- The router of crates/athena-voice-runtime/src/pipeline/router.rs.
-- What the router reads is a list of inputs in the order in which the `select!` takes them. A transcript
-- comes with what the matcher makes of it, since the rules may be exchanged between two transcripts. The
-- result of a skill is an input as well: a spawned dispatch is a call in the list `calls`, its cancellation
-- token is the place in that list, and what the skill answers is any outcome. JSON values are their texts,
-- with none for null; a confidence and a volume are the bits of the float.
pub mod Loop
pub mod Laws
pub mod Turns
pub mod Transcripts
use athena_voice.Base.{
  ℕ, ◌+◌, ◌/◌, ◌%◌, Bool, true, false, ◌&&◌, ◌||◌, not, Option, none, some, List, [], ◌∷◌, ◌++◌,
  ltb, ◌==◌, if◌then◌else◌, length, is_some, Result, ok, err,
}
use athena_voice.Text.{Text, codes, text_eq, concat, last}
use athena_voice.Core.Ids.{Locale}
use athena_voice.Core.Event.{AudioFormat, f32le, opus}
use athena_voice.Pipeline.Channel.{Channel, send}
use athena_voice.Pipeline.Llm.{TtsMsg, token, answer_end}

-- A matched rule: the skill, and its intent.
pub record RuleMatch : Type 0 where
  pub skill : Text
  pub intent : Text
  pub slots : List (Text × Option Text)
  pub confidence : ℕ

pub data SkillResponse : Type 0 where
  speak : Text → SkillResponse
  ask_llm : Text → SkillResponse
  empty : SkillResponse
  -- the rate and the bits of the samples
  sampled_pcm : ℕ → List ℕ → SkillResponse
  sampled_opus : List ℕ → SkillResponse
  volume : ℕ → SkillResponse

pub data FallbackReason : Type 0 where
  no_match missing_slots : FallbackReason

-- The events of the session that the router puts on the bus.
pub data RouterEvent : Type 0 where
  barge_in : RouterEvent
  intent_matched : RuleMatch → RouterEvent
  llm_fallback : FallbackReason → List Text → RouterEvent
  skill_invoked : Text → RouterEvent
  skill_cancelled : Text → RouterEvent
  audio_chunk : AudioFormat → ℕ → List ℕ → RouterEvent
  volume_changed : ℕ → RouterEvent

-- A call of a skill: `DispatchOutcome` without its result.
pub record Call : Type 0 where
  pub epoch : ℕ
  pub skill : Text
  pub intent : Text
  pub slots : List (Text × Option Text)
  pub locale : Text

pub record PendingDispatch : Type 0 where
  pub epoch : ℕ
  pub skill : Text
  pub cancel : ℕ

pub record RouterDeps : Type 0 where
  pub locale : Locale
  pub has_dispatcher : Bool

pub record Router : Type 0 where
  pub epoch : ℕ
  pub pending_dispatch : Option PendingDispatch
  pub prior_work_in_flight : Bool
  pub rx_closed : Bool
  pub events : List RouterEvent
  pub to_llm : Channel Text
  pub to_tts : Channel TtsMsg
  pub calls : List Call
  pub cancelled : List ℕ

pub data RouterInput (E : Type 0) : Type 0 where
  -- the text, whether it is final, and the match
  transcript : Text → Bool → Option RuleMatch → RouterInput E
  closed : RouterInput E
  outcome : ℕ → Text → Result SkillResponse E → RouterInput E

-- `u64::saturating_add(1)`
abbrev pub next_epoch : ℕ → ℕ
next_epoch e = if ltb e 18446744073709551615 then e + 1 else 18446744073709551615

unfoldable pub ensure_sentence_boundary : Text → Text
ensure_sentence_boundary text = elim (last text) [
  | none ↦ text ++ b'.' ∷ []
  | some c ↦ if c == b'.' || (c == b'!' || c == b'?') then text else text ++ b'.' ∷ []
]

-- `f32::to_le_bytes` of the samples
abbrev pub le_bytes : List ℕ → List ℕ
le_bytes [] = []
le_bytes (s ∷ ss) =
    (s % 256) ∷ ((s / 256) % 256) ∷ ((s / 65536) % 256) ∷ ((s / 16777216) % 256) ∷ le_bytes ss

abbrev pub missing : List (Text × Option Text) → List Text
missing [] = []
missing ((k, none) ∷ slots) = k ∷ missing slots
missing ((k, some v) ∷ slots) = missing slots

-- `join(", ")`
abbrev pub join_comma : List Text → Text
join_comma [] = []
join_comma (t ∷ []) = t
join_comma (t ∷ u ∷ ts) = t ++ codes ", " ++ join_comma (u ∷ ts)

unfoldable pub elicit : Text → Text → List Text → Text
elicit text intent slots = concat (
    codes "The user said \""
    ∷ text
    ∷ codes "\". The matched intent "
    ∷ intent
    ∷ codes " needs the value for slots "
    ∷ join_comma slots
    ∷ codes ". Ask a short follow-up question to obtain it."
    ∷ [])

emit : List RouterEvent → Router → Router
emit es r = record r { events = r.events ++ es }

emit_missing : List Text → List RouterEvent
emit_missing [] = []
emit_missing (k ∷ ks) = llm_fallback missing_slots (k ∷ ks) ∷ []

cancel_pending : Option PendingDispatch → List ℕ
cancel_pending none = []
cancel_pending (some p) = p.cancel ∷ []

pub has_prior_work : Router → Bool
has_prior_work r = is_some r.pending_dispatch || r.prior_work_in_flight

-- A new utterance: the epoch, and the barge-in if something of the previous one is outstanding.
supersede : Router → Router
unfolding has_prior_work cancel_pending
supersede r =
    if has_prior_work r
    then record r {
      epoch = next_epoch r.epoch;
      events = r.events ++ barge_in ∷ [];
      cancelled = r.cancelled ++ cancel_pending r.pending_dispatch;
      pending_dispatch = none;
      prior_work_in_flight = false;
    }
    else record r { epoch = next_epoch r.epoch }

-- A prompt to the language model, after an event. `false` ends the loop.
prompt_llm : List RouterEvent → Text → Router → Router × Bool
prompt_llm es prompt r =
    let (out, fine) = send prompt r.to_llm in
    (
      record r {
        events = r.events ++ es;
        to_llm = out;
        prior_work_in_flight = if fine then true else r.prior_work_in_flight;
      },
      fine,
    )

module _ (deps : RouterDeps) where
  dispatch : RuleMatch → Router → Router
  unfolding emit_missing
  dispatch m r = record r {
    events = r.events ++ intent_matched m ∷ emit_missing (missing m.slots);
    calls =
        r.calls
        ++ record {
          epoch = r.epoch;
          skill = m.skill;
          intent = m.intent;
          slots = m.slots;
          locale = deps.locale.as_str;
        }
          ∷ [];
    pending_dispatch = some (record { epoch = r.epoch; skill = m.skill; cancel = length r.calls });
  }

  -- A match while no dispatcher is wired.
  fall_back : Text → RuleMatch → List Text → Router → Router × Bool
  unfolding prompt_llm
  fall_back text m [] r =
      prompt_llm (intent_matched m ∷ skill_invoked m.skill ∷ llm_fallback no_match [] ∷ []) text r
  fall_back text m (k ∷ ks) r =
      prompt_llm
        (intent_matched m ∷ skill_invoked m.skill ∷ llm_fallback missing_slots (k ∷ ks) ∷ [])
        (elicit text m.intent (k ∷ ks)) r

  on_match : Text → Option RuleMatch → Router → Router × Bool
  unfolding dispatch fall_back
  on_match text none r = prompt_llm (llm_fallback no_match [] ∷ []) text r
  on_match text (some m) r =
      if deps.has_dispatcher then (dispatch m r, true) else fall_back text m (missing m.slots) r

  pub on_final : Text → Option RuleMatch → Router → Router × Bool
  unfolding supersede on_match
  on_final text matched r = on_match text matched (supersede r)
