-- ===== src/Tests/Router.antt =====
-- The router at a conversation of two utterances.
use athena_voice.Base.{ℕ, ◌≡◌, ◌++◌, true, false, none, some, List, [], ◌∷◌, Result, ok, err, arith}
use athena_voice.Text.{codes}
use athena_voice.Pipeline.Router.{
  RuleMatch, RouterDeps, Router, RouterInput, SkillResponse, speak, transcript, closed, outcome,
  skill_cancelled, on_final,
}
use athena_voice.Pipeline.Router.Loop.{handle_outcome, run_router}
use athena_voice.Pipeline.Router.Laws.{superseded_silent}
use athena_voice.Pipeline.Router.Turns.{Sends, tts_of, llm_of, handle_outcome-Sends}

abbrev with_skills : RouterDeps
with_skills = record { locale = record { as_str = codes "fr" }; has_dispatcher = true }

abbrev timer_match : RuleMatch
timer_match = record {
  skill = codes "timer";
  intent = codes "set";
  slots = (codes "minutes", none) ∷ [];
  confidence = 9;
}

-- A router that waits for the timer skill since its third utterance.
abbrev busy : Router
busy = record {
  epoch = 3;
  pending_dispatch = some (record { epoch = 3; skill = codes "timer"; cancel = 0 });
  prior_work_in_flight = false;
  rx_closed = false;
  events = [];
  to_llm = record { sent = []; left = 4 };
  to_tts = record { sent = []; left = 4 };
  calls =
      record {
        epoch = 3;
        skill = codes "timer";
        intent = codes "set";
        slots = [];
        locale = codes "fr";
      }
      ∷ [];
  cancelled = [];
}

abbrev meanwhile : List (RouterInput ℕ)
meanwhile = transcript (codes "et") false none ∷ outcome 4 (codes "timer") (err 1) ∷ closed ∷ []

abbrev late : Result SkillResponse ℕ
late = ok (speak (codes "trop tard"))

superseded_silent_example :
    let r =
      run_router with_skills
        (on_final with_skills (codes "stop") (some timer_match) busy).0
        meanwhile in
    ((handle_outcome 3 (codes "timer") late r).to_tts ≡ r.to_tts)
    × ((handle_outcome 3 (codes "timer") late r).to_llm ≡ r.to_llm)
    × ((handle_outcome 3 (codes "timer") late r).events
        ≡ r.events ++ skill_cancelled (codes "timer") ∷ [])
superseded_silent_example =
    superseded_silent with_skills busy (codes "stop") (some timer_match) meanwhile 3 (codes "timer")
      late (ground arith) (ground arith)

handle_outcome-Sends_example :
    Sends (tts_of late) (llm_of late) busy (handle_outcome 3 (codes "timer") late busy)
handle_outcome-Sends_example =
    handle_outcome-Sends (codes "timer") late busy (ground arith) (ground arith)
