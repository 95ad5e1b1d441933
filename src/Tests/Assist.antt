-- ===== src/Tests/Assist.antt =====
-- The assist bridge at concrete inputs.
use athena_voice.Base.{◌≡◌, refl, ◌↔◌, true, false, some, List, [], ◌∷◌, ◌++◌, take, arith}
use athena_voice.Base.Dict.{lookup}
use athena_voice.Text.{codes, text_eq}
use athena_voice.Pipeline.Llm.{token, answer_end}
use athena_voice.Assist.Topics.{parse_transcription}
use athena_voice.Assist.Topics.Parsing.{IsLevel, question_topic, parse_transcription_iff}
use athena_voice.Assist.Actor.{
  Input, question, queued, message, idle_elapsed, run_loop, run_device_actor, opened, Actor,
}
use athena_voice.Assist.Actor.Loader.{watch, still, run_device_actor-still}
use athena_voice.Assist.Actor.Supersede.{run_loop-question}
use athena_voice.Assist.Bridge.{Bridge, route_all, exit}
use athena_voice.Assist.Bridge.Kept.{Waits, Handed, route_all-Waits, exit-Handed}

abbrev talk : List Input
talk =
    question (codes "quelle heure") 1000 true
    ∷ queued (token (codes "Il est "))
    ∷ message 1500
    ∷ question (codes "et demain") 2000 true
    ∷ queued (token (codes "Demain il pleut. "))
    ∷ message 2500
    ∷ queued answer_end
    ∷ message 2600
    ∷ idle_elapsed
    ∷ []

run_device_actor-still_example : watch still (run_device_actor 60000 0 talk).published ≡ still
run_device_actor-still_example = run_device_actor-still 60000 0 talk

abbrev busy : Actor
busy =
    run_loop 60000
      (question (codes "quelle heure") 1000 true ∷ queued (token (codes "Il est midi. ")) ∷ [])
      (opened 60000 0)

run_loop-question_example :
    (run_loop 60000 (question (codes "et demain") 2000 true ∷ talk) busy).published
    ≡ busy.published
      ++ (run_loop 60000 (question (codes "et demain") 2000 true ∷ talk) (opened 60000 0)).published
run_loop-question_example = run_loop-question 60000 (codes "et demain") 2000 0 true talk busy

parse_transcription_iff_example :
    (parse_transcription (codes "assist") (codes "assist/transcription/pixel")
      ≡ some (codes "pixel"))
    ↔ ((codes "assist/transcription/pixel" ≡ question_topic (codes "assist") (codes "pixel"))
        × IsLevel (codes "pixel"))
parse_transcription_iff_example =
    parse_transcription_iff (codes "assist") (codes "assist/transcription/pixel") (codes "pixel")

abbrev bridge : Bridge
bridge = record {
  devices = (codes "pixel", 4) ∷ [];
  boxes = (4, record { queue = codes "a" ∷ codes "b" ∷ []; open_ = true }) ∷ [];
  next_channel = 5;
  spawned = (codes "pixel", 4) ∷ [];
  is_cancelled = false;
}

bridge-Waits : Waits (codes "pixel") 4 (codes "a" ∷ codes "b" ∷ []) bridge
unfolding lookup text_eq
bridge-Waits = (refl, refl)

route_all-Waits_example :
    Waits
      (codes "pixel")
      4
      ((codes "a" ∷ codes "b" ∷ []) ++ take 6 (codes "c" ∷ []))
      (route_all (codes "pixel") (codes "c" ∷ []) bridge)
    × ((route_all (codes "pixel") (codes "c" ∷ []) bridge).spawned ≡ bridge.spawned)
route_all-Waits_example =
    route_all-Waits (codes "pixel") (codes "c" ∷ []) 4 6 (codes "a" ∷ codes "b" ∷ []) bridge refl
      bridge-Waits

exit-Handed_example :
    Handed (codes "pixel") (codes "a" ∷ codes "b" ∷ []) bridge (exit (codes "pixel") 4 bridge)
exit-Handed_example =
    exit-Handed (codes "pixel") 4 (codes "a" ∷ codes "b" ∷ []) bridge bridge-Waits (omega arith)
      refl
