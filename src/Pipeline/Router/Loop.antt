-- ===== src/Pipeline/Router/Loop.antt =====
-- The outcomes of dispatches, and the loop of the router (pipeline/router.rs).
use athena_voice.Base.{
  ℕ, Bool, true, false, ◌&&◌, not, Option, none, some, List, [], ◌∷◌, ◌==◌, if◌then◌else◌, Result,
  ok, err,
}
use athena_voice.Text.{Text, text_eq}
use athena_voice.Core.Event.{f32le, opus}
use athena_voice.Pipeline.Channel.{send}
use athena_voice.Pipeline.Llm.{token, answer_end}
use athena_voice.Pipeline.Router.{
  SkillResponse, speak, ask_llm, empty, sampled_pcm, sampled_opus, volume, llm_fallback, no_match,
  skill_cancelled, audio_chunk, volume_changed, PendingDispatch, RouterDeps, Router, RouterInput,
  transcript, closed, outcome, ensure_sentence_boundary, le_bytes, emit, prompt_llm, on_final,
}

-- The pending slot after an outcome.
unfoldable pub clear_pending : ℕ → Text → Option PendingDispatch → Option PendingDispatch
clear_pending epoch skill none = none
clear_pending epoch skill (some p) =
    if p.epoch == epoch && text_eq p.skill skill then none else some p

-- A message to the TTS stage whose failure is ignored.
unfoldable pub end_turn : Router → Router
end_turn r = record r { to_tts = (send answer_end r.to_tts).0 }

-- `Speak`: a failed send returns at once, without the end of the answer.
unfoldable pub on_speak : Text → Router → Router
unfolding end_turn
on_speak text r =
    let (out, fine) = send (token (ensure_sentence_boundary text)) r.to_tts in
    if fine
    then end_turn (record r { to_tts = out; prior_work_in_flight = true })
    else record r { to_tts = out }

unfoldable pub finished : Router → Bool
finished r = r.rx_closed && elim (r.pending_dispatch) [ none ↦ true | some p ↦ false ]

module _ {E : Type 0} where
  -- `match result` and what follows it.
  unfoldable pub on_result : Result SkillResponse E → Router → Router
  unfolding on_speak emit prompt_llm
  on_result (ok (speak text)) r = on_speak text r
  on_result (ok (ask_llm prompt)) r = (prompt_llm (llm_fallback no_match [] ∷ []) prompt r).0
  on_result (ok empty) r = end_turn r
  on_result (ok (sampled_pcm rate samples)) r =
      end_turn (emit (audio_chunk f32le rate (le_bytes samples) ∷ []) r)
  on_result (ok (sampled_opus frames)) r = end_turn (emit (audio_chunk opus 48000 frames ∷ []) r)
  on_result (ok (volume level)) r = end_turn (emit (volume_changed level ∷ []) r)
  on_result (err e) r = end_turn r

  unfoldable pub handle_outcome : ℕ → Text → Result SkillResponse E → Router → Router
  unfolding clear_pending on_result emit
  handle_outcome epoch skill result r =
      let r' = record r { pending_dispatch = clear_pending epoch skill r.pending_dispatch } in
      if epoch == r.epoch then on_result result r' else emit (skill_cancelled skill ∷ []) r'

  -- One turn of the loop, and whether it goes on. The branch of the transcripts is off once they are closed.
  unfoldable pub step : RouterDeps → Router → RouterInput E → Router × Bool
  unfolding handle_outcome on_final
  step deps r (outcome epoch skill result) = (handle_outcome epoch skill result r, true)
  step deps r (transcript text is_final matched) =
      if is_final && not r.rx_closed then on_final deps text matched r else (r, true)
  step deps r closed = (record r { rx_closed = true }, true)

  unfoldable pub run_router : RouterDeps → Router → List (RouterInput E) → Router
  unfolding step finished
  run_router deps r [] = r
  run_router deps r (i ∷ is) =
      let (r', go_on) = step deps r i in
      let rest = run_router deps r' is in if finished r then r else if go_on then rest else r'
