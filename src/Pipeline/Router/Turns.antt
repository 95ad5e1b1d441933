-- ===== src/Pipeline/Router/Turns.antt =====
-- Every utterance is taken up once, and every turn ends.
use athena_voice.Base.{
  ℕ, ◌<◌, ◌≡◌, ap, sym, ◌∙◌, true, List, [], ◌∷◌, ◌++◌, append_assoc, append-nil, ◌==◌, Result, ok,
  err, arith,
}
use athena_voice.Text.{Text}
use athena_voice.Pipeline.Channel.{send, send_room}
use athena_voice.Pipeline.Llm.{TtsMsg, token, answer_end}
use athena_voice.Pipeline.Router.{
  SkillResponse, speak, ask_llm, empty, sampled_pcm, sampled_opus, volume, Router, prompt_llm, emit,
  ensure_sentence_boundary,
}
use athena_voice.Pipeline.Router.Loop.{handle_outcome, on_result, on_speak, end_turn, clear_pending}

-- What an answer of a skill sends to the speech synthesis, and to the language model.
abbrev pub tts_of {ℓ} : {E : Type ℓ} → Result SkillResponse E → List TtsMsg
tts_of (ok (speak text)) = token (ensure_sentence_boundary text) ∷ answer_end ∷ []
tts_of (ok (ask_llm prompt)) = []
tts_of (ok empty) = answer_end ∷ []
tts_of (ok (sampled_pcm rate samples)) = answer_end ∷ []
tts_of (ok (sampled_opus frames)) = answer_end ∷ []
tts_of (ok (volume level)) = answer_end ∷ []
tts_of (err e) = answer_end ∷ []

abbrev pub llm_of {ℓ} : {E : Type ℓ} → Result SkillResponse E → List Text
llm_of (ok (ask_llm prompt)) = prompt ∷ []
llm_of _ = []

-- A router that has sent messages of the two kinds since another.
pub record Sends (tts : List TtsMsg) (llm : List Text) (r r' : Router) : Type 0 where
  pub to_tts : r'.to_tts.sent ≡ r.to_tts.sent ++ tts
  pub to_llm : r'.to_llm.sent ≡ r.to_llm.sent ++ llm

end_turn-Sends : (r : Router) → 0 < r.to_tts.left → Sends (answer_end ∷ []) [] r (end_turn r)
unfolding end_turn
end_turn-Sends r h = record {
  to_tts = (send_room answer_end r.to_tts h).1;
  to_llm = sym (append-nil r.to_llm.sent);
}

module _ {E : Type 0} where
  on_result-Sends :
      (result : Result SkillResponse E) (r : Router)
      → 1 < r.to_tts.left
      → 0 < r.to_llm.left
      → Sends (tts_of result) (llm_of result) r (on_result result r)
  unfolding on_result on_speak end_turn emit prompt_llm
  on_result-Sends (ok (speak text)) r h k =
      let m = token (ensure_sentence_boundary text) in
      let (fine, sent, left) = send_room m r.to_tts (omega (arith, h)) in
      let out = (send m r.to_tts).0 in
      let (fine', sent', left') = send_room answer_end out (omega (arith, h, left)) in
      rw fine (record {
        to_tts =
            sent'
            ∙ ap (λ x. x ++ answer_end ∷ []) sent
            ∙ append_assoc r.to_tts.sent (m ∷ []) (answer_end ∷ []);
        to_llm = sym (append-nil r.to_llm.sent);
      })
  on_result-Sends (ok (ask_llm prompt)) r h k = record {
    to_tts = sym (append-nil r.to_tts.sent);
    to_llm = (send_room prompt r.to_llm k).1;
  }
  on_result-Sends (ok empty) r h k = end_turn-Sends r (omega (arith, h))
  on_result-Sends (ok (sampled_pcm rate samples)) r h k = record {
    to_tts = (send_room answer_end r.to_tts (omega (arith, h))).1;
    to_llm = sym (append-nil r.to_llm.sent);
  }
  on_result-Sends (ok (sampled_opus frames)) r h k = record {
    to_tts = (send_room answer_end r.to_tts (omega (arith, h))).1;
    to_llm = sym (append-nil r.to_llm.sent);
  }
  on_result-Sends (ok (volume level)) r h k = record {
    to_tts = (send_room answer_end r.to_tts (omega (arith, h))).1;
    to_llm = sym (append-nil r.to_llm.sent);
  }
  on_result-Sends (err e) r h k = end_turn-Sends r (omega (arith, h))

  -- Every turn of a skill ends: as long as the next stages take messages, an outcome of the current utterance
  -- is either a prompt for the language model, which then ends the turn, or is followed by one end of the
  -- answer, behind its spoken text if it has one; an error and a silent answer end the turn too.
  pub handle_outcome-Sends :
      (skill : Text) (result : Result SkillResponse E) (r : Router)
      → 1 < r.to_tts.left
      → 0 < r.to_llm.left
      → Sends (tts_of result) (llm_of result) r (handle_outcome r.epoch skill result r)
  unfolding handle_outcome
  handle_outcome-Sends skill result r h k =
      let r' = record r { pending_dispatch = clear_pending r.epoch skill r.pending_dispatch } in
      let v = on_result-Sends result r' h k in
      rw (same r.epoch) (record { to_tts = v.to_tts; to_llm = v.to_llm })
    where
      same : (a : ℕ) → (a == a) ≡ true
      same a = ground arith
