-- ===== src/Pipeline/Router/Laws.antt =====
-- A superseded utterance stays silent.
use athena_voice.Base.{
  ℕ, ◌≤◌, ◌<◌, ◌≡◌, refl, ◌∙◌, inl, inr, false, ◌&&◌, not, Option, none, some, List, [], ◌∷◌, ◌++◌,
  ◌==◌, Result, ok, err, Bool-cases, arith,
}
use athena_voice.Text.{Text}
use athena_voice.Pipeline.Channel.{send}
use athena_voice.Pipeline.Llm.{token}
use athena_voice.Pipeline.Router.{
  RuleMatch, SkillResponse, speak, ask_llm, empty, sampled_pcm, sampled_opus, volume, RouterDeps,
  Router, RouterInput, transcript, closed, outcome, next_epoch, has_prior_work, supersede,
  skill_cancelled, prompt_llm, dispatch, fall_back, missing, on_match, on_final, emit,
  ensure_sentence_boundary,
}
use athena_voice.Pipeline.Router.Loop.{
  handle_outcome, on_result, on_speak, end_turn, clear_pending, step, finished, run_router,
}

next_epoch-grows : (e : ℕ) → e < 18446744073709551615 → e < next_epoch e
next_epoch-grows e h = ground arith

next_epoch-least : (e : ℕ) → e ≤ 18446744073709551615 → e ≤ next_epoch e
next_epoch-least e h = ground arith

next_epoch-bounded : (e : ℕ) → e ≤ 18446744073709551615 → next_epoch e ≤ 18446744073709551615
next_epoch-bounded e h = ground arith

supersede-epoch : (r : Router) → (supersede r).epoch ≡ next_epoch r.epoch
unfolding supersede
supersede-epoch r = elim (Bool-cases (has_prior_work r)) [
  | inl hit ↦ rw hit refl
  | inr miss ↦ rw miss refl
]

module _ (deps : RouterDeps) where
  on_match-epoch :
      (text : Text) (matched : Option RuleMatch) (r : Router)
      → (on_match deps text matched r).0.epoch ≡ r.epoch
  unfolding on_match prompt_llm dispatch
  on_match-epoch text none r = refl
  on_match-epoch text (some m) r = elim (Bool-cases deps.has_dispatcher) [
    | inl hit ↦ rw hit refl
    | inr miss ↦ rw miss (fallen (missing m.slots))
  ]
    where
      fallen : (ks : List Text) → (fall_back deps text m ks r).0.epoch ≡ r.epoch
      fallen [] = refl
      fallen (k ∷ ks) = refl

  on_final-epoch :
      (text : Text) (matched : Option RuleMatch) (r : Router)
      → (on_final deps text matched r).0.epoch ≡ next_epoch r.epoch
  unfolding on_final
  on_final-epoch text matched r = on_match-epoch text matched (supersede r) ∙ supersede-epoch r

module _ {E : Type 0} where
  on_result-epoch :
      (result : Result SkillResponse E) (r : Router) → (on_result result r).epoch ≡ r.epoch
  unfolding on_result on_speak end_turn emit prompt_llm
  on_result-epoch (ok (speak text)) r =
      let (out, fine) = send (token (ensure_sentence_boundary text)) r.to_tts in
      elim (Bool-cases fine) [ inl hit ↦ rw hit refl | inr miss ↦ rw miss refl ]
  on_result-epoch (ok (ask_llm prompt)) r = refl
  on_result-epoch (ok empty) r = refl
  on_result-epoch (ok (sampled_pcm rate samples)) r = refl
  on_result-epoch (ok (sampled_opus frames)) r = refl
  on_result-epoch (ok (volume level)) r = refl
  on_result-epoch (err e) r = refl

  handle_outcome-epoch :
      (epoch : ℕ) (skill : Text) (result : Result SkillResponse E) (r : Router)
      → (handle_outcome epoch skill result r).epoch ≡ r.epoch
  unfolding handle_outcome emit
  handle_outcome-epoch epoch skill result r =
      let r' = record r { pending_dispatch = clear_pending epoch skill r.pending_dispatch } in
      elim (Bool-cases (epoch == r.epoch)) [
        | inl hit ↦ rw hit (on_result-epoch result r')
        | inr miss ↦ rw miss refl
      ]

  -- No input takes an epoch back.
  step-epoch :
      (deps : RouterDeps) (r : Router) (i : RouterInput E)
      → r.epoch ≤ 18446744073709551615
      → (r.epoch ≤ (step deps r i).0.epoch) × ((step deps r i).0.epoch ≤ 18446744073709551615)
  unfolding step
  step-epoch deps r (outcome epoch skill result) h =
      rw (handle_outcome-epoch epoch skill result r) (ground arith)
  step-epoch deps r closed h = ground arith
  step-epoch deps r (transcript text is_final matched) h =
      elim (Bool-cases (is_final && not r.rx_closed)) [
        | inl hit ↦
            rw (hit, on_final-epoch deps text matched r)
              (next_epoch-least r.epoch h, next_epoch-bounded r.epoch h)
        | inr miss ↦ rw miss (ground arith)
      ]

  run_router-epoch :
      (deps : RouterDeps) (r : Router) (is : List (RouterInput E))
      → r.epoch ≤ 18446744073709551615
      → r.epoch ≤ (run_router deps r is).epoch
  unfolding run_router
  run_router-epoch deps r [] h = ground arith
  run_router-epoch deps r (i ∷ is) h =
      let (up, bounded) = step-epoch deps r i h in
      let after = run_router-epoch deps (step deps r i).0 is bounded in
      elim (Bool-cases (finished r)) [
        | inl over ↦ rw over (ground arith)
        | inr on ↦ rw on (elim (Bool-cases (step deps r i).1) [
          | inl goes ↦ rw goes (ground arith)
          | inr stops ↦ rw stops up
        ])
      ]

  -- An outcome of another epoch is only reported.
  stale_outcome :
      (epoch : ℕ) (skill : Text) (result : Result SkillResponse E) (r : Router)
      → epoch < r.epoch
      → ((handle_outcome epoch skill result r).to_tts ≡ r.to_tts)
        × ((handle_outcome epoch skill result r).to_llm ≡ r.to_llm)
        × ((handle_outcome epoch skill result r).events ≡ r.events ++ skill_cancelled skill ∷ [])
  unfolding handle_outcome emit
  stale_outcome epoch skill result r h = rw (differ epoch r.epoch h) (refl, refl, refl)
    where
      differ : (a b : ℕ) → a < b → (a == b) ≡ false
      differ a b l = ground arith

  -- The outcome of a skill that was called for a superseded utterance is not spoken: once a new final transcript
  -- has been handled, and whatever comes in after it, such an outcome sends nothing to the speech synthesis and
  -- nothing to the language model, and is reported as cancelled, unless the epochs have run out of the `u64`.
  -- Of the tokens of the language model it says nothing.
  pub superseded_silent :
      (deps : RouterDeps) (r : Router) (text : Text) (matched : Option RuleMatch)
      (is : List (RouterInput E)) (epoch : ℕ) (skill : Text) (result : Result SkillResponse E)
      → r.epoch < 18446744073709551615
      → epoch ≤ r.epoch
      → let r' = run_router deps (on_final deps text matched r).0 is in
        ((handle_outcome epoch skill result r').to_tts ≡ r'.to_tts)
        × ((handle_outcome epoch skill result r').to_llm ≡ r'.to_llm)
        × ((handle_outcome epoch skill result r').events ≡ r'.events ++ skill_cancelled skill ∷ [])
  superseded_silent deps r text matched is epoch skill result room old =
      let r₁ = (on_final deps text matched r).0 in
      let up = next_epoch-grows r.epoch room in
      let bound = next_epoch-bounded r.epoch (ground arith) in
      let here = on_final-epoch deps text matched r in
      let later = run_router-epoch deps r₁ is (rw here bound) in
      stale_outcome epoch skill result (run_router deps r₁ is) (omega (arith, up, here, later, old))
