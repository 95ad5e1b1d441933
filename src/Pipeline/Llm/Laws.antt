-- ===== src/Pipeline/Llm/Laws.antt =====
-- Every prompt is answered, and every answer ends.
use athena_voice.Base.{
  ℕ, suc, ◌+◌, ◌≡◌, refl, ap, ◌∙◌, sym, Bool, true, false, List, [], ◌∷◌, ◌++◌, append_assoc,
  append-nil, arith, length, if◌then◌else◌, Result, ok, err,
}
use athena_voice.Text.{Text}
use athena_voice.Core.Ids.{Locale}
use athena_voice.Pipeline.Channel.{Channel, send}
use athena_voice.Pipeline.Llm.{
  TtsMsg, token, answer_end, apology, stream_tokens, send_end, answer_prompt, run_llm,
}

abbrev pub tokens_of : List Text → List TtsMsg
tokens_of [] = []
tokens_of (t ∷ ts) = token t ∷ tokens_of ts

abbrev pub open_with : List TtsMsg → ℕ → Channel TtsMsg
open_with sent left = record { sent = sent; left = left }

module _ {E : Type 0} (locale : Locale) where
  -- What the user hears of a completion: its tokens up to the first error, and an apology if the error
  -- came before any token.
  abbrev pub words_from : Bool → List (Result Text E) → List Text
  words_from started [] = []
  words_from started (ok t ∷ items) = t ∷ words_from true items
  words_from started (err e ∷ items) = if started then [] else apology locale ∷ []

  abbrev pub words : Result (List (Result Text E)) E → List Text
  words (err e) = apology locale ∷ []
  words (ok items) = words_from false items

  abbrev pub answers : List (Result (List (Result Text E)) E) → List TtsMsg
  answers [] = []
  answers (c ∷ cs) = tokens_of (words c) ++ answer_end ∷ answers cs

-- `left` places after those for a list of messages
abbrev room : List TtsMsg → ℕ → ℕ
room [] left = left
room (x ∷ xs) left = suc (room xs left)

room-length : (xs : List TtsMsg) (left : ℕ) → room xs left ≡ length xs + left
room-length [] left = omega arith
room-length (x ∷ xs) left = omega (arith, room-length xs left)

room-append : (xs ys : List TtsMsg) (left : ℕ) → room (xs ++ ys) left ≡ room xs (room ys left)
room-append [] ys left = refl
room-append (x ∷ xs) ys left = ap suc (room-append xs ys left)

module _ {E : Type 0} (locale : Locale) where
  stream_from :
      (items : List (Result Text E)) (started : Bool) (sent : List TtsMsg) (left : ℕ)
      → stream_tokens locale items started
          (open_with sent (room (tokens_of (words_from locale started items)) left))
        ≡ (open_with (sent ++ tokens_of (words_from locale started items)) left, true)
  unfolding stream_tokens send
  stream_from [] started sent left = rw (append-nil sent) refl
  stream_from (err e ∷ items) true sent left = rw (append-nil sent) refl
  stream_from (err e ∷ items) false sent left = refl
  stream_from (ok t ∷ items) started sent left =
      stream_from items true (sent ++ token t ∷ []) left
      ∙ ap (λ s. (open_with s left, true))
          (append_assoc sent (token t ∷ []) (tokens_of (words_from locale true items)))

  answer_room :
      (c : Result (List (Result Text E)) E) (sent : List TtsMsg) (left : ℕ)
      → answer_prompt locale c (open_with sent (room (tokens_of (words locale c)) (suc left)))
        ≡ (open_with ((sent ++ tokens_of (words locale c)) ++ answer_end ∷ []) left, true)
  unfolding answer_prompt send_end send
  answer_room (err e) sent left = refl
  answer_room (ok items) sent left = rw (stream_from items false sent (suc left)) refl

  run_room :
      (completions : List (Result (List (Result Text E)) E)) (sent : List TtsMsg) (left : ℕ)
      → run_llm locale completions (open_with sent (room (answers locale completions) left))
        ≡ open_with (sent ++ answers locale completions) left
  unfolding run_llm
  run_room [] sent left = rw (append-nil sent) refl
  run_room (c ∷ cs) sent left =
      let here = tokens_of (words locale c) in
      let after = answers locale cs in
      let sent' = (sent ++ here) ++ answer_end ∷ [] in
      rw (room-append here (answer_end ∷ after) left, answer_room c sent (room after left))
        (run_room cs sent' left
          ∙ ap (λ s. open_with s left)
              (append_assoc (sent ++ here) (answer_end ∷ []) after
                ∙ append_assoc sent here (answer_end ∷ after)))

  -- Every prompt gets an answer, and every answer ends: as long as the stage after it takes messages, the
  -- stage sends for each prompt, in order, its tokens up to the first error, or the apology if an error
  -- came before any token, and then one end of the answer.
  pub run_llm-answers :
      (completions : List (Result (List (Result Text E)) E)) (sent : List TtsMsg) (left : ℕ)
      → run_llm locale completions (open_with sent (length (answers locale completions) + left))
        ≡ open_with (sent ++ answers locale completions) left
  run_llm-answers completions sent left =
      rw (sym (room-length (answers locale completions) left)) (run_room completions sent left)
