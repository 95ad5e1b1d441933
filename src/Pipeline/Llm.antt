-- ===== src/Pipeline/Llm.antt =====
-- The language-model stage of crates/athena-voice-runtime/src/pipeline/llm.rs.
-- The provider is a parameter: a call of `complete` gives an error, or the list of the items of its token
-- stream. The stage's cancellation is the end of the list of prompts.
pub mod Laws
use athena_voice.Base.{Bool, true, false, List, [], ◌∷◌, if◌then◌else◌, Result, ok, err}
use athena_voice.Text.{Text, codes, starts_with}
use athena_voice.Core.Ids.{Locale}
use athena_voice.Pipeline.Channel.{Channel, send}

-- What feeds the TTS stage (tts.rs).
pub data TtsMsg : Type 0 where
  token : Text → TtsMsg
  answer_end : TtsMsg

pub apology : Locale → Text
apology locale =
    if starts_with (codes "fr") locale.as_str
    then codes "désolé, je ne peux pas répondre pour le moment."
    else codes "sorry, I can't answer right now."

send_end : Channel TtsMsg × Bool → Channel TtsMsg × Bool
send_end (out, fine) = if fine then send answer_end out else (out, false)

module _ {E : Type 0} (locale : Locale) where
  -- `while let Some(item) = tokens.next().await`; `false` means that the receiver is gone.
  stream_tokens : List (Result Text E) → Bool → Channel TtsMsg → Channel TtsMsg × Bool
  stream_tokens [] sent_any out = (out, true)
  stream_tokens (ok t ∷ items) sent_any out =
      let (out', fine) = send (token t) out in
      let rest = stream_tokens items true out' in if fine then rest else (out', false)
  stream_tokens (err e ∷ items) sent_any out =
      if sent_any then (out, true) else send (token (apology locale)) out

  -- One prompt.
  pub answer_prompt : Result (List (Result Text E)) E → Channel TtsMsg → Channel TtsMsg × Bool
  unfolding stream_tokens send_end
  answer_prompt (err e) out = send_end (send (token (apology locale)) out)
  answer_prompt (ok items) out = send_end (stream_tokens items false out)

  -- The loop of `spawn_llm` over the prompts, with what the provider makes of each.
  pub run_llm : List (Result (List (Result Text E)) E) → Channel TtsMsg → Channel TtsMsg
  run_llm [] out = out
  run_llm (completion ∷ completions) out =
      let (out', fine) = answer_prompt completion out in
      let rest = run_llm completions out' in if fine then rest else out'
