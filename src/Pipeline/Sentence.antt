-- ===== src/Pipeline/Sentence.antt =====
-- The sentence aggregation of crates/athena-voice-runtime/src/pipeline/sentence.rs.
pub mod Laws
use athena_voice.Base.{
  ℕ, Bool, true, false, not, ◌&&◌, ◌||◌, Option, none, some, List, [], ◌∷◌, ◌++◌, leb, ◌==◌,
  if◌then◌else◌,
}
use athena_voice.Text.{Text, utf8_len, trim, trim_end, last, is_empty as text_is_empty}

-- 800 ms
abbrev pub idle_flush : ℕ
idle_flush = 800

unfoldable pub is_sentence_boundary : ℕ → Bool
is_sentence_boundary c = c == b'.' || (c == b'!' || c == b'?')

pub record SentenceBuffer : Type 0 where
  pub buf : Text

unfoldable pub new : SentenceBuffer
new = record { buf = [] }

-- `boundary` of `push`: the last character that is not white space ends a sentence.
unfoldable pub ends_sentence : Text → Bool
ends_sentence text = elim (last (trim_end text)) [ none ↦ false | some c ↦ is_sentence_boundary c ]

-- The test of `push` on the text with the token at its end.
completes : Text → Bool
completes text = (ends_sentence text || leb 100 (utf8_len text)) && not (text_is_empty (trim text))

pub push : SentenceBuffer → Text → SentenceBuffer × Option Text
unfolding completes
push b token =
    let text = b.buf ++ token in
    if completes text
    then (record { buf = [] }, some (trim text))
    else (record { buf = text }, none)

-- `out` unless it is empty
some_unless_empty : Text → Option Text
some_unless_empty [] = none
some_unless_empty (c ∷ t) = some (c ∷ t)

pub take : SentenceBuffer → SentenceBuffer × Option Text
unfolding some_unless_empty
take b = (record { buf = [] }, some_unless_empty (trim b.buf))

unfoldable pub clear : SentenceBuffer → SentenceBuffer
clear b = record { buf = [] }

pub is_empty : SentenceBuffer → Bool
is_empty b = text_is_empty (trim b.buf)
