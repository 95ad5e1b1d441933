-- ===== src/Pipeline/Sentence/Laws.antt =====
-- Aggregation loses and reorders nothing, and what it emits is a sentence.
use athena_voice.Base.{
  All, ◌<◌, ◌≡◌, refl, ap, sym, ◌∙◌, ◌⊎◌, inl, inr, true, false, Option, none, some, List, [], ◌∷◌,
  ◌++◌, append-nil, append_assoc, arith, Bool-cases,
}
use athena_voice.Text.{Text, utf8_len, trim, is_empty as text_is_empty, concat}
use athena_voice.Text.Solid.{solid, solid-nil, solid-append, solid-trim}
use athena_voice.Text.Trim.{StartsSolid, EndsSolid, trim-solid}
use athena_voice.Pipeline.Sentence.{
  SentenceBuffer, new, ends_sentence, completes, push, some_unless_empty, take,
}

-- The text of an optional sentence.
abbrev pub said : Option Text → Text
said none = []
said (some s) = s

pub solid-push :
    (b : SentenceBuffer) (token : Text)
    → let (b', out) = push b token in solid (said out) ++ solid b'.buf ≡ solid b.buf ++ solid token
unfolding push
solid-push b token = elim (Bool-cases (completes (b.buf ++ token))) [
  | inl full ↦
      simp (full, solid-nil)
        (append-nil (solid (trim (b.buf ++ token)))
          ∙ solid-trim (b.buf ++ token)
          ∙ solid-append b.buf token)
  | inr partial ↦ simp (partial, solid-nil) (solid-append b.buf token)
]

pub solid-take : (b : SentenceBuffer) → solid (said (take b).1) ≡ solid b.buf
unfolding take
solid-take b = said_some (trim b.buf) ∙ solid-trim b.buf
  where
    said_some : (t : Text) → solid (said (some_unless_empty t)) ≡ solid t
    said_some [] = refl
    said_some (c ∷ t) = refl

pub take_empties : (b : SentenceBuffer) → (take b).0.buf ≡ []
unfolding take
take_empties b = refl

pub solid-take_rest :
    (b : SentenceBuffer) → solid (said (take b).1) ++ solid (take b).0.buf ≡ solid b.buf
unfolding take
solid-take_rest b =
    rw solid-nil (append-nil (solid (said (some_unless_empty (trim b.buf)))) ∙ solid-take b)

-- The sentences of an answer: those that come out of its tokens on the way, and the one that `take` drains
-- at its end.
abbrev pub cons_said : Option Text → List Text → List Text
cons_said none rest = rest
cons_said (some s) rest = s ∷ rest

unfoldable pub sentences : SentenceBuffer → List Text → List Text
sentences b [] = cons_said (take b).1 []
sentences b (token ∷ tokens) = cons_said (push b token).1 (sentences (push b token).0 tokens)

solid-cons_said :
    (o : Option Text) (rest : List Text)
    → solid (concat (cons_said o rest)) ≡ solid (said o) ++ solid (concat rest)
solid-cons_said none rest = rw solid-nil refl
solid-cons_said (some s) rest = solid-append s (concat rest)

sentences_from :
    (b : SentenceBuffer) (tokens : List Text)
    → solid (concat (sentences b tokens)) ≡ solid b.buf ++ solid (concat tokens)
unfolding sentences
sentences_from b [] = solid-cons_said (take b).1 [] ∙ rw (solid-take, solid-nil) refl
sentences_from b (token ∷ tokens) =
    let b' = (push b token).0 in
    solid-cons_said (push b token).1 (sentences b' tokens)
    ∙ rw (sentences_from b' tokens) (
        sym (append_assoc (solid (said (push b token).1)) (solid b'.buf) (solid (concat tokens)))
        ∙ ap (λ t. t ++ solid (concat tokens)) (solid-push b token)
        ∙ append_assoc (solid b.buf) (solid token) (solid (concat tokens))
        ∙ ap (λ t. solid b.buf ++ t) (sym (solid-append token (concat tokens))))

-- Aggregation speaks everything once and in order: the sentences of an answer, put together, have exactly
-- the characters of its tokens, up to white space.
pub sentences_complete :
    (tokens : List Text) → solid (concat (sentences new tokens)) ≡ solid (concat tokens)
unfolding new
sentences_complete tokens = sentences_from (record { buf = [] }) tokens ∙ rw solid-nil refl

-- A sentence worth speaking: not empty, and with no white space at its ends.
pub record IsSentence (t : Text) : Type 0 where
  pub nonempty : text_is_empty t ≡ false
  pub starts : StartsSolid t
  pub ends : EndsSolid t

abbrev SaysSentence : Option Text → Type 0
SaysSentence none = Unit
SaysSentence (some s) = IsSentence s

trim-IsSentence : (t : Text) → text_is_empty (trim t) ≡ false → IsSentence (trim t)
trim-IsSentence t h = record { nonempty = h; starts = (trim-solid t).0; ends = (trim-solid t).1 }

push-SaysSentence : (b : SentenceBuffer) (token : Text) → SaysSentence (push b token).1
unfolding push completes
push-SaysSentence b token = elim (Bool-cases (completes (b.buf ++ token))) [
  | inr partial ↦ rw partial tt
  | inl full ↦ rw full (trim-IsSentence (b.buf ++ token) (ground arith))
]

take-SaysSentence : (b : SentenceBuffer) → SaysSentence (take b).1
unfolding take
take-SaysSentence b = says (trim b.buf) (trim-solid b.buf)
  where
    says : (t : Text) → StartsSolid t × EndsSolid t → SaysSentence (some_unless_empty t)
    says [] h = tt
    says (c ∷ t) h = record { nonempty = refl; starts = h.0; ends = h.1 }

cons_said-All :
    (o : Option Text) (rest : List Text)
    → SaysSentence o
    → All IsSentence rest
    → All IsSentence (cons_said o rest)
cons_said-All none rest h r = r
cons_said-All (some s) rest h r = (h, r)

-- Whatever the tokens, every sentence that comes out, also the drained one, is worth speaking.
pub sentences-IsSentence :
    (b : SentenceBuffer) (tokens : List Text) → All IsSentence (sentences b tokens)
unfolding sentences
sentences-IsSentence b [] = cons_said-All (take b).1 [] (take-SaysSentence b) tt
sentences-IsSentence b (token ∷ tokens) =
    cons_said-All (push b token).1 (sentences (push b token).0 tokens) (push-SaysSentence b token)
      (sentences-IsSentence (push b token).0 tokens)

-- What may wait in the buffer: white space, or less than 100 bytes that do not end a sentence.
abbrev pub IsPending : SentenceBuffer → Type 0
IsPending b =
    (text_is_empty (trim b.buf) ≡ true) ⊎ ((utf8_len b.buf < 100) × (ends_sentence b.buf ≡ false))

pub run_pushes : SentenceBuffer → List Text → SentenceBuffer
run_pushes b [] = b
run_pushes b (token ∷ tokens) = run_pushes (push b token).0 tokens

trim-nil : text_is_empty (trim []) ≡ true
unfolding trim
trim-nil = refl

push-IsPending : (b : SentenceBuffer) (token : Text) → IsPending (push b token).0
unfolding push completes
push-IsPending b token = elim (Bool-cases (completes (b.buf ++ token))) [
  | inl full ↦ rw full (inl trim-nil)
  | inr partial ↦ rw partial (ground arith)
]

run_pushes_from :
    (b : SentenceBuffer) (tokens : List Text) → IsPending b → IsPending (run_pushes b tokens)
unfolding run_pushes
run_pushes_from b [] h = h
run_pushes_from b (token ∷ tokens) h =
    run_pushes_from (push b token).0 tokens (push-IsPending b token)

-- No finished sentence and no long text is held back: after any tokens, what waits in the buffer is white
-- space, or shorter than 100 bytes and without the end of a sentence.
pub run_pushes-IsPending : (tokens : List Text) → IsPending (run_pushes new tokens)
unfolding run_pushes new
run_pushes-IsPending tokens = run_pushes_from (record { buf = [] }) tokens (inl trim-nil)
