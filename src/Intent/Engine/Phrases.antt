-- ===== src/Intent/Engine/Phrases.antt =====
-- Phrases and their segments.
use athena_voice.Base.{
  ℕ, ◌≡◌, refl, sym, ap, ◌∙◌, Bool, true, false, List, [], ◌∷◌, ◌++◌, append_assoc, ◌==◌,
  if◌then◌else◌, Bool-cases, inl, inr, arith,
}
use athena_voice.Text.{Text}
use athena_voice.Intent.Engine.{Segment, literal, slot, flush, split_from, split_phrase}

-- The phrase of segments.
abbrev pub render : List Segment → Text
render [] = []
render (literal l ∷ ss) = l ++ render ss
render (slot name ∷ ss) = b'{' ∷ (name ++ b'}' ∷ render ss)

-- The brace that a phrase lacks at its end, when its last slot is not closed.
abbrev pub lacking : Bool → Text → Text
lacking false [] = []
lacking true [] = b'}' ∷ []
lacking false (c ∷ t) =
    let opened = lacking true t in let more = lacking false t in if c == b'{' then opened else more
lacking true (c ∷ t) =
    let closed = lacking false t in let more = lacking true t in if c == b'}' then closed else more

render-flush : (buf : Text) (ss : List Segment) → render (flush buf ss) ≡ buf ++ render ss
render-flush [] ss = refl
render-flush (c ∷ buf) ss = refl

same_char : (c d : ℕ) → (c == d) ≡ true → c ≡ d
same_char c d h = ground arith

-- What is in front of a text that is split: nothing for a literal, the opening brace for a slot.
abbrev opening : Bool → Text
opening false = []
opening true = b'{' ∷ []

render-split_from :
    (in_slot : Bool) (buf t : Text)
    → render (split_from in_slot buf t) ≡ opening in_slot ++ (buf ++ (t ++ lacking in_slot t))
unfolding split_from
render-split_from false buf [] = render-flush buf []
render-split_from true name [] = refl
render-split_from false buf (c ∷ t) = elim (Bool-cases (c == b'{')) [
  | inl brace ↦ rw brace (
      render-flush buf (split_from true [] t)
      ∙ ap (λ l. buf ++ l) (render-split_from true [] t)
      ∙ ap (λ x. buf ++ (x ∷ (t ++ lacking true t))) (sym (same_char c b'{' brace)))
  | inr other ↦
      rw other (
        render-split_from false (buf ++ c ∷ []) t
        ∙ append_assoc buf (c ∷ []) (t ++ lacking false t))
]
render-split_from true name (c ∷ t) = elim (Bool-cases (c == b'}')) [
  | inl brace ↦ rw brace (
      ap (λ l. b'{' ∷ (name ++ b'}' ∷ l)) (render-split_from false [] t)
      ∙ ap (λ x. b'{' ∷ (name ++ x ∷ (t ++ lacking false t))) (sym (same_char c b'}' brace)))
  | inr other ↦ rw other (
      render-split_from true (name ++ c ∷ []) t
      ∙ ap (λ l. b'{' ∷ l) (append_assoc name (c ∷ []) (t ++ lacking true t)))
]

-- The segments of a phrase, written out again, are the phrase, with a closing brace at the end if its last slot
-- has none.
pub render-split_phrase :
    (phrase : Text) → render (split_phrase phrase) ≡ phrase ++ lacking false phrase
unfolding split_phrase
render-split_phrase phrase = render-split_from false [] phrase
