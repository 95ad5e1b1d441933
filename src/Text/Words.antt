-- ===== src/Text/Words.antt =====
-- `split_whitespace`: the words between runs of white space.
use athena_voice.Base.{
  ℕ, ◌≡◌, sym, ap, ◌∙◌, false, List, [], ◌∷◌, ◌++◌, append-nil, append_assoc, if◌then◌else◌, All,
}
use athena_voice.Text.{Text, is_whitespace}

-- `word` is the word at hand.
abbrev with_word : Text → List Text → List Text
with_word [] ws = ws
with_word (c ∷ w) ws = (c ∷ w) ∷ ws

words : Text → Text → List Text
words word [] = with_word word []
words word (c ∷ t) =
    let next = words [] t in
    let more = words (word ++ c ∷ []) t in if is_whitespace c then with_word word next else more

unfoldable pub split_whitespace : Text → List Text
unfolding words
split_whitespace t = words [] t

abbrev pub IsSolid : Text → Type 0
IsSolid t = All (λ c. is_whitespace c ≡ false) t

words-append : (word w t : Text) → IsSolid w → words word (w ++ t) ≡ words (word ++ w) t
unfolding words
words-append word [] t h = ap (λ v. words v t) (sym (append-nil word))
words-append word (c ∷ w) t h =
    rw h.0
      (words-append (word ++ c ∷ []) w t h.1 ∙ ap (λ v. words v t) (append_assoc word (c ∷ []) w))

-- A word, a space and a text that follows.
pub split_whitespace-space :
    (c : ℕ) (w t : Text)
    → IsSolid (c ∷ w)
    → split_whitespace ((c ∷ w) ++ b' ' ∷ t) ≡ (c ∷ w) ∷ split_whitespace t
unfolding split_whitespace words is_whitespace
split_whitespace-space c w t h = words-append [] (c ∷ w) (b' ' ∷ t) h

pub split_whitespace-word :
    (c : ℕ) (w : Text) → IsSolid (c ∷ w) → split_whitespace (c ∷ w) ≡ (c ∷ w) ∷ []
unfolding split_whitespace words
split_whitespace-word c w h =
    ap (words []) (sym (append-nil (c ∷ w))) ∙ words-append [] (c ∷ w) [] h
