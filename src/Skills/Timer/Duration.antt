-- ===== src/Skills/Timer/Duration.antt =====
-- The spoken durations of skills-timer/src/duration.rs. `to_lowercase` of the characters' tables is a parameter.
-- The product of the amount and the unit is of `u64`, and is not checked: the release build wraps around.
use athena_voice.Base.{ℕ, ◌*◌, ◌%◌, Bool, Option, none, some, List, [], ◌∷◌, if◌then◌else◌, any}
use athena_voice.Text.{Text, codes, text_eq}
use athena_voice.Text.Words.{split_whitespace}
use athena_voice.Text.Decimal.{parse_u64}

-- A `match` of a text against literals.
abbrev is_one_of : List Text → Text → Bool
is_one_of ws w = any (λ v. text_eq w v) ws

abbrev or_else : Option ℕ → Option ℕ → Option ℕ
or_else (some n) o = some n
or_else none o = o

amount_en : Text → Option ℕ
amount_en w =
    if is_one_of (codes "a" ∷ codes "an" ∷ codes "one" ∷ []) w
    then some 1
    else if text_eq w (codes "two")
    then some 2
    else if text_eq w (codes "three")
    then some 3
    else if text_eq w (codes "four")
    then some 4
    else if text_eq w (codes "five")
    then some 5
    else if text_eq w (codes "six")
    then some 6
    else if text_eq w (codes "seven")
    then some 7
    else if text_eq w (codes "eight")
    then some 8
    else if text_eq w (codes "nine")
    then some 9
    else if text_eq w (codes "ten")
    then some 10
    else none

amount_fr : Text → Option ℕ
amount_fr w =
    if is_one_of (codes "un" ∷ codes "une" ∷ []) w
    then some 1
    else if text_eq w (codes "deux")
    then some 2
    else if text_eq w (codes "trois")
    then some 3
    else if text_eq w (codes "quatre")
    then some 4
    else if text_eq w (codes "cinq")
    then some 5
    else if text_eq w (codes "six")
    then some 6
    else if text_eq w (codes "sept")
    then some 7
    else if text_eq w (codes "huit")
    then some 8
    else if text_eq w (codes "neuf")
    then some 9
    else if text_eq w (codes "dix")
    then some 10
    else none

unit_of : Text → Text → Text → Text → Text → Text → Text → Option ℕ
unit_of second seconds minute minutes hour hours w =
    if is_one_of (second ∷ seconds ∷ []) w
    then some 1
    else if is_one_of (minute ∷ minutes ∷ []) w
    then some 60
    else if is_one_of (hour ∷ hours ∷ []) w
    then some 3600
    else none

-- `Some(amount * unit_seconds)`, each after its `?`
abbrev times : Option ℕ → Option ℕ → Option ℕ
times (some a) (some u) = some ((a * u) % 18446744073709551616)
times (some a) none = none
times none u = none

-- Exactly two words.
abbrev two_words : (Text → Option ℕ) → (Text → Option ℕ) → List Text → Option ℕ
two_words amount unit_seconds (a ∷ u ∷ []) = times (amount a) (unit_seconds u)
two_words amount unit_seconds _ = none

module _ (to_lowercase : Text → Text) where
  unfoldable pub parse_amount_en : Text → Option ℕ
  unfolding amount_en
  parse_amount_en word = or_else (parse_u64 word) (amount_en (to_lowercase word))

  unfoldable pub parse_amount : Text → Option ℕ
  unfolding amount_fr
  parse_amount word = or_else (parse_u64 word) (amount_fr (to_lowercase word))

  unfoldable pub parse_unit_seconds_en : Text → Option ℕ
  unfolding unit_of
  parse_unit_seconds_en word =
      unit_of (codes "second") (codes "seconds") (codes "minute") (codes "minutes") (codes "hour")
        (codes "hours") (to_lowercase word)

  unfoldable pub parse_unit_seconds : Text → Option ℕ
  unfolding unit_of
  parse_unit_seconds word =
      unit_of (codes "seconde") (codes "secondes") (codes "minute") (codes "minutes")
        (codes "heure") (codes "heures") (to_lowercase word)

  unfoldable pub parse_fr_duration : Text → Option ℕ
  unfolding parse_amount parse_unit_seconds amount_fr unit_of
  parse_fr_duration text = two_words parse_amount parse_unit_seconds (split_whitespace text)

  unfoldable pub parse_en_duration : Text → Option ℕ
  unfolding parse_amount_en parse_unit_seconds_en amount_en unit_of
  parse_en_duration text = two_words parse_amount_en parse_unit_seconds_en (split_whitespace text)
