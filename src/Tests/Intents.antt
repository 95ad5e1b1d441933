-- ===== src/Tests/Intents.antt =====
-- The search for an intent at concrete rules.
use athena_voice.Base.{
  ℕ, ◌-◌, ◌≡◌, refl, inl, inr, false, ◌&&◌, Option, some, [], ◌∷◌, ◌++◌, ltb, leb, if◌then◌else◌,
}
use athena_voice.Text.{Text, codes, text_eq}
use athena_voice.Base.Dict.{lookup, insert, remove}
use athena_voice.Intent.Rules.{HostPatternRule, RuleIndex, new, insert_rule, entries, for_locale}
use athena_voice.Intent.Engine.{Confidences, IntentMatch, find_match, split_phrase}
use athena_voice.Intent.Engine.Phrases.{render, lacking, render-split_phrase}
use athena_voice.Intent.Engine.Best.{
  offers, Offered, Unrivalled, IsFound, find_match-IsFound, find_match-best,
}

-- Confidences in thousandths.
abbrev thousandths : Confidences
thousandths = record {
  F32 = ℕ;
  reaches = λ a. leb 800 a;
  near = λ a b. leb (a - b) 50 && leb (b - a) 50;
  above = λ a b. ltb b a;
}

abbrev weather : HostPatternRule
weather = record { intent = codes "weather"; phrases = codes "météo" ∷ []; slots = [] }

abbrev heating : HostPatternRule
heating = record { intent = codes "heating"; phrases = codes "chauffage" ∷ []; slots = [] }

abbrev index : RuleIndex
unfolding insert_rule new lookup insert remove text_eq
index =
    insert_rule (codes "fr") heating (codes "jeedom")
      (insert_rule (codes "fr") weather (codes "meteo") new)

-- A phrase that is the input matches fully, any other one to nine tenths.
abbrev match_phrase : Text → HostPatternRule → Text → Option (IntentMatch thousandths)
unfolding text_eq
match_phrase phrase rule input = some (record {
  intent = rule.intent;
  slots = [];
  skill = [];
  confidence = if text_eq phrase input then 1000 else 900;
  specificity = 1;
})

find_match-IsFound_example :
    IsFound thousandths match_phrase
      (offers thousandths match_phrase
        (entries (for_locale (codes "fr") index))
        (codes "chauffage"))
      (find_match thousandths match_phrase (codes "chauffage") (codes "fr") index)
find_match-IsFound_example =
    find_match-IsFound thousandths match_phrase (codes "chauffage") (codes "fr") index

abbrev warm : IntentMatch thousandths
warm = record {
  intent = codes "heating";
  slots = [];
  skill = codes "jeedom";
  confidence = 1000;
  specificity = 1;
}

warm-Offered :
    Offered thousandths warm (
      offers thousandths match_phrase (entries (for_locale (codes "fr") index)) (codes "chauffage"))
unfolding for_locale lookup text_eq match_phrase index
warm-Offered = inr (inl refl)

warm-Unrivalled :
    Unrivalled thousandths warm (
      offers thousandths match_phrase (entries (for_locale (codes "fr") index)) (codes "chauffage"))
unfolding for_locale lookup text_eq match_phrase index
warm-Unrivalled = (inr (inl ((refl, refl), (refl, refl))), (inl refl, tt))

find_match-best_example :
    find_match thousandths match_phrase (codes "chauffage") (codes "fr") index ≡ some warm
find_match-best_example =
    find_match-best thousandths match_phrase (codes "chauffage") (codes "fr") index warm
      warm-Offered warm-Unrivalled

render-split_phrase_example :
    render (split_phrase (codes "minuteur de {duration}"))
    ≡ codes "minuteur de {duration}" ++ lacking false (codes "minuteur de {duration}")
render-split_phrase_example = render-split_phrase (codes "minuteur de {duration}")
