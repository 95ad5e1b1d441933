-- ===== src/Wasm/Acl/Isolation.antt =====
-- Which topics a skill may publish on.
use athena_voice.Base.{
  ◌≡◌, refl, ap, sym, ◌∙◌, ◌⊎◌, inl, inr, true, false, List, [], ◌∷◌, ◌++◌, append_assoc, ◌↔◌, any,
  Bool-cases, arith,
}
use athena_voice.Text.{Text, codes, starts_with, split, contains}
use athena_voice.Text.Split.{split-append}
use athena_voice.Mqtt.Filter.{mqtt_topic_matches}
use athena_voice.Mqtt.Filter.Matching.{Matches, mqtt_topic_matches_iff}
use athena_voice.Wasm.Acl.{mqtt_topic_prefix, mqtt_topic_allowed, mqtt_publish_allowed}

starts_with-append : (p t : Text) → starts_with p (p ++ t) ≡ true
unfolding starts_with
starts_with-append [] t = refl
starts_with-append (c ∷ p) t = ground (arith, starts_with-append p t)

append_of_starts_with : (p t : Text) → starts_with p t ≡ true → (rest : Text) × (t ≡ p ++ rest)
unfolding starts_with
append_of_starts_with [] t h = (t, refl)
append_of_starts_with (c ∷ p) [] h = cc
append_of_starts_with (c ∷ p) (d ∷ t) h =
    let (rest, e) = append_of_starts_with p t (ground arith) in
    let same : d ≡ c = ground arith in (rest, rw (same, e) refl)

-- The levels of a topic in the namespace of a skill.
allowed-split :
    (skill topic : Text)
    → contains b'/' skill ≡ false
    → mqtt_topic_allowed skill topic ≡ true
    → (rest : List Text) × (split b'/' topic ≡ codes "athena" ∷ codes "skills" ∷ skill ∷ rest)
unfolding mqtt_topic_allowed mqtt_topic_prefix
allowed-split skill topic plain h =
    let (rest, e) = append_of_starts_with (mqtt_topic_prefix skill) topic h in
    let spelled : topic
        ≡ codes "athena" ++ b'/' ∷ (codes "skills" ++ b'/' ∷ (skill ++ b'/' ∷ rest)) =
      e ∙ ap (λ x. codes "athena/skills/" ++ x) (append_assoc skill (codes "/") rest) in
    (
      split b'/' rest,
      ap (split b'/') spelled
          ∙ split-append b'/' (codes "athena") (codes "skills" ++ b'/' ∷ (skill ++ b'/' ∷ rest))
              refl
          ∙ ap (λ x. codes "athena" ∷ x)
              (split-append b'/' (codes "skills") (skill ++ b'/' ∷ rest) refl
                ∙ ap (λ x. codes "skills" ∷ x) (split-append b'/' skill rest plain)),
    )

abbrev third : List Text → Text
third (a ∷ b ∷ c ∷ ts) = c
third _ = []

-- Two skills whose names have no slash share no topic of their own namespaces. A grant may open more than the
-- own namespace to a skill.
pub namespaces_apart :
    (skill other topic : Text)
    → contains b'/' skill ≡ false
    → contains b'/' other ≡ false
    → mqtt_topic_allowed skill topic ≡ true
    → mqtt_topic_allowed other topic ≡ true
    → skill ≡ other
namespaces_apart skill other topic h k allowed allowed' =
    let (rest, e) = allowed-split skill topic h allowed in
    let (rest', e') = allowed-split other topic k allowed' in ap third (sym e ∙ e')

-- Some pattern of a list matches a topic, by its levels.
abbrev pub SomeMatches : List Text → Text → Type 0
SomeMatches [] topic = ⊥
SomeMatches (p ∷ ps) topic = Matches (split b'/' p) (split b'/' topic) ⊎ SomeMatches ps topic

SomeMatches-of_any :
    (ps : List Text) (topic : Text)
    → any (λ p. mqtt_topic_matches p topic) ps ≡ true
    → SomeMatches ps topic
SomeMatches-of_any [] topic h = cc
SomeMatches-of_any (p ∷ ps) topic h = elim (Bool-cases (mqtt_topic_matches p topic)) [
  | inl hit ↦ inl ((mqtt_topic_matches_iff p topic).0 hit)
  | inr miss ↦ inr (SomeMatches-of_any ps topic (ground arith))
]

any_of_SomeMatches :
    (ps : List Text) (topic : Text)
    → SomeMatches ps topic
    → any (λ p. mqtt_topic_matches p topic) ps ≡ true
any_of_SomeMatches [] topic m = elim m [ ]
any_of_SomeMatches (p ∷ ps) topic (inl m) = rw ((mqtt_topic_matches_iff p topic).1 m) refl
any_of_SomeMatches (p ∷ ps) topic (inr m) = let r = any_of_SomeMatches ps topic m in ground arith

-- A skill may publish on a topic exactly if the topic begins with the skill's own prefix, or one of the
-- patterns it was granted matches the topic by the rules of topic filters.
pub mqtt_publish_allowed_iff :
    (skill topic : Text) (granted : List Text)
    → (mqtt_publish_allowed skill topic granted ≡ true)
      ↔ (((rest : Text) × (topic ≡ mqtt_topic_prefix skill ++ rest)) ⊎ SomeMatches granted topic)
unfolding mqtt_publish_allowed mqtt_topic_allowed
mqtt_publish_allowed_iff skill topic granted = (allowed, granted_so)
  where
    allowed :
        mqtt_publish_allowed skill topic granted ≡ true
        → ((rest : Text) × (topic ≡ mqtt_topic_prefix skill ++ rest)) ⊎ SomeMatches granted topic
    allowed h = elim (Bool-cases (starts_with (mqtt_topic_prefix skill) topic)) [
      | inl own ↦ inl (append_of_starts_with (mqtt_topic_prefix skill) topic own)
      | inr foreign ↦ inr (SomeMatches-of_any granted topic (ground arith))
    ]

    granted_so :
        ((rest : Text) × (topic ≡ mqtt_topic_prefix skill ++ rest)) ⊎ SomeMatches granted topic
        → mqtt_publish_allowed skill topic granted ≡ true
    granted_so (inl (rest, e)) =
        let own = starts_with-append (mqtt_topic_prefix skill) rest in
        let own' : starts_with (mqtt_topic_prefix skill) topic ≡ true = rw e own in ground arith
    granted_so (inr m) = let some_granted = any_of_SomeMatches granted topic m in ground arith
