-- ===== src/Intent/Engine/Best.antt =====
-- The match that the search finds.
use mathlib.Core.Path.{subst}
use athena_voice.Base.{
  arith, ltb, ◌<◌, ◌≡◌, refl, sym, ap, ◌∙◌, ◌⊎◌, inl, inr, Bool, true, false, Option, none, some,
  List, [], ◌∷◌, ◌++◌, if◌then◌else◌, Bool-cases,
}
use athena_voice.Text.{Text}
use athena_voice.Intent.Rules.{HostPatternRule, RuleEntry, RuleIndex, entries, for_locale}
use athena_voice.Intent.Engine.{
  Confidences, IntentMatch, beats, pick, try_one, try_phrases, try_rules, search, find_match,
}

module _ (floats : Confidences) where
  open floats use {reaches, near, above}

  -- The match of one phrase, if it reaches the threshold, under the skill's name.
  abbrev pub offer : Option (IntentMatch floats) → Text → List (IntentMatch floats)
  offer none skill = []
  offer (some m) skill = if reaches m.confidence then record m { skill = skill } ∷ [] else []

  -- The search over matches in a list.
  choose : List (IntentMatch floats) → Option (IntentMatch floats) → Option (IntentMatch floats)
  choose [] best = best
  choose (m ∷ ms) best = choose ms (pick floats best m)

  choose-append :
      (ms ns : List (IntentMatch floats)) (best : Option (IntentMatch floats))
      → choose (ms ++ ns) best ≡ choose ns (choose ms best)
  unfolding choose
  choose-append [] ns best = refl
  choose-append (m ∷ ms) ns best = choose-append ms ns (pick floats best m)

  try_one-choose :
      (o : Option (IntentMatch floats)) (skill : Text) (best : Option (IntentMatch floats))
      → try_one floats o skill best ≡ choose (offer o skill) best
  unfolding try_one choose
  try_one-choose none skill best = refl
  try_one-choose (some m) skill best = elim (Bool-cases (reaches m.confidence)) [
    | inl good ↦ rw good refl
    | inr weak ↦ rw weak refl
  ]

  -- One of the matches of a list.
  abbrev pub Offered : IntentMatch floats → List (IntentMatch floats) → Type 0
  Offered m [] = ⊥
  Offered m (n ∷ ns) = (n ≡ m) ⊎ Offered m ns

  -- A match that is better than another: its confidence is above the other's by more than the tolerance, or
  -- the two are near, and its phrase has more words.
  abbrev pub Better : IntentMatch floats → IntentMatch floats → Type 0
  Better m n =
      (((near m.confidence n.confidence ≡ false) × (near n.confidence m.confidence ≡ false))
        × ((above m.confidence n.confidence ≡ true) × (above n.confidence m.confidence ≡ false)))
      ⊎ (((near m.confidence n.confidence ≡ true) × (near n.confidence m.confidence ≡ true))
          × (n.specificity < m.specificity))

  beats-Better :
      (m n : IntentMatch floats)
      → Better m n
      → (beats floats m n ≡ true) × (beats floats n m ≡ false)
  unfolding beats
  beats-Better m n (inl ((far, far'), (high, low))) = (rw far high, rw far' low)
  beats-Better m n (inr ((tie, tie'), more)) =
      let wins : ltb n.specificity m.specificity ≡ true = ground (arith, more) in
      let loses : ltb m.specificity n.specificity ≡ false = ground (arith, more) in
      (rw tie wins, rw tie' loses)

  -- A match that is better than every other one of a list.
  abbrev pub Unrivalled : IntentMatch floats → List (IntentMatch floats) → Type 0
  Unrivalled m [] = Unit
  Unrivalled m (n ∷ ns) = ((n ≡ m) ⊎ Better m n) × Unrivalled m ns

  pick-same : (m : IntentMatch floats) → pick floats (some m) m ≡ some m
  unfolding pick
  pick-same m = either (beats floats m m)
    where
      either : (b : Bool) → (if b then some m else some m) ≡ some m
      either true = refl
      either false = refl

  pick-keeps : (m n : IntentMatch floats) → (n ≡ m) ⊎ Better m n → pick floats (some m) n ≡ some m
  unfolding pick
  pick-keeps m n (inl e) = ap (pick floats (some m)) e ∙ pick-same m
  pick-keeps m n (inr better) = rw (beats-Better m n better).1 refl

  choose-keeps :
      (m : IntentMatch floats) (ns : List (IntentMatch floats))
      → Unrivalled m ns
      → choose ns (some m) ≡ some m
  unfolding choose
  choose-keeps m [] u = refl
  choose-keeps m (n ∷ ns) u = ap (choose ns) (pick-keeps m n u.0) ∙ choose-keeps m ns u.1

  -- The best so far, if there is one, yields to the match.
  abbrev Yields : IntentMatch floats → Option (IntentMatch floats) → Type 0
  Yields m none = Unit
  Yields m (some b) = (b ≡ m) ⊎ Better m b

  pick-takes :
      (m : IntentMatch floats) (best : Option (IntentMatch floats))
      → Yields m best
      → pick floats best m ≡ some m
  unfolding pick
  pick-takes m none y = refl
  pick-takes m (some b) (inl e) = ap (λ x. pick floats (some x) m) e ∙ pick-same m
  pick-takes m (some b) (inr better) = rw (beats-Better m b better).0 refl

  pick-Yields :
      (m n : IntentMatch floats) (best : Option (IntentMatch floats))
      → Yields m best
      → Yields m (some n)
      → Yields m (pick floats best n)
  unfolding pick
  pick-Yields m n none y k = k
  pick-Yields m n (some b) y k = either (beats floats n b)
    where
      either : (t : Bool) → Yields m (if t then some n else some b)
      either true = k
      either false = y

  choose-best :
      (m : IntentMatch floats) (ns : List (IntentMatch floats)) (best : Option (IntentMatch floats))
      → Offered m ns
      → Unrivalled m ns
      → Yields m best
      → choose ns best ≡ some m
  unfolding choose
  choose-best m [] best o u y = elim o [ ]
  choose-best m (n ∷ ns) best (inl e) u y =
      ap (λ x. choose ns (pick floats best x)) e
      ∙ ap (choose ns) (pick-takes m best y)
      ∙ choose-keeps m ns u.1
  choose-best m (n ∷ ns) best (inr o) u y =
      choose-best m ns (pick floats best n) o u.1 (pick-Yields m n best y u.0)

  -- What is chosen was there before, or is in the list.
  abbrev From :
      List (IntentMatch floats) → Option (IntentMatch floats) → Option (IntentMatch floats) → Type 0
  From ns best none = (best ≡ none) × (ns ≡ [])
  From ns best (some m) = (best ≡ some m) ⊎ Offered m ns

  choose-some :
      (ns : List (IntentMatch floats)) (b : IntentMatch floats)
      → From ns (some b) (choose ns (some b))
  unfolding choose pick
  choose-some [] b = inl refl
  choose-some (n ∷ ns) b = elim (Bool-cases (beats floats n b)) [
    | inl wins ↦ rw wins (later n (choose ns (some n)) (choose-some ns n))
    | inr loses ↦ rw loses (kept (choose ns (some b)) (choose-some ns b))
  ]
    where
      later :
          (c : IntentMatch floats) (r : Option (IntentMatch floats))
          → From ns (some c) r
          → From (c ∷ ns) (some b) r
      later c none (e, nil) = cc
      later c (some m) (inl e) = inr (inl cc)
      later c (some m) (inr o) = inr (inr o)

      kept : (r : Option (IntentMatch floats)) → From ns (some b) r → From (n ∷ ns) (some b) r
      kept none (e, nil) = cc
      kept (some m) (inl e) = inl e
      kept (some m) (inr o) = inr (inr o)

  module _ (try_match_phrase : Text → HostPatternRule → Text → Option (IntentMatch floats)) where
    abbrev pub phrase_offers : List Text → HostPatternRule → Text → Text → List (IntentMatch floats)
    phrase_offers [] rule skill text = []
    phrase_offers (p ∷ ps) rule skill text =
        offer (try_match_phrase p rule text) skill ++ phrase_offers ps rule skill text

    -- Every match that any rule of a list offers, in their order.
    abbrev pub offers : List RuleEntry → Text → List (IntentMatch floats)
    offers [] text = []
    offers ((rule, skill) ∷ rules) text =
        phrase_offers rule.phrases rule skill text ++ offers rules text

    try_phrases-choose :
        (ps : List Text) (rule : HostPatternRule) (skill text : Text)
        (best : Option (IntentMatch floats))
        → try_phrases floats try_match_phrase ps rule skill text best
          ≡ choose (phrase_offers ps rule skill text) best
    unfolding try_phrases choose
    try_phrases-choose [] rule skill text best = refl
    try_phrases-choose (p ∷ ps) rule skill text best =
        let o = try_match_phrase p rule text in
        ap (λ x. try_phrases floats try_match_phrase ps rule skill text x)
          (try_one-choose o skill best)
        ∙ try_phrases-choose ps rule skill text (choose (offer o skill) best)
        ∙ sym (choose-append (offer o skill) (phrase_offers ps rule skill text) best)

    try_rules-choose :
        (rules : List RuleEntry) (text : Text) (best : Option (IntentMatch floats))
        → try_rules floats try_match_phrase rules text best ≡ choose (offers rules text) best
    unfolding try_rules choose
    try_rules-choose [] text best = refl
    try_rules-choose ((rule, skill) ∷ rules) text best =
        ap (try_rules floats try_match_phrase rules text)
          (try_phrases-choose rule.phrases rule skill text best)
        ∙ try_rules-choose rules text (choose (phrase_offers rule.phrases rule skill text) best)
        ∙ sym (choose-append (phrase_offers rule.phrases rule skill text) (offers rules text) best)

    find_match-choose :
        (text locale : Text) (index : RuleIndex)
        → find_match floats try_match_phrase text locale index
          ≡ choose (offers (entries (for_locale locale index)) text) none
    unfolding find_match search choose
    find_match-choose text locale index = searched (for_locale locale index)
      where
        searched :
            (o : Option (List RuleEntry))
            → search floats try_match_phrase o text ≡ choose (offers (entries o) text) none
        searched none = refl
        searched (some rules) = try_rules-choose rules text none

    -- What a search must give, for the matches that are offered.
    abbrev pub IsFound : List (IntentMatch floats) → Option (IntentMatch floats) → Type 0
    IsFound ms none = ms ≡ []
    IsFound ms (some m) = Offered m ms

    -- A search finds nothing exactly if no phrase of the locale's rules reaches the threshold, and what it finds
    -- is the match of such a phrase, under the name of the skill that owns the rule.
    pub find_match-IsFound :
        (text locale : Text) (index : RuleIndex)
        → IsFound
            (offers (entries (for_locale locale index)) text)
            (find_match floats try_match_phrase text locale index)
    unfolding choose pick
    find_match-IsFound text locale index =
        let ms = offers (entries (for_locale locale index)) text in
        subst (IsFound ms) (sym (find_match-choose text locale index)) (chosen ms)
      where
        found :
            (n : IntentMatch floats) (ns : List (IntentMatch floats))
            (r : Option (IntentMatch floats))
            → From ns (some n) r
            → IsFound (n ∷ ns) r
        found n ns none (e, nil) = cc
        found n ns (some m) (inl e) = inl cc
        found n ns (some m) (inr o) = inr o

        chosen : (ms : List (IntentMatch floats)) → IsFound ms (choose ms none)
        chosen [] = refl
        chosen (n ∷ ns) = found n ns (choose ns (some n)) (choose-some ns n)

    -- A match that is better than every other one that is offered, by its confidence or, where the two are near,
    -- by more words of its phrase, is found, wherever it stands.
    pub find_match-best :
        (text locale : Text) (index : RuleIndex) (m : IntentMatch floats)
        → Offered m (offers (entries (for_locale locale index)) text)
        → Unrivalled m (offers (entries (for_locale locale index)) text)
        → find_match floats try_match_phrase text locale index ≡ some m
    find_match-best text locale index m o u =
        find_match-choose text locale index
        ∙ choose-best m (offers (entries (for_locale locale index)) text) none o u tt
