-- ===== src/Mqtt/Filter/Matching.antt =====
-- The matcher decides the relation that the MQTT standard describes, level by level.
use athena_voice.Base.{
  ℕ, suc, ◌+◌, ◌≡◌, ◌≢◌, refl, ap, ◌∙◌, ◌↔◌, Bool, true, false, not, ◌&&◌, none, some, List, [],
  ◌∷◌, arith, ◌==◌, if◌then◌else◌, length, get_elem?, Bool-cases, inl, inr, &&-true, sym,
}
use athena_voice.Text.{Text, codes, text_eq, split}
use athena_voice.Text.Split.{text_eq_refl, eq_of_text_eq}
use athena_voice.Mqtt.Filter.{match_levels, mqtt_topic_matches}

-- Filter levels against topic levels: `#` stands last and takes any rest, also none; `+` takes one
-- level; any other level takes itself.
pub data Matches : List Text → List Text → Type 0 where
  done : Matches [] []
  tail : {p : Text} {ts : List Text} → p ≡ codes "#" → Matches (p ∷ []) ts
  one : {p t : Text} {ps ts : List Text} → p ≡ codes "+" → Matches ps ts → Matches (p ∷ ps) (t ∷ ts)
  same :
      {p t : Text} {ps ts : List Text}
      → p ≢ codes "#"
      → p ≡ t
      → Matches ps ts
      → Matches (p ∷ ps) (t ∷ ts)

-- The same walk on the two lists, with no index.
walk : List Text → List Text → Bool
walk [] [] = true
walk [] (t ∷ ts) = false
walk (p ∷ ps) [] = text_eq p (codes "#") && (length ps == 0)
walk (p ∷ ps) (t ∷ ts) =
    let rest = walk ps ts in
    if text_eq p (codes "#")
    then length ps == 0
    else if text_eq p (codes "+")
    then rest
    else if not (text_eq p t)
    then false
    else rest

match_levels-walk :
    (n i : ℕ) (ps ts topic : List Text)
    → n ≡ i + length ps
    → length topic ≡ i + length ts
    → ((j : ℕ) → get_elem? topic (i + j) ≡ get_elem? ts j)
    → match_levels n i ps topic ≡ walk ps ts
unfolding match_levels walk
match_levels-walk n i [] [] topic e l h = ground arith
match_levels-walk n i [] (t ∷ ts) topic e l h = ground arith
match_levels-walk n i (p ∷ ps) [] topic e l h =
    let i0 : i + 0 ≡ i = omega arith in
    let here : get_elem? topic i ≡ none = rw i0 at (h 0) in ground arith
match_levels-walk n i (p ∷ ps) (t ∷ ts) topic e l h =
    let i0 : i + 0 ≡ i = omega arith in
    let here : get_elem? topic i ≡ some t = rw i0 at (h 0) in
    ground (arith, match_levels-walk n (i + 1) ps ts topic (omega arith) (omega arith) later)
  where
    later : (j : ℕ) → get_elem? topic (i + 1 + j) ≡ get_elem? ts j
    later j = let e : i + 1 + j ≡ i + suc j = omega arith in rw e (h (suc j))

length-zero : (ps : List Text) → (length ps == 0) ≡ true → ps ≡ []
length-zero [] h = refl
length-zero (p ∷ ps) h = absurd (ground arith)

Matches-of_walk : (ps ts : List Text) → walk ps ts ≡ true → Matches ps ts
unfolding walk
Matches-of_walk [] [] h = done
Matches-of_walk [] (t ∷ ts) h = cc
Matches-of_walk (p ∷ ps) [] h =
    let (hash, single) = &&-true (text_eq p (codes "#")) (length ps == 0) h in
    rw (length-zero ps single) (tail (eq_of_text_eq p (codes "#") hash))
Matches-of_walk (p ∷ ps) (t ∷ ts) h = elim (Bool-cases (text_eq p (codes "#"))) [
  | inl hash ↦ rw (length-zero ps (ground arith)) (tail (eq_of_text_eq p (codes "#") hash))
  | inr other ↦ elim (Bool-cases (text_eq p (codes "+"))) [
    | inl plus ↦ one (eq_of_text_eq p (codes "+") plus) (Matches-of_walk ps ts (ground arith))
    | inr plain ↦
        same (λ q. cc (other, q, text_eq_refl (codes "#"))) (eq_of_text_eq p t (ground arith))
          (Matches-of_walk ps ts (ground arith))
  ]
]

walk_of_Matches : {ps ts : List Text} → Matches ps ts → walk ps ts ≡ true
unfolding walk
walk_of_Matches done = refl
walk_of_Matches (tail {ts = []} e) = rw (e, text_eq_refl) refl
walk_of_Matches (tail {ts = t ∷ ts} e) = rw (e, text_eq_refl) refl
walk_of_Matches (one {p = p} {ps = ps} {ts = ts} e m) =
    let hash : text_eq p (codes "#") ≡ false = rw e (unfold text_eq in refl) in
    let plus : text_eq p (codes "+") ≡ true = rw e (text_eq_refl (codes "+")) in
    ground (arith, walk_of_Matches m)
walk_of_Matches (same {p = p} {t = t} n e m) =
    let equal : text_eq p t ≡ true = rw e (text_eq_refl t) in
    elim (Bool-cases (text_eq p (codes "#"))) [
      | inl hash ↦ absurd (n (eq_of_text_eq p (codes "#") hash))
      | inr other ↦ ground (arith, walk_of_Matches m)
    ]

-- A topic filter accepts a topic exactly when its levels match the topic's: a level `#` only at the end,
-- for any rest, `+` for one level, and any other level for itself.
pub mqtt_topic_matches_iff :
    (pattern topic : Text)
    → (mqtt_topic_matches pattern topic ≡ true) ↔ Matches (split b'/' pattern) (split b'/' topic)
unfolding mqtt_topic_matches
mqtt_topic_matches_iff pattern topic =
    let ps = split b'/' pattern in
    let ts = split b'/' topic in
    let e : mqtt_topic_matches pattern topic ≡ walk ps ts =
      match_levels-walk (length ps) 0 ps ts ts (omega arith) (omega arith)
        (λ j. let z : 0 + j ≡ j = omega arith in ap (get_elem? ts) z) in
    (λ h. Matches-of_walk ps ts (sym e ∙ h), λ m. e ∙ walk_of_Matches m)
