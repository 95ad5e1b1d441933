-- ===== src/Assist/Topics/Parsing.antt =====
-- Which topics are questions of a device.
use athena_voice.Base.{
  ◌≡◌, refl, sym, ap, ◌∙◌, ◌↔◌, false, ◌||◌, any, ◌==◌, arith, [], ◌∷◌, Option, none, some, ◌++◌,
  Bool-cases, inl, inr,
}
use athena_voice.Text.{Text, codes, contains, is_empty, strip_prefix}
use athena_voice.Text.Split.{strip_prefix-append, eq_of_strip_prefix}
use athena_voice.Assist.Topics.{is_hostile, parse_transcription, rest_of, level_of, device_of}

-- The topic of the questions of a device.
abbrev pub question_topic : Text → Text → Text
question_topic prefix device = prefix ++ (codes "/" ++ (codes "transcription/" ++ device))

device_of-safe :
    (o : Option Text) (device : Text)
    → device_of o ≡ some device
    → (o ≡ some device) × (is_hostile device ≡ false)
unfolding device_of
device_of-safe none device h = cc
device_of-safe (some d) device h = elim (Bool-cases (is_hostile d)) [
  | inl hostile ↦ let none_given : refused ≡ some device = sym (rw hostile refl) ∙ h in cc
  | inr safe ↦
      let given : some d ≡ some device = sym (rw safe refl) ∙ h in
      let same : d ≡ device = cc in (given, ap is_hostile (sym same) ∙ safe)
]
  where
    refused : Option Text
    refused = none

-- An id that can be one level of a topic and of no filter.
abbrev pub IsLevel : Text → Type 0
IsLevel device =
    (is_empty device ≡ false)
    × ((contains b'/' device ≡ false)
        × ((contains b'+' device ≡ false) × (contains b'#' device ≡ false)))

no_special :
    (t : Text)
    → any (λ c. c == b'/' || (c == b'+' || c == b'#')) t ≡ false
    → (contains b'/' t ≡ false) × ((contains b'+' t ≡ false) × (contains b'#' t ≡ false))
no_special [] h = (refl, (refl, refl))
no_special (c ∷ t) h = ground (arith, no_special t)

special_none :
    (t : Text)
    → contains b'/' t ≡ false
    → contains b'+' t ≡ false
    → contains b'#' t ≡ false
    → any (λ c. c == b'/' || (c == b'+' || c == b'#')) t ≡ false
special_none [] a b d = refl
special_none (c ∷ t) a b d = ground (arith, special_none t)

is_hostile-IsLevel : (device : Text) → is_hostile device ≡ false → IsLevel device
is_hostile-IsLevel [] h = cc
is_hostile-IsLevel (c ∷ t) h = (refl, no_special (c ∷ t) h)

IsLevel-safe : (device : Text) → IsLevel device → is_hostile device ≡ false
IsLevel-safe [] (e, rest) = cc
IsLevel-safe (c ∷ t) (e, (a, (b, d))) = special_none (c ∷ t) a b d

parse_transcription-safe :
    (prefix topic device : Text)
    → (parse_transcription prefix topic ≡ some device)
      ↔ ((topic ≡ question_topic prefix device) × (is_hostile device ≡ false))
unfolding parse_transcription rest_of level_of
parse_transcription-safe prefix topic device = (parsed (strip_prefix prefix topic) refl, printed)
  where
    leveled :
        (rest : Text) (o : Option Text)
        → strip_prefix (codes "/") rest ≡ o
        → level_of o ≡ some device
        → (rest ≡ codes "/" ++ (codes "transcription/" ++ device)) × (is_hostile device ≡ false)
    leveled rest none at h = cc
    leveled rest (some t) at h =
        let (stripped, safe) = device_of-safe (strip_prefix (codes "transcription/") t) device h in
        (
          eq_of_strip_prefix (codes "/") rest t at
              ∙ ap (λ x. codes "/" ++ x)
                  (eq_of_strip_prefix (codes "transcription/") t device stripped),
          safe,
        )

    parsed :
        (o : Option Text)
        → strip_prefix prefix topic ≡ o
        → rest_of o ≡ some device
        → (topic ≡ question_topic prefix device) × (is_hostile device ≡ false)
    parsed none at h = cc
    parsed (some rest) at h =
        let (spelled, safe) = leveled rest (strip_prefix (codes "/") rest) refl h in
        (eq_of_strip_prefix prefix topic rest at ∙ ap (λ x. prefix ++ x) spelled, safe)

    printed :
        (topic ≡ question_topic prefix device) × (is_hostile device ≡ false)
        → parse_transcription prefix topic ≡ some device
    printed (spelled, safe) =
        ap (parse_transcription prefix) spelled
        ∙ ap rest_of (strip_prefix-append prefix (codes "/" ++ (codes "transcription/" ++ device)))
        ∙ ap level_of (strip_prefix-append (codes "/") (codes "transcription/" ++ device))
        ∙ ap device_of (strip_prefix-append (codes "transcription/") device)
        ∙ (rw safe refl)

-- A topic is a question of a device exactly if it is the prefix, the level `transcription` and the device's id, and
-- the id is not empty and has no slash, plus or hash.
pub parse_transcription_iff :
    (prefix topic device : Text)
    → (parse_transcription prefix topic ≡ some device)
      ↔ ((topic ≡ question_topic prefix device) × IsLevel device)
parse_transcription_iff prefix topic device = (
  λ h.
      let (spelled, safe) = (parse_transcription-safe prefix topic device).0 h in
      (spelled, is_hostile-IsLevel device safe),
  λ (spelled, level).
      (parse_transcription-safe prefix topic device).1 (spelled, IsLevel-safe device level),
)
