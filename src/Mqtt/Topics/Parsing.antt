-- ===== src/Mqtt/Topics/Parsing.antt =====
-- What the topic parser accepts, and that it reads back what the protocol writes.
use mathlib.Core.Path.{subst}
use athena_voice.Base.{
  ◌≡◌, refl, ap, ◌∙◌, sym, inl, inr, true, false, none, some, List, [], ◌∷◌, arith, all, ok,
  Option-cases, Bool-cases, Result-cases,
}
use athena_voice.Text.{Text, codes, contains, text_eq, split, join}
use athena_voice.Text.Split.{text_eq_refl, eq_of_text_eq, split-join, join-split, split-no_sep}
use athena_voice.Core.Ids.{
  UuidLib, SatelliteId, is_satellite_char, satellite_id_new, session_id_from_str,
}
use athena_voice.Core.Ids.Laws.{IsSatelliteId-of_ok, as_str-satellite_id_new}
use athena_voice.Mqtt.Topics.{
  ParsedTopic, start, audio, text, finish, to_option, ◌>>=◌, parse_verb, parse_parts,
  parse_satellite_topic,
}

-- An id that the constructor has accepted.
abbrev pub IsAccepted : SatelliteId → Type 0
IsAccepted sat = satellite_id_new sat.as_str ≡ ok sat

no_slash : (s : Text) → all is_satellite_char s ≡ true → contains b'/' s ≡ false
unfolding is_satellite_char
no_slash [] h = refl
no_slash (c ∷ s) h = ground (arith, no_slash s)

pub IsAccepted-no_slash : (sat : SatelliteId) → IsAccepted sat → contains b'/' sat.as_str ≡ false
IsAccepted-no_slash sat h = no_slash sat.as_str (IsSatelliteId-of_ok sat.as_str sat h).spelled

module _ (lib : UuidLib) where
  open lib use {Uuid, to_string, parse_str, parse-to_string, hyphenated}

  -- The topic on which a satellite sends, as the six levels of the protocol.
  abbrev pub levels : Text → Text → Text → Text → List Text
  levels root sat sid verb = root ∷ codes "sat" ∷ sat ∷ codes "session" ∷ sid ∷ verb ∷ []

  -- The levels that a parsed topic stands for: its satellite, its session and its verb.
  abbrev pub verb_of : ParsedTopic Uuid → Text
  verb_of (start _ _) = codes "start"
  verb_of (audio _ _) = codes "audio"
  verb_of (text _ _) = codes "text"
  verb_of (finish _ _) = codes "end"

  abbrev pub sat_of : ParsedTopic Uuid → SatelliteId
  sat_of (start sat _) = sat
  sat_of (audio sat _) = sat
  sat_of (text sat _) = sat
  sat_of (finish sat _) = sat

  abbrev pub sid_of : ParsedTopic Uuid → Uuid
  sid_of (start _ sid) = sid
  sid_of (audio _ sid) = sid
  sid_of (text _ sid) = sid
  sid_of (finish _ sid) = sid

  parse_verb_of : (p : ParsedTopic Uuid) → parse_verb lib (verb_of p) (sat_of p) (sid_of p) ≡ some p
  unfolding parse_verb text_eq
  parse_verb_of (start sat sid) = refl
  parse_verb_of (audio sat sid) = refl
  parse_verb_of (text sat sid) = refl
  parse_verb_of (finish sat sid) = refl

  session_id_ok : (s : Text) {u : Uuid} → parse_str s ≡ some u → session_id_from_str lib s ≡ ok u
  unfolding session_id_from_str
  session_id_ok s h = rw (h, session_id_from_str) refl

  parse_levels :
      (root sid : Text) (p : ParsedTopic Uuid)
      → IsAccepted (sat_of p)
      → parse_str sid ≡ some (sid_of p)
      → parse_parts lib root (levels root (sat_of p).as_str sid (verb_of p)) ≡ some p
  unfolding parse_parts
  parse_levels root sid p a u = simp (text_eq_refl, a, session_id_ok sid u) (parse_verb_of p)

  verb-no_slash : (p : ParsedTopic Uuid) → contains b'/' (verb_of p) ≡ false
  verb-no_slash (start sat sid) = refl
  verb-no_slash (audio sat sid) = refl
  verb-no_slash (text sat sid) = refl
  verb-no_slash (finish sat sid) = refl

  -- Under a root that has no slash, a topic made of the levels root, `sat`, an accepted satellite id,
  -- `session`, the printed session id, and a verb, is parsed to just these.
  pub parse-join :
      (root : Text) (p : ParsedTopic Uuid)
      → contains b'/' root ≡ false
      → IsAccepted (sat_of p)
      → parse_satellite_topic lib root
          (join b'/' (levels root (sat_of p).as_str (to_string (sid_of p)) (verb_of p)))
        ≡ some p
  unfolding parse_satellite_topic
  parse-join root p r a =
      let sid = to_string (sid_of p) in
      rw
        (split-join b'/' root
          (codes "sat" ∷ (sat_of p).as_str ∷ codes "session" ∷ sid ∷ verb_of p ∷ [])
          (
            r,
            (
              refl,
              (
                IsAccepted-no_slash (sat_of p) a,
                (refl, (hyphenated (sid_of p), (verb-no_slash p, tt))),
              ),
            ),
          ))
        (parse_levels root sid p a (parse-to_string (sid_of p)))

  -- What the levels of an accepted topic must be.
  abbrev pub Spells : Text → ParsedTopic Uuid → List Text → Type 0
  Spells root p parts =
      (sid : Text) × (parts ≡ levels root (sat_of p).as_str sid (verb_of p))
      × IsAccepted (sat_of p)
      × (parse_str sid ≡ some (sid_of p))

  parse_verb-inv :
      (verb : Text) (sat : SatelliteId) (sid : Uuid) (p : ParsedTopic Uuid)
      → parse_verb lib verb sat sid ≡ some p
      → (verb ≡ verb_of p) × (sat ≡ sat_of p) × (sid ≡ sid_of p)
  unfolding parse_verb
  parse_verb-inv verb sat sid (start s u) h = ground (arith, eq_of_text_eq verb (codes "start"))
  parse_verb-inv verb sat sid (audio s u) h = ground (arith, eq_of_text_eq verb (codes "audio"))
  parse_verb-inv verb sat sid (text s u) h = ground (arith, eq_of_text_eq verb (codes "text"))
  parse_verb-inv verb sat sid (finish s u) h = ground (arith, eq_of_text_eq verb (codes "end"))

  session_id-inv : (s : Text) (u : Uuid) → session_id_from_str lib s ≡ ok u → parse_str s ≡ some u
  unfolding session_id_from_str
  session_id-inv s u h = ground arith

  parse_ids-inv :
      (p2 p4 p5 : Text) (p : ParsedTopic Uuid)
      → (to_option (satellite_id_new p2) >>= λ sat.
          to_option (session_id_from_str lib p4) >>= λ sid. parse_verb lib p5 sat sid)
        ≡ some p
      → (p2 ≡ (sat_of p).as_str)
        × IsAccepted (sat_of p)
        × (parse_str p4 ≡ some (sid_of p))
        × (p5 ≡ verb_of p)
  parse_ids-inv p2 p4 p5 p h = elim (Result-cases (satellite_id_new p2)) [
    | inr (e, bad) ↦ cc (bad)
    | inl (sat, good) ↦ elim (Result-cases (session_id_from_str lib p4)) [
      | inr (e, bad) ↦ cc (good, bad)
      | inl (sid, parsed) ↦
          let inner : parse_verb lib p5 sat sid ≡ some p = rw (good, parsed) at h in
          let (verb, sat_eq, sid_eq) = parse_verb-inv p5 sat sid p inner in
          let as_text = as_str-satellite_id_new p2 sat good in
          (
            cc (as_text, sat_eq),
            subst IsAccepted sat_eq (ap satellite_id_new as_text ∙ good),
            rw (← sid_eq) (session_id-inv p4 sid parsed),
            verb,
          )
    ]
  ]

  parse_parts-Spells :
      (root : Text) (parts : List Text) (p : ParsedTopic Uuid)
      → parse_parts lib root parts ≡ some p
      → Spells root p parts
  unfolding parse_parts
  parse_parts-Spells root (p0 ∷ p1 ∷ p2 ∷ p3 ∷ p4 ∷ p5 ∷ []) p h =
      elim (Bool-cases (text_eq p0 root)) [
        | inr bad ↦ absurd (ground arith)
        | inl is_root ↦ elim (Bool-cases (text_eq p1 (codes "sat"))) [
          | inr bad ↦ absurd (ground arith)
          | inl is_sat ↦ elim (Bool-cases (text_eq p3 (codes "session"))) [
            | inr bad ↦ absurd (ground arith)
            | inl is_session ↦
                let (a, b, c, d) =
                  parse_ids-inv p2 p4 p5 p (rw (is_root, is_sat, is_session) at h) in
                (
                  p4,
                  cc (
                    a,
                    d,
                    eq_of_text_eq p0 root is_root,
                    eq_of_text_eq p1 (codes "sat") is_sat,
                    eq_of_text_eq p3 (codes "session") is_session,
                  ),
                  b,
                  c,
                )
          ]
        ]
      ]
  parse_parts-Spells root _ p h = cc

  -- Whatever topic is parsed was spelled with the root, `sat`, an accepted satellite id, `session`, a
  -- text that parses as the session id, and the verb of the result: no other topic gets through, in
  -- particular none under another root.
  pub parse_sound :
      (root topic : Text) (p : ParsedTopic Uuid)
      → parse_satellite_topic lib root topic ≡ some p
      → (sid : Text) × (topic ≡ join b'/' (levels root (sat_of p).as_str sid (verb_of p)))
        × IsAccepted (sat_of p)
        × (parse_str sid ≡ some (sid_of p))
  unfolding parse_satellite_topic
  parse_sound root topic p h =
      let (sid, spelled, a, u) = parse_parts-Spells root (split b'/' topic) p h in
      (sid, sym (join-split b'/' topic) ∙ ap (join b'/') spelled, a, u)

  -- Under a root that has a slash in it, no topic at all is parsed: the parser compares the root with the
  -- first level alone.
  pub parse_slashed_root :
      (root topic : Text) → contains b'/' root ≡ true → parse_satellite_topic lib root topic ≡ none
  unfolding parse_satellite_topic
  parse_slashed_root root topic slashed =
      elim (Option-cases (parse_parts lib root (split b'/' topic))) [
        | inl e ↦ e
        | inr (p, e) ↦
            let (sid, spelled, _, _) = parse_parts-Spells root (split b'/' topic) p e in
            let parts = rw spelled at (split-no_sep b'/' topic) in absurd (cc (slashed, parts.0))
      ]
