-- ===== src/Satellite/Session/Wire.antt =====
-- The satellite and the runtime speak the same topics: what the one publishes the other parses, and what
-- the runtime publishes reaches the satellite's session, and no other one.
use athena_voice.Base.{
  ℕ, ◌≡◌, ◌≢◌, refl, ap, ◌∙◌, sym, ◌⊎◌, Bool, ltb, if◌then◌else◌, Option, true, false, none, some,
  List, [], ◌∷◌, ◌++◌, append-nil, append_assoc, arith, Option-cases, Bool-cases, inl, inr, All,
}
use athena_voice.Text.{utf8, Text, codes, contains, split, join, concat, strip_prefix, text_eq}
use athena_voice.Text.Split.{split-append, strip_prefix-append, eq_of_strip_prefix}
use athena_voice.Core.Ids.{UuidLib, SatelliteId}
use athena_voice.Core.Json.{JsonLib}
use athena_voice.Mqtt.Topics.{
  ◌>>=◌, start, audio, session_tts, session_tts_meta, session_tts_text, session_done,
  session_transcript, parse_satellite_topic,
}
use athena_voice.Mqtt.Topics.Parsing.{IsAccepted, levels, parse-join}
use athena_voice.Satellite.Session.{
  Session, idle, streaming, awaiting_reply, playing, trigger, mic_frame, inbound, publish, play,
  session_ended, topic_for, handle, on_inbound, on_stripped, on_suffix, finish, tts_text, tts_meta,
  transcript, Command, show_transcript, show_answer, configure_speaker, accepts_inbound,
}

-- The satellite's own id, as the runtime reads it.
abbrev pub sat_of_session : Session → SatelliteId
sat_of_session s = record { as_str = s.sat_id }

-- What precedes the last part of every topic of a session.
abbrev prefix_of : Text → Text → Text → Text
prefix_of root sat sid =
    concat (root ∷ codes "/sat/" ∷ sat ∷ codes "/session/" ∷ sid ∷ codes "/" ∷ [])

prefix_of-append :
    (root sat sid suffix : Text)
    → prefix_of root sat sid ++ suffix
      ≡ concat (root ∷ codes "/sat/" ∷ sat ∷ codes "/session/" ∷ sid ∷ codes "/" ∷ suffix ∷ [])
prefix_of-append root sat sid suffix = simp (append_assoc, append-nil)

strip_prefix_common : (a b c : Text) → strip_prefix (a ++ b) (a ++ c) ≡ strip_prefix b c
unfolding strip_prefix
strip_prefix_common [] b c = refl
strip_prefix_common (x ∷ a) b c = ground (arith, strip_prefix_common a b c)

-- A session id without a slash is told apart from every other one.
strip_other :
    (sid other suffix : Text)
    → contains b'/' sid ≡ false
    → contains b'/' other ≡ false
    → sid ≢ other
    → strip_prefix (sid ++ codes "/") (other ++ b'/' ∷ suffix) ≡ none
strip_other sid other suffix a b n =
    elim (Option-cases (strip_prefix (sid ++ codes "/") (other ++ b'/' ∷ suffix))) [
      | inl e ↦ e
      | inr (r, e) ↦
          let spelled = eq_of_strip_prefix (sid ++ codes "/") (other ++ b'/' ∷ suffix) r e in
          let spelled' : other ++ b'/' ∷ suffix ≡ sid ++ b'/' ∷ r =
            spelled ∙ append_assoc sid (codes "/") r in
          let parts =
            sym (split-append b'/' other suffix b)
            ∙ ap (split b'/') spelled'
            ∙ split-append b'/' sid r a in
          absurd (n (cc (parts)))
    ]

-- The five topics on which the runtime answers a session.
abbrev pub answer_topics : (lib : UuidLib) → Text → SatelliteId → lib.Uuid → List Text
answer_topics lib root sat sid =
    session_transcript lib root sat sid
    ∷ session_tts lib root sat sid
    ∷ session_tts_meta lib root sat sid
    ∷ session_tts_text lib root sat sid
    ∷ session_done lib root sat sid
    ∷ []

module _ (lib : UuidLib) (json : JsonLib) where
  open lib use {Uuid, to_string, hyphenated}

  triggered :
      (s : Session) (u : Uuid) (now_ms : ℕ)
      → s.state ≡ idle
      → (handle json s (to_string u) trigger now_ms).1
        ≡ publish
            (join b'/' (levels lib s.root s.sat_id (to_string u) (codes "start")))
            (utf8 (concat (codes "{\"locale\":\"" ∷ s.locale ∷ codes "\"}" ∷ [])))
          ∷ []
  unfolding handle topic_for join
  triggered s u now_ms e = ground arith

  streamed :
      (s : Session) (u : Uuid) (bytes : List ℕ) (now_ms : ℕ) (fresh : Text)
      → s.state ≡ streaming
      → s.sid ≡ some (to_string u)
      → handle json s fresh (mic_frame bytes) now_ms ≡ (
        s,
        publish (join b'/' (levels lib s.root s.sat_id (to_string u) (codes "audio"))) bytes ∷ [],
      )
  unfolding handle topic_for join
  streamed s u bytes now_ms fresh e e' = ground arith

  -- A satellite that is triggered with a new id publishes one message, on a topic that the runtime parses
  -- as the start of just this session on this satellite, if its root has no slash and its own id is one
  -- that the runtime accepts.
  pub start_parses :
      (s : Session) (u : Uuid) (now_ms : ℕ)
      → contains b'/' s.root ≡ false
      → IsAccepted (sat_of_session s)
      → s.state ≡ idle
      → (topic : Text) × (payload : List ℕ) × ((handle json s (to_string u) trigger now_ms).1
          ≡ publish topic payload ∷ [])
        × (parse_satellite_topic lib s.root topic ≡ some (start (sat_of_session s) u))
  start_parses s u now_ms r a e = (
    join b'/' (levels lib s.root s.sat_id (to_string u) (codes "start")),
    _,
    triggered s u now_ms e,
    parse-join lib s.root (start (sat_of_session s) u) r a,
  )

  -- Each microphone frame of a streaming session is published unchanged, on a topic that the runtime parses
  -- as audio of this session on this satellite, if the root has no slash and the satellite's id is one
  -- that the runtime accepts.
  pub audio_parses :
      (s : Session) (u : Uuid) (bytes : List ℕ) (now_ms : ℕ) (fresh : Text)
      → contains b'/' s.root ≡ false
      → IsAccepted (sat_of_session s)
      → s.state ≡ streaming
      → s.sid ≡ some (to_string u)
      → (topic : Text) × (handle json s fresh (mic_frame bytes) now_ms
          ≡ (s, publish topic bytes ∷ []))
        × (parse_satellite_topic lib s.root topic ≡ some (audio (sat_of_session s) u))
  audio_parses s u bytes now_ms fresh r a e e' = (
    join b'/' (levels lib s.root s.sat_id (to_string u) (codes "audio")),
    streamed s u bytes now_ms fresh e e',
    parse-join lib s.root (audio (sat_of_session s) u) r a,
  )

  hearing :
      (s : Session)
      → (s.state ≡ awaiting_reply) ⊎ (s.state ≡ playing)
      → accepts_inbound s.state ≡ true
  unfolding accepts_inbound
  hearing s h = ground arith

  -- What a session makes of a message on one of its own topics, and on one of another session.
  hears_own :
      (s : Session) (u : Uuid) (suffix : Text) (payload : List ℕ) (topic : Text)
      → accepts_inbound s.state ≡ true
      → s.sid ≡ some (to_string u)
      → topic ≡ prefix_of s.root s.sat_id (to_string u) ++ suffix
      → on_inbound json s topic payload ≡ on_suffix json s suffix payload
  unfolding on_inbound on_stripped
  hears_own s u suffix payload topic hears is_sid e =
      let stripped : strip_prefix (prefix_of s.root s.sat_id (to_string u)) topic ≡ some suffix =
        ap (strip_prefix (prefix_of s.root s.sat_id (to_string u))) e
        ∙ strip_prefix-append (prefix_of s.root s.sat_id (to_string u)) suffix in
      simp (hears, is_sid, stripped) refl

  prefix_other :
      (root sat : Text) (u v : Uuid) (suffix : Text)
      → to_string u ≢ to_string v
      → strip_prefix (prefix_of root sat (to_string u)) (prefix_of root sat (to_string v) ++ suffix)
        ≡ none
  unfolding strip_prefix
  prefix_other root sat u v suffix n =
      simp (append_assoc, append-nil, strip_prefix_common)
        (strip_other (to_string u) (to_string v) suffix (hyphenated u) (hyphenated v) n)

  deaf_to_other :
      (s : Session) (u v : Uuid) (suffix : Text) (payload : List ℕ) (topic : Text)
      → s.sid ≡ some (to_string u)
      → to_string u ≢ to_string v
      → topic ≡ prefix_of s.root s.sat_id (to_string v) ++ suffix
      → on_inbound json s topic payload ≡ (s, [])
  unfolding on_inbound on_stripped
  deaf_to_other s u v suffix payload topic is_sid n e =
      let stripped : strip_prefix (prefix_of s.root s.sat_id (to_string u)) topic ≡ none =
        ap (strip_prefix (prefix_of s.root s.sat_id (to_string u))) e
        ∙ prefix_other s.root s.sat_id u v suffix n in
      elim (Bool-cases (accepts_inbound s.state)) [
        | inl hears ↦ simp (hears, is_sid, stripped) refl
        | inr deaf ↦ simp deaf refl
      ]

  -- The value of a field of a payload.
  abbrev pub field : List ℕ → Text → Option json.Value
  field payload key = json.from_slice payload >>= λ v. json.get v key

  -- What a satellite does with the transcript, the text and the sample rate that it finds.
  abbrev pub transcript_shown : Option Text → Option Bool → List Command
  transcript_shown none final = []
  transcript_shown (some t) none = show_transcript t false ∷ []
  transcript_shown (some t) (some final) = show_transcript t final ∷ []

  abbrev pub answer_shown : Option Text → List Command
  answer_shown none = []
  answer_shown (some t) = show_answer t ∷ []

  abbrev pub speaker_set : Option ℕ → List Command
  speaker_set none = []
  speaker_set (some rate) = if ltb rate 4294967296 then configure_speaker rate ∷ [] else []

  transcript-shown :
      (payload : List ℕ)
      → transcript json payload
        ≡ transcript_shown
            (field payload (codes "text") >>= json.as_str)
            (field payload (codes "is_final") >>= json.as_bool)
  unfolding transcript
  transcript-shown payload = elim (Option-cases (json.from_slice payload)) [
    | inl e ↦ rw (transcript, e) refl
    | inr (v, e) ↦
        rw (transcript, e)
          (elim (Option-cases (json.get v (codes "text"))) [
            | inl e' ↦ rw (transcript, e') refl
            | inr (w, e') ↦
                rw (transcript, e')
                  (elim (Option-cases (json.as_str w)) [
                    | inl e'' ↦ rw (transcript, e'') refl
                    | inr (t, e'') ↦
                        rw (transcript, e'')
                          (elim (Option-cases (json.get v (codes "is_final"))) [
                            | inl f ↦ rw (transcript, f) refl
                            | inr (b, f) ↦
                                rw (transcript, f)
                                  (elim (Option-cases (json.as_bool b)) [
                                    | inl f' ↦ rw (transcript, f') refl
                                    | inr (final, f') ↦ rw (transcript, f') refl
                                  ])
                          ])
                  ])
          ])
  ]

  tts_text-shown :
      (payload : List ℕ)
      → tts_text json payload ≡ answer_shown (field payload (codes "text") >>= json.as_str)
  unfolding tts_text
  tts_text-shown payload = elim (Option-cases (json.from_slice payload)) [
    | inl e ↦ rw (tts_text, e) refl
    | inr (v, e) ↦
        rw (tts_text, e)
          (elim (Option-cases (json.get v (codes "text"))) [
            | inl e' ↦ rw (tts_text, e') refl
            | inr (w, e') ↦
                rw (tts_text, e')
                  (elim (Option-cases (json.as_str w)) [
                    | inl e'' ↦ rw (tts_text, e'') refl
                    | inr (t, e'') ↦ rw (tts_text, e'') refl
                  ])
          ])
  ]

  tts_meta-set :
      (s : Session) (payload : List ℕ)
      → tts_meta json s payload ≡ (
        record s { state = playing },
        speaker_set (field payload (codes "sample_rate") >>= json.as_u64),
      )
  unfolding tts_meta
  tts_meta-set s payload = elim (Option-cases (json.from_slice payload)) [
    | inl e ↦ rw e refl
    | inr (v, e) ↦ rw e (elim (Option-cases (json.get v (codes "sample_rate"))) [
      | inl e' ↦ rw e' refl
      | inr (w, e') ↦ rw e' (elim (Option-cases (json.as_u64 w)) [
        | inl e'' ↦ rw e'' refl
        | inr (t, e'') ↦ rw e'' (elim (Bool-cases (ltb t 4294967296)) [
          | inl fits ↦ rw fits refl
          | inr large ↦ rw large refl
        ])
      ])
    ])
  ]

  -- While a satellite waits or plays, what the runtime publishes on the session's own five topics takes effect:
  -- `done` ends the session; audio is played; the sample rate of `tts/meta`, if it fits a `u32`, is set, and both
  -- of them start playing; the `text` of a transcript is shown, as final if `is_final` says so, and so is the
  -- `text` of an answer. A payload without such a field shows and sets nothing.
  pub answers_heard :
      (s : Session) (u : Uuid) (payload : List ℕ) (fresh : Text) (now_ms : ℕ)
      → (s.state ≡ awaiting_reply) ⊎ (s.state ≡ playing)
      → s.sid ≡ some (to_string u)
      → let on = λ (topic : Text). handle json s fresh (inbound topic payload) now_ms in
        let text = field payload (codes "text") >>= json.as_str in
        (on (session_done lib s.root (sat_of_session s) u)
          ≡ (record s { state = idle; sid = none; deadline_ms = none }, session_ended ∷ []))
        × ((on (session_tts lib s.root (sat_of_session s) u)
              ≡ (record s { state = playing }, play payload ∷ []))
            × ((on (session_tts_meta lib s.root (sat_of_session s) u) ≡ (
              record s { state = playing },
              speaker_set (field payload (codes "sample_rate") >>= json.as_u64),
            ))
                × ((on (session_transcript lib s.root (sat_of_session s) u) ≡ (
                  s,
                  transcript_shown text (field payload (codes "is_final") >>= json.as_bool),
                ))
                    × (on (session_tts_text lib s.root (sat_of_session s) u)
                        ≡ (s, answer_shown text)))))
  unfolding handle session_done session_tts session_tts_text session_tts_meta session_transcript
  answers_heard s u payload fresh now_ms hears is_sid =
      let on = hearing s hears in
      (
        hears_own s u (codes "done") payload _ on is_sid (simp (append_assoc, append-nil))
            ∙ unfold on_suffix text_eq finish in refl,
        (
          hears_own s u (codes "tts") payload _ on is_sid (simp (append_assoc, append-nil))
              ∙ unfold on_suffix text_eq in refl,
          (
            hears_own s u (codes "tts/meta") payload _ on is_sid (simp (append_assoc, append-nil))
                ∙ unfold on_suffix text_eq in tts_meta-set s payload,
            (
              hears_own s u (codes "transcript") payload _ on is_sid
                    (simp (append_assoc, append-nil))
                  ∙ unfold on_suffix text_eq in ap (λ cs. (s, cs)) (transcript-shown payload),
              hears_own s u (codes "tts/text") payload _ on is_sid (simp (append_assoc, append-nil))
                  ∙ unfold on_suffix text_eq in ap (λ cs. (s, cs)) (tts_text-shown payload),
            ),
          ),
        ),
      )

  -- What the runtime publishes for another session of the same satellite changes nothing and has no
  -- effect, whatever the state.
  pub foreign_ignored :
      (s : Session) (u v : Uuid) (payload : List ℕ) (fresh : Text) (now_ms : ℕ)
      → s.sid ≡ some (to_string u)
      → to_string u ≢ to_string v
      → All
          (λ topic. handle json s fresh (inbound topic payload) now_ms ≡ (s, []))
          (answer_topics lib s.root (sat_of_session s) v)
  unfolding handle session_transcript session_tts session_tts_meta session_tts_text session_done
  foreign_ignored s u v payload fresh now_ms is_sid n = (
    other (codes "transcript"),
    (
      other (codes "tts"),
      (other (codes "tts/meta"), (other (codes "tts/text"), (other (codes "done"), tt))),
    ),
  )
    where
      other :
          (suffix : Text)
          → on_inbound json s
              (concat (
                s.root
                ∷ codes "/sat/"
                ∷ s.sat_id
                ∷ codes "/session/"
                ∷ to_string v
                ∷ codes "/"
                ∷ suffix
                ∷ []))
              payload
            ≡ (s, [])
      other suffix =
          deaf_to_other s u v suffix payload _ is_sid n
            (sym (prefix_of-append s.root s.sat_id (to_string v) suffix))
