-- ===== src/Ingress/Delivery.antt =====
-- What a message of a satellite does to a session that is open, and to one that is not.
use mathlib.Core.Path.{subst}
use athena_voice.Base.{
  ℕ, ◌+◌, ◌≡◌, refl, sym, ap, ◌∙◌, false, Option, none, some, List, [], ◌∷◌, ◌++◌, append-nil,
  if◌then◌else◌, ◌==◌, ==_refl, Bool-cases, inl, inr,
}
use athena_voice.Base.Dict.{lookup-insert}
use athena_voice.Text.{Text, trim, is_empty, contains, join}
use athena_voice.Core.Json.{JsonLib}
use athena_voice.Core.Ids.{UuidLib}
use athena_voice.Mqtt.Topics.{ParsedTopic, start, audio, text, finish}
use athena_voice.Mqtt.Topics.Parsing.{IsAccepted, levels, verb_of, sat_of, sid_of, parse-join}
use athena_voice.Sessions.Manager.{SessionManager, SessionState, ids, get, touch, same_id_sound}
use athena_voice.Sessions.Manager.Laws.{
  close-get, touch-get, touch_absent, close_absent, open_session-present, open_session-get,
}
use athena_voice.Ingress.{
  Effect, session_started, pipeline, audio_frame, transcript_final, final_text, Runtime, or_english,
  opened, start_session, on_audio, on_text, extract_locale, on_topic, on_parsed, handle_publish,
}

module _ (lib : UuidLib) (json : JsonLib) (number : lib.Uuid → ℕ)
    (from_utf8_lossy : List ℕ → Text) where
  -- What reaches an open session: audio into its own channel; a text that is not blank, trimmed, as a final
  -- transcript, on the bus and to its router.
  abbrev pub delivered : ParsedTopic lib.Uuid → List ℕ → SessionState ℕ → List Effect
  delivered (start sat sid) payload st = []
  delivered (audio sat sid) payload st = audio_frame st.audio_tx (number sid) payload ∷ []
  delivered (text sat sid) payload st =
      let t = trim (from_utf8_lossy payload) in
      if is_empty t then [] else transcript_final (number sid) t ∷ final_text st.text_tx t ∷ []
  delivered (finish sat sid) payload st = []

  -- What becomes of it.
  abbrev pub after : ParsedTopic lib.Uuid → ℕ → SessionState ℕ → Option (SessionState ℕ)
  after (start sat sid) now st = some st
  after (audio sat sid) now st = some (record st { last_activity_ms = now })
  after (text sat sid) now st = some (record st { last_activity_ms = now })
  after (finish sat sid) now st = none

  -- The topic of a message.
  abbrev pub topic_of : Text → ParsedTopic lib.Uuid → Text
  topic_of root p =
      join b'/'
        (levels lib root (sat_of lib p).as_str (lib.to_string (sid_of lib p)) (verb_of lib p))

  handle_publish-topic :
      (root : Text) (p : ParsedTopic lib.Uuid) (payload : List ℕ) (now : ℕ) (rt : Runtime)
      → contains b'/' root ≡ false
      → IsAccepted (sat_of lib p)
      → handle_publish lib json number from_utf8_lossy root (topic_of root p) payload now rt
        ≡ on_topic lib json number from_utf8_lossy p payload now rt
  unfolding handle_publish on_parsed
  handle_publish-topic root p payload now rt plain accepted =
      ap (λ o. on_parsed lib json number from_utf8_lossy o payload now rt)
        (parse-join lib root p plain accepted)

  -- What a message must do to an open session.
  abbrev pub Delivers :
      ParsedTopic lib.Uuid → List ℕ → ℕ → SessionState ℕ → ℕ → Runtime → Runtime → Type 0
  Delivers p payload now st j rt rt' =
      (rt'.effects ≡ rt.effects ++ delivered p payload st)
      × (get j rt'.manager
          ≡ (if j == number (sid_of lib p) then after p now st else get j rt.manager))

  on_text-effects :
      (sid : ℕ) (t : Text) (st : SessionState ℕ) (rt : Runtime)
      → (on_text (some st) sid t rt).effects
        ≡ rt.effects
          ++ (if is_empty t then [] else transcript_final sid t ∷ final_text st.text_tx t ∷ [])
  unfolding on_text
  on_text-effects sid [] st rt = sym (append-nil rt.effects)
  on_text-effects sid (c ∷ t) st rt = refl

  on_text-manager :
      (sid : ℕ) (t : Text) (o : Option (SessionState ℕ)) (rt : Runtime)
      → (on_text o sid t rt).manager ≡ rt.manager
  unfolding on_text
  on_text-manager sid t none rt = refl
  on_text-manager sid [] (some st) rt = refl
  on_text-manager sid (c ∷ t) (some st) rt = refl

  on_audio-manager :
      (sid : ℕ) (payload : List ℕ) (o : Option (SessionState ℕ)) (rt : Runtime)
      → (on_audio o sid payload rt).manager ≡ rt.manager
  unfolding on_audio
  on_audio-manager sid payload none rt = refl
  on_audio-manager sid payload (some st) rt = refl

  touched :
      (k now : ℕ) (m : SessionManager ℕ) (st : SessionState ℕ)
      → get k m ≡ some st
      → get k (touch k now m) ≡ some (record st { last_activity_ms = now })
  touched k now m st h = touch-get k k now m st h ∙ rw (==_refl k) refl

  unchanged :
      (j k : ℕ) (m : SessionManager ℕ) (st : SessionState ℕ)
      → get k m ≡ some st
      → get j m ≡ (if j == k then some st else get j m)
  unchanged j k m st h = elim (Bool-cases (j == k)) [
    | inl hit ↦ rw hit (ap (λ x. get x m) (same_id_sound j k hit) ∙ h)
    | inr miss ↦ rw miss refl
  ]

  on_topic-Delivers :
      (p : ParsedTopic lib.Uuid) (payload : List ℕ) (now j : ℕ) (st : SessionState ℕ) (rt : Runtime)
      → get (number (sid_of lib p)) rt.manager ≡ some st
      → Delivers p payload now st j rt (on_topic lib json number from_utf8_lossy p payload now rt)
  unfolding on_topic start_session opened on_audio
  on_topic-Delivers (start sat sid) payload now j st rt h =
      subst
        (λ r.
          Delivers (start sat sid) payload now st j rt
            (opened (number sid) sat (or_english (extract_locale lib json payload)) r rt))
        (sym (
          open_session-present (number sid) sat (or_english (extract_locale lib json payload))
            rt.next_channel (rt.next_channel + 1) now rt.manager st h))
        (sym (append-nil rt.effects), unchanged j (number sid) rt.manager st h)
  on_topic-Delivers (audio sat sid) payload now j st rt h =
      let m = touch (number sid) now rt.manager in
      let there = touched (number sid) now rt.manager st h in
      (
        ap (λ o. (on_audio o (number sid) payload (record rt { manager = m })).effects) there,
        ap (get j) (
              on_audio-manager (number sid) payload (get (number sid) m)
                (record rt { manager = m }))
            ∙ touch-get j (number sid) now rt.manager st h,
      )
  on_topic-Delivers (text sat sid) payload now j st rt h =
      let m = touch (number sid) now rt.manager in
      let t = trim (from_utf8_lossy payload) in
      let there = touched (number sid) now rt.manager st h in
      (
        ap (λ o. (on_text o (number sid) t (record rt { manager = m })).effects) there
            ∙ on_text-effects (number sid) t (record st { last_activity_ms = now })
                (record rt { manager = m }),
        ap (get j) (on_text-manager (number sid) t (get (number sid) m) (record rt { manager = m }))
            ∙ touch-get j (number sid) now rt.manager st h,
      )
  on_topic-Delivers (finish sat sid) payload now j st rt h =
      (sym (append-nil rt.effects), close-get j (number sid) rt.manager)

  -- Under a root without a slash, a message of a satellite with a valid id to an open session does what it
  -- says, and to no other session: audio goes into the session's own
  -- channel, a text that is not blank is trimmed and becomes a final transcript of it, both renew its activity,
  -- an end closes it, and a second start changes nothing.
  pub handle_publish-Delivers :
      (root : Text) (p : ParsedTopic lib.Uuid) (payload : List ℕ) (now j : ℕ) (st : SessionState ℕ)
      (rt : Runtime)
      → contains b'/' root ≡ false
      → IsAccepted (sat_of lib p)
      → get (number (sid_of lib p)) rt.manager ≡ some st
      → Delivers p payload now st j rt
          (handle_publish lib json number from_utf8_lossy root (topic_of root p) payload now rt)
  handle_publish-Delivers root p payload now j st rt plain accepted h =
      subst (Delivers p payload now st j rt)
        (sym (handle_publish-topic root p payload now rt plain accepted))
        (on_topic-Delivers p payload now j st rt h)

  -- What a message must do when its session is not open.
  abbrev pub Opens : ParsedTopic lib.Uuid → List ℕ → ℕ → ℕ → Runtime → Runtime → Type 0
  Opens (start sat sid) payload now j rt rt' =
      let locale = or_english (extract_locale lib json payload) in
      (rt'.effects
        ≡ rt.effects
          ++ session_started (number sid) sat locale
            ∷ pipeline (number sid) rt.next_channel (rt.next_channel + 1) rt.manager.next_token
            ∷ [])
      × (get j rt'.manager ≡ (
          if j == number sid
          then some (record {
            sat = sat;
            locale = locale;
            cancel = rt.manager.next_token;
            audio_tx = rt.next_channel;
            text_tx = rt.next_channel + 1;
            last_activity_ms = now;
          })
          else get j rt.manager))
  Opens (audio sat sid) payload now j rt rt' = rt' ≡ rt
  Opens (text sat sid) payload now j rt rt' = rt' ≡ rt
  Opens (finish sat sid) payload now j rt rt' = rt' ≡ rt

  on_topic-Opens :
      (p : ParsedTopic lib.Uuid) (payload : List ℕ) (now j : ℕ) (rt : Runtime)
      → get (number (sid_of lib p)) rt.manager ≡ none
      → Opens p payload now j rt (on_topic lib json number from_utf8_lossy p payload now rt)
  unfolding on_topic start_session opened on_audio on_text get
  on_topic-Opens (start sat sid) payload now j rt h =
      let locale = or_english (extract_locale lib json payload) in
      subst (λ r. Opens (start sat sid) payload now j rt (opened (number sid) sat locale r rt))
        (sym (
          open_session-get (number sid) sat locale rt.next_channel (rt.next_channel + 1) now
            rt.manager h))
        (
          refl,
          lookup-insert ids j (number sid)
              (record {
                sat = sat;
                locale = locale;
                cancel = rt.manager.next_token;
                audio_tx = rt.next_channel;
                text_tx = rt.next_channel + 1;
                last_activity_ms = now;
              })
              rt.manager.map,
        )
  on_topic-Opens (audio sat sid) payload now j rt h =
      let same = touch_absent (number sid) now rt.manager h in
      ap (λ m. on_audio (get (number sid) m) (number sid) payload (record rt { manager = m })) same
      ∙ ap (λ o. on_audio o (number sid) payload rt) h
  on_topic-Opens (text sat sid) payload now j rt h =
      let t = trim (from_utf8_lossy payload) in
      let same = touch_absent (number sid) now rt.manager h in
      ap (λ m. on_text (get (number sid) m) (number sid) t (record rt { manager = m })) same
      ∙ ap (λ o. on_text o (number sid) t rt) h
  on_topic-Opens (finish sat sid) payload now j rt h =
      ap (λ m. record rt { manager = m }) (close_absent (number sid) rt.manager h)

  -- Under a root without a slash, and from a satellite with a valid id, only a start opens a session: with
  -- the satellite of the topic, the locale of the payload, or English where it has none, channels of its own and
  -- a pipeline on them. Audio, text or an end for a session that is not open
  -- changes nothing at all.
  pub handle_publish-Opens :
      (root : Text) (p : ParsedTopic lib.Uuid) (payload : List ℕ) (now j : ℕ) (rt : Runtime)
      → contains b'/' root ≡ false
      → IsAccepted (sat_of lib p)
      → get (number (sid_of lib p)) rt.manager ≡ none
      → Opens p payload now j rt
          (handle_publish lib json number from_utf8_lossy root (topic_of root p) payload now rt)
  handle_publish-Opens root p payload now j rt plain accepted h =
      subst (Opens p payload now j rt)
        (sym (handle_publish-topic root p payload now rt plain accepted))
        (on_topic-Opens p payload now j rt h)
