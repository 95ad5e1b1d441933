-- ===== src/Lib.antt =====
-- A model of Athena-Voice, a voice assistant in Rust: a runtime that turns speech into answers, and satellites
-- that talk to it over MQTT.
--
-- The parts and how they interact. A satellite (satellite-esp32) opens a session over MQTT and streams its
-- microphone; the runtime (crates/athena-voice-runtime) parses the topics, recognises the speech, routes it to
-- a skill or to the language model, puts the tokens of the answer together to sentences, has each of them
-- synthesised and publishes the audio back to the satellite. Calls of the speech providers go through retries
-- and a circuit breaker (crates/athena-voice-providers).
--
-- Base: Boolean tests, results, lists over the native numbers, and maps (Base/Dict). Text: `str` as the list of
-- its code points, with the operations that the code calls.
-- Core: the identifiers of crates/athena-voice-core/src/ids.rs (Core/Ids), and `serde_json` as a record of what
-- the code calls (Core/Json).
-- Mqtt: the topics of crates/athena-voice-runtime/src/mqtt/topics.rs (Mqtt/Topics; `End` is `finish`), and the
-- matching of topic filters of crates/athena-voice-runtime/src/wasm/host_fns.rs (Mqtt/Filter).
-- Satellite: the state machine of satellite-esp32/src/session.rs (Satellite/Session), and the silence tracker of
-- satellite-esp32/src/mic.rs (Satellite/Mic).
-- Providers: crates/athena-voice-providers/src/circuit.rs (Providers/Circuit) and retry.rs (Providers/Retry).
-- Pipeline: the stages of crates/athena-voice-runtime/src/pipeline: router.rs (Pipeline/Router; handle_outcome and
-- the loop are in Pipeline/Router/Loop), llm.rs (Pipeline/Llm), sentence.rs (Pipeline/Sentence), tts.rs
-- (Pipeline/Tts) and sink.rs (Pipeline/Sink); Pipeline/Channel is the sender of a `tokio` channel. The router
-- hands prompts to the language model and texts to the synthesis; both it and the language model feed the
-- synthesis `TtsMsg`, and the synthesis feeds the sink `SinkMsg`.
-- Sessions: the manager of crates/athena-voice-runtime/src/session/manager.rs (`open` is `open_session`).
-- Wasm: crates/athena-voice-runtime/src/wasm. The topic permissions of host_fns.rs (Wasm/Acl), its host functions
-- (Wasm/Host), and scheduler.rs (Wasm/Scheduler).
-- Storage: crates/athena-voice-storage/src. The temporary store of tmp/mod.rs (Storage/Tmp), and of sqlite.rs the
-- scheduled events (Storage/Events) and the key-value table (Storage/SkillKv). A statement does to the table
-- what its text says; a statement that fails changes nothing.
-- Skills: the timer of skills-timer/src (Skills/Timer is lib.rs, over what it calls of
-- crates/athena-voice-skill-sdk/src/host.rs; Skills/Timer/Duration is duration.rs). It calls the host functions,
-- and its events come back through the scheduler.
-- Skills/Jeedom: the commands of skills-jeedom/src/lib.rs, with what it keeps in the temporary store between a
-- question and its confirmation.
-- Assist: crates/athena-voice-runtime/src/assist. topics.rs (Assist/Topics), and of bridge.rs the actor of a device
-- (Assist/Actor) and the routing of questions to the actors (Assist/Bridge).
-- Intent: crates/athena-voice-runtime/src/intent. rule.rs and loader.rs (Intent/Rules, where `insert` is
-- insert_rule), engine.rs (Intent/Engine).
-- Ingress: the handling of a satellite's message in crates/athena-voice-runtime/src/satellite/ingress.rs, over the
-- topics of Mqtt and the manager of Sessions.
-- Tests: the models and the theorems at concrete inputs.
--
-- State and steps. Each struct is a record with the fields of the source, each enum a data type with its
-- constructors, each method a function of the state, its arguments, and what it reads from outside (the clock,
-- a fresh session id, the answer of a provider or of a skill, the match of a transcript). A mutex makes a method
-- one step; histories are lists of steps in any order. Numbers are natural numbers; `u32` and
-- `u64` are taken modulo their size where the code adds.
-- Every loop is a structural recursion over what it reads, except two on fuel: that of `isqrt`, with the number
-- whose root is taken, which is the first guess and falls in each turn, and the printing of a number in decimal,
-- with one more than the number, which each digit divides by ten.
--
-- Parameters. `uuid` (Core.Ids.UuidLib) prints and parses session ids: parsing inverts printing, and what is
-- printed has no slash. `serde_json` (Core.Json.JsonLib) is a reader of payloads; one theorem on the timer asks
-- that it reads the number of seconds out of an object with that one field, and those on the home that it
-- reads back a pending command that it printed. `reqwest::Url` (Wasm.Host.UrlLib) has no law. The order of `ORDER BY`
-- (Storage.Events.SqlLib) is a rearrangement that ascends. The lower case of a text is a function with no law.
-- The confidences of matches are floating point numbers (Intent.Engine.Confidences), with no law; what one phrase
-- and an input give is a parameter of the search. The number of a session id, and the decoding of a payload as
-- UTF-8, are functions with no law.
-- The speech and language providers appear through the results of their calls.
--
-- Not modelled: the network, the file system, the audio devices, the speech and language models, the WebAssembly
-- engine, SQL, and the HTTP server; the waiting for room in a channel, and logging.
mod Base
pub mod Text
pub mod Core
pub mod Mqtt
pub mod Satellite
pub mod Pipeline
pub mod Providers
pub mod Sessions
pub mod Wasm
pub mod Storage
pub mod Skills
pub mod Assist
pub mod Ingress
pub mod Intent
mod Tests
