-- ===== src/Lib.antt =====
-- Verification library of the K.I.T.T. assistant: a local voice assistant whose daemon routes a
-- request to a fast or a heavy language model, recalls memories under an egress policy, listens
-- for a wake phrase, and serves a Control Center to change its settings.
--
-- Base: the shared helpers. Text that the program walks is a list of Unicode scalar values; texts
-- that are only compared are native strings; numbers are natural numbers, with the wrap-around or
-- saturation of the source written out. `f32` and `f64` arithmetic is a parameter (Float32,
-- Doubles), used only through the operations that the code calls.
--
-- Domain (crates/kitt-domain/src/lib.rs): errors, requests, answers, the ports as records of
-- functions, and Domain.Routing with `RoutingPolicy::choose`. A port answers from the history of
-- the calls made so far, so that a run is a list of calls.
--
-- Memory (crates/kitt-infrastructure/src/lib.rs, AssistantMemory): the memory port over a store
-- and an egress policy, both of third-party crates and so parameters.
--
-- Application (crates/kitt-application/src/lib.rs): `AssistantService` with `ask` (`ask_at` is
-- its match on the tier), `complete_with`, `transcribe`, `speak` and `remember`, in a monad over
-- the history of calls.
--
-- Voice (apps/kittd/src/voice.rs): Voice.Wake is `WakePhraseMatcher` and the functions on tokens
-- below it (`strip_wake` is its `strip_prefix`), Voice.EditDistance is `bounded_edit_distance`,
-- Voice.Config is `VoiceConfig` with its validation, migration, loading and mode, Voice.Segmenter
-- is `Segmenter`, whose `push` is cut into its branches, Voice.Tracker is `VoiceRuntimeTracker`
-- (`tracker_snapshot` is its `snapshot`).
--
-- Providers (crates/kitt-infrastructure/src/lib.rs): `Http` answers what the adapters ask of
-- reqwest, serde_json and the url crate; an operation returns the requests that it makes beside
-- its result. Chat is `OpenAiCompatibleModel`, Discovery `discover_models_from_url` with `sort`
-- and `dedup` in Listing, Transcriber `OpenAiCompatibleTranscriber`; Completions, Discoveries and
-- Uploads say what they come to.
--
-- Speech (same file): `SystemVoiceProfile` and the commands of the three platforms; Backends is
-- `speak_system` with `wait_child_with_timeout`, whose loop runs on `wait_fuel` rounds, one for
-- each interval of the timeout and two more; Piper is `PiperTextToSpeech`. `Sound` is the clock
-- with the programs and files that are there.
--
-- Voice.Stt (apps/kittd/src/voice.rs): the local speech-to-text worker. `Machine` answers what
-- the code asks of the outside, at a tick that each question advances, together with the clock;
-- `judge` is the match of `probe_local_stt`, Voice.Stt.Polling is `ensure_local_stt_ready`, whose
-- loop runs on `poll_fuel` rounds: one for each interval of the timeout and two more, since a
-- round that does not end the loop comes before the deadline and sleeps for an interval. Url is
-- what the code asks of the url crate, with `is_loopback_host` of apps/kittd/src/model_config.rs.
--
-- Voice.Pipeline (same file): `pipeline_loop`. A part of a round is a `Step`, which a `continue`
-- ends; the effects on the daemon's surroundings are marks in the log of its `World`; the drops
-- of the two guards are the last marks of `handle_utterance`. Invariant is the interface between
-- the rounds and what they keep: a predicate with its laws for the calls that a round makes, of
-- which Guards, Questions and Workers give three.
--
-- Voice.Start (same file): `start`, from the configuration to the threads. Voice.Capture (same
-- file): `capture_loop` on a list of chunks; a chunk says what the loop reads of `error_signal`
-- and `paused` with it. The loop over the frames of the detector's buffer runs on its length,
-- since each round takes a frame.
--
-- ModelConfig (apps/kittd/src/model_config.rs): `ModelProfiles` with its validation and
-- migration; Storing is `load_or_create`, with models.json as its state.
--
-- SettingsOverlay (apps/kittd/src/settings_overlay.rs): `section`, `apply_core` and
-- `apply_models`; VoiceSettings is `apply_voice`, whose unchecked fields are `set_fields`.
--
-- ControlCenter.Start (apps/kittd/src/settings_web.rs): `start`, up to its thread, and
-- `validate_catalog`. ControlCenter.Exchange (same file): `read_request` and `write_response`
-- around `handle`. The reader is the list of the lines that the peer sends, and how they end: in
-- a closed connection or in a failed read; its loop over the headers is structural on the lines.
-- Base.Utf8 is `String::from_utf8`.
--
-- ControlCenter (same file): Json stands for `serde_json` values, Values is `validate_value`,
-- Changes is `validate_change_request` and `merge_changes`, Overlay is the overlay file with its
-- atomic write and the handler of a change, Requests is `handle` with its checks and routes.
-- Parsing and printing of JSON and the answers of the file system are parameters. A map keeps its
-- entries in the order of insertion, which no theorem depends on.
--
-- Daemon.Broadcaster (apps/kittd/src/main.rs): `HudBroadcaster` over sockets that are a
-- parameter; `acknowledge` is `subscribe` up to the new entry. Daemon.Conversions (same file):
-- `memory_to_dto` and the conversions of kinds, sensitivities and scopes; the protocol's and the
-- store's types are those of other crates, with the constructors that the code names.
--
-- Daemon.Runtime (same file): the world that the daemon's parts share, `run_ask`, and
-- `transcribe` of the dispatcher (`transcribe_request`). Starting the HUD's window is one mark.
-- Daemon.Dispatch and Daemon.Serving (same file): `dispatch` with the requests for the memory,
-- and `handle_client` with the replies, over Daemon.Protocol, which is what they use of the
-- protocol library. Daemon.Connections: the steps of the accept loop and of the threads that it
-- starts, on their counter. Daemon.Requests (same file): `ask` (`ask_request`), `ask_routed`,
-- `show_image` and `image_data_uri`. Daemon.Access (same file): `secure_eq` over bytes whose `|`
-- and `^` are written out bit by bit, `read_frame` on what the buffered reader gives, and in
-- Token `load_or_create_token` and the checks of the addresses.
--
-- Kittctl (apps/kittctl/src/main.rs): `main`, `routed_ask` and `call`; the socket is one exchange
-- of bytes.
--
-- Loops are structural recursion; on fuel run `decimal`, with the twenty digits that a `u64` can
-- have, the waits for the worker and for a program that speaks, `chunks_exact` and the rounds
-- over the detector's buffer.
--
-- Where the source drops the result of a call, the call can fail here: a file that the system
-- does not remove stays (Speech), a write that fails may have spoilt the file (Voice.Config,
-- ModelConfig), and a player of audio that the code waits for without a timeout may run for ever
-- (Speech.Piper).
--
-- Not modelled: the start of the daemon with its configuration file and the start of the HUD's
-- window (apps/kittd/src/main.rs), the audio device, the files of the voice cache and the search
-- for launch candidates (apps/kittd/src/voice.rs), the reverse proxy, the agent gateway and the
-- service reports behind the Control Center, whose answers are parameters, and the count of its
-- connections (apps/kittd/src/settings_web.rs), the service commands of kittctl and the HUD
-- application. The warm-up thread of the voice pipeline waits for the worker on its own, beside
-- the pipeline; only its start is seen here.
pub mod Base
pub mod Url
pub mod Domain
pub mod Memory
pub mod Application
pub mod ModelConfig
pub mod SettingsOverlay
pub mod Providers
pub mod Speech
pub mod Voice
pub mod ControlCenter
pub mod Daemon
pub mod Kittctl
