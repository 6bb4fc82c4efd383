-- ===== src/Voice/Stt.antt =====
-- apps/kittd/src/voice.rs: the local speech-to-text worker, which the daemon probes, starts and stops.
-- What the outside answers is a `Machine`, asked at a tick that every question advances; the
-- lock on the worker's handle is never poisoned.
use kitt_assistant.Voice.Config.Loading.{resolved_stt_worker_model}
use kitt_assistant.Url.{ends_with, is_loopback_host, trim_end_matches, Net}
use kitt_assistant.Voice.Config.{VoiceConfig}
pub mod Polling
pub mod Readiness
pub mod Processes
pub mod Ownership
mod Tests
use kitt_assistant.Base.{
  refl, ◌≡◌, ◌≢◌, ◌↔◌, ◌⊎◌, inl, inr, sym, ap, subst, ◌∙◌, Bool, true, false, not, ◌&&◌, ◌||◌,
  Option, none, some, List, [], ◌∷◌, ◌++◌, map, reverse, ℕ, zero, suc, ◌+◌, ◌-◌, ◌*◌, ◌/◌, ◌%◌, ◌^◌,
  ◌≤◌, ◌<◌, min, max, arith, String, Text, ltb, leb, ◌==◌, if◌then◌else◌, Result, ok, err, ◌>>=◌,
  ◌>>◌, refuse_if, ok_or, map_err, length, take, drop, all, any, All, codes, bytes, text_eq,
  text_eq_iff, is_empty, starts_with, Bool-cases, Option-cases, Result-cases, if-of_true,
  if-of_false, and-true, decimal, trim, to_ascii_lowercase, is_blank, join, ok_or-eq-ok, retain,
  strip_prefix, texts_eq, >>=-eq-ok,
}
use kitt_assistant.ControlCenter.Json.{
  Json, null, boolean, unsigned, negative, double, string, array, object, Items, no_items, item,
  Fields, no_fields, field, as_bool, as_u64, as_str, as_array, as_object, is_some, and_then,
  unwrap_or, get_field, insert, get, any_item, all_items, find, is_text, Doubles, as_f64,
}

pub data LocalSttProbe : Type 0 where
  ready : LocalSttProbe
  degraded unreachable : Text → LocalSttProbe

-- What a request for the health page comes to: no answer, an answer whose body cannot be read, or
-- an answer with its status (whether it is a success, and its text) and its body.
pub data Health : Type 0 where
  no_answer broken_body : Text → Health
  page : Bool → Text → List ℕ → Health

pub data SpawnError : Type 0 where
  not_found : SpawnError
  other : Text → SpawnError

pub record Machine : Type 0 where
  pub health : ℕ → Text → Health
  pub from_slice : List ℕ → Result Text Json
  pub spawn : ℕ → Text → List Text → Result SpawnError ℕ
  pub try_wait : ℕ → ℕ → Result Text (Option Text)
  pub takes : ℕ → ℕ
  pub candidates : List (Text × List Text)
  pub whisper_model : Option Text
  pub kitt_whisper_model : Option Text
  pub net : Net

-- The worker that the daemon owns. `now` is the clock in milliseconds, which a question may advance;
-- `started` and `ended` are the processes that were started, and that were reaped or killed.
pub record Worker : Type 0 where
  pub tick : ℕ
  pub now : ℕ
  pub child : Option ℕ
  pub started : List ℕ
  pub ended : List ℕ

-- `STT_START_POLL_INTERVAL`, in milliseconds.
abbrev pub poll_interval : ℕ
poll_interval = 250

-- `stt_health_url`
unfoldable pub stt_health_url : Text → Text
unfolding trim_end_matches ends_with
stt_health_url base_url =
    let trimmed = trim_end_matches b'/' (trim base_url) in
    if ends_with trimmed (codes "/v1")
    then trimmed ++ codes "/health"
    else trimmed ++ codes "/v1/health"

-- `local_worker_endpoint`
unfoldable pub local_worker_endpoint : Net → Text → Result Text (Text × ℕ)
local_worker_endpoint net base_url = do
  parsed ← map_err (λ e. codes "invalid STT URL: " ++ e) (net.parse base_url)
  refuse_if (not (text_eq parsed.scheme (codes "http")))
      (codes "local STT worker auto-start requires http:// scheme")
  host ← ok_or parsed.host_str (codes "local STT URL has no host")
  refuse_if (not (is_loopback_host net (some host)))
      (codes "local STT worker auto-start requires a loopback host")
  refuse_if (any (λ c. c == b':') host)
      (codes "local STT worker auto-start currently requires IPv4 loopback")
  refuse_if (not (text_eq (trim_end_matches b'/' parsed.path) (codes "/v1")))
      (codes "local STT worker auto-start requires base_url ending in /v1")
  port ← ok_or parsed.port_or_known_default (codes "local STT URL has no usable port")
  ok (host, port)

-- The arguments that the worker is started with.
unfoldable pub common_args : {F : Type 0} → VoiceConfig F → Text → Text → ℕ → List Text
common_args config model host port =
    (codes "--host"
      ∷ host
      ∷ codes "--port"
      ∷ decimal port
      ∷ codes "--model"
      ∷ model
      ∷ codes "--device"
      ∷ config.stt_device
      ∷ codes "--compute-type"
      ∷ config.stt_compute_type
      ∷ codes "--beam-size"
      ∷ decimal config.stt_beam_size
      ∷ codes "--num-workers"
      ∷ decimal config.stt_num_workers
      ∷ codes "--parent-stdin-lifecycle"
      ∷ [])
    ++ ((if ltb 0 config.stt_cpu_threads
          then codes "--cpu-threads" ∷ decimal config.stt_cpu_threads ∷ []
          else [])
        ++ ((if config.stt_local_files_only
              then codes "--local-files-only"
              else codes "--allow-download")
            ∷ []))

-- `== Some(true)`
abbrev pub is_true : Option Bool → Bool
is_true none = false
is_true (some b) = b

module _ (m : Machine) where
  -- A question that the outside answers: the clock may move on while it does.
  abbrev pub asked : Worker → Worker
  asked w = record w { tick = suc w.tick; now = w.now + m.takes w.tick }

  -- The `match`es of `probe_local_stt` on an answer.
  unfoldable pub judge_body : Bool → Text → Result Text Json → LocalSttProbe
  judge_body success status (err e) = degraded (codes "parse health JSON: " ++ e)
  judge_body success status (ok json) =
      if success && is_true (and_then (get (codes "ready") json) as_bool)
      then ready
      else degraded (
          status
          ++ codes ": "
          ++ unwrap_or (codes "engine unavailable") (and_then (get (codes "engine") json) as_str))

  unfoldable pub judge : Health → LocalSttProbe
  unfolding judge_body
  judge (no_answer e) = unreachable e
  judge (broken_body e) = degraded (codes "read health body: " ++ e)
  judge (page success status body) = judge_body success status (m.from_slice body)

  unfoldable pub probe_local_stt : Text → Worker → LocalSttProbe × Worker
  unfolding judge
  probe_local_stt base_url w = (judge (m.health w.tick (stt_health_url base_url)), asked w)

  -- The loop over the launch candidates; `failures` are the ones so far.
  unfoldable pub launch :
      List (Text × List Text) → List Text → List Text → Worker → Result Text (Unit {0}) × Worker
  launch [] args failures w = (
    err (
        codes "could not start local STT worker ("
        ++ join (codes "; ") failures
        ++ codes "). Install kitt-ai-workers[stt] or set KITT_STT_WORKER_BIN/KITT_STT_PYTHON"),
    w,
  )
  launch ((program, prefix) ∷ rest) args failures w =
      elim (m.spawn w.tick program (prefix ++ args)) [
        | ok pid ↦ (ok tt, record (asked w) { child = some pid; started = pid ∷ w.started })
        | err not_found ↦
            launch rest args (failures ++ ((program ++ codes ": not found") ∷ [])) (asked w)
        | err (other e) ↦
            launch rest args (failures ++ ((program ++ codes ": " ++ e) ∷ [])) (asked w)
      ]

  -- What the handle says of the process that is owned: `some true` is one that runs.
  unfoldable pub inspect : Worker → Result Text (Option Bool) × Worker
  inspect w = elim w.child [
    | none ↦ (ok none, w)
    | some pid ↦ elim (m.try_wait w.tick pid) [
      | err e ↦ (err (codes "inspect local STT worker: " ++ e), asked w)
      | ok none ↦ (ok (some true), asked w)
      | ok (some status) ↦
          (ok (some false), record (asked w) { child = none; ended = pid ∷ w.ended })
    ]
  ]

module _ {F : Type 0} (m : Machine) (base_url : Text) (config : VoiceConfig F) where
  abbrev no_model : Text
  no_model =
      codes
        "local STT autostart has no model configured; set assistant.voice.stt_worker_model, KITT_WHISPER_MODEL or WHISPER_MODEL"

  -- `spawn_local_stt_worker` from the choice of the model on.
  unfoldable pub start_worker : Text → ℕ → Worker → Result Text (Unit {0}) × Worker
  start_worker host port w =
      elim (resolved_stt_worker_model config m.whisper_model m.kitt_whisper_model) [
        | none ↦ (err no_model, w)
        | some model ↦ launch m m.candidates (common_args config model host port) [] w
      ]

  unfoldable pub spawn_local_stt_worker : Worker → Result Text (Unit {0}) × Worker
  unfolding start_worker
  spawn_local_stt_worker w = elim (local_worker_endpoint m.net base_url) [
    | err e ↦ (err e, w)
    | ok (host, port) ↦
        let (found, w') = inspect m w in
        elim found [
          | err e ↦ (err e, w')
          | ok (some true) ↦ (ok tt, w')
          | ok (some false) ↦ start_worker host port w'
          | ok none ↦ start_worker host port w'
        ]
  ]

-- `stop_owned_stt_worker`
unfoldable pub stop_owned_stt_worker : Worker → Worker
stop_owned_stt_worker w = elim w.child [
  | none ↦ w
  | some pid ↦ record w { child = none; ended = pid ∷ w.ended }
]

module _ (m : Machine) where
  -- `owned_stt_worker_exit`: the status of the process, if it has ended.
  unfoldable pub owned_stt_worker_exit : Worker → Result Text (Option Text) × Worker
  owned_stt_worker_exit w = elim w.child [
    | none ↦ (ok none, w)
    | some pid ↦ elim (m.try_wait w.tick pid) [
      | err e ↦ (err (codes "inspect local STT worker: " ++ e), asked m w)
      | ok none ↦ (ok none, asked m w)
      | ok (some status) ↦
          (ok (some status), record (asked m w) { child = none; ended = pid ∷ w.ended })
    ]
  ]

  -- `thread::sleep` sleeps for at least the interval.
  abbrev pub slept : Worker → Worker
  slept w = record w { tick = suc w.tick; now = w.now + poll_interval + m.takes w.tick }
