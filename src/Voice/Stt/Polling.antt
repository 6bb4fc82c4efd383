-- ===== src/Voice/Stt/Polling.antt =====
-- `ensure_local_stt_ready`: probe, start the worker, and poll it until it is ready, fails or the
-- deadline passes.
use kitt_assistant.Voice.Stt.{
  LocalSttProbe, slept, stop_owned_stt_worker, probe_local_stt, owned_stt_worker_exit,
  spawn_local_stt_worker, Worker, poll_interval, VoiceConfig, Machine,
}
use kitt_assistant.Base.{
  Option, none, some, ◌++◌, ℕ, zero, suc, ◌+◌, ◌/◌, Text, leb, if◌then◌else◌, Result, ok, err,
  codes, decimal,
}

module _ {F : Type 0} (m : Machine) (base_url : Text) (config : VoiceConfig F) where
  -- The rest of a round of the loop, after a probe without an answer: the error that ends it, if any.
  unfoldable pub after_unreachable : ℕ → Worker → Option Text × Worker
  after_unreachable deadline w =
      let (exited, w') = owned_stt_worker_exit m w in
      elim exited [
        | err e ↦ (some e, w')
        | ok (some status) ↦
            (some (codes "local STT worker exited before becoming ready: " ++ status), w')
        | ok none ↦
            if leb deadline w'.now
            then (
              some (
                  codes "local STT worker did not become ready within "
                  ++ decimal config.stt_start_timeout_ms
                  ++ codes " ms"),
              stop_owned_stt_worker w',
            )
            else (none, slept m w')
      ]

  -- The loop; `none` means that the fuel ran out.
  unfoldable pub poll : ℕ → ℕ → Worker → Option (Result Text (Unit {0})) × Worker
  poll zero deadline w = (none, w)
  poll (suc fuel) deadline w =
      let (answer, w') = probe_local_stt m base_url w in
      elim answer [
        | LocalSttProbe.ready ↦ (some (ok tt), w')
        | LocalSttProbe.degraded detail ↦ (
          some (
              err (
                codes "local STT worker started but is not ready: "
                ++ detail
                ++ codes ". Install the STT extra with pip install -e '.[stt]'")),
          stop_owned_stt_worker w',
        )
        | LocalSttProbe.unreachable e ↦
            let (ended, w'') = after_unreachable deadline w' in
            elim ended [ some e' ↦ (some (err e'), w'') | none ↦ poll fuel deadline w'' ]
      ]

  -- The rounds that are enough: one more than the intervals that fit in the timeout, and one.
  abbrev pub poll_fuel : ℕ
  poll_fuel = config.stt_start_timeout_ms / poll_interval + 2

  -- `ensure_local_stt_ready` from the start of the worker on.
  unfoldable pub start_and_poll : Worker → Option (Result Text (Unit {0})) × Worker
  start_and_poll w =
      let (started, w') = spawn_local_stt_worker m base_url config w in
      elim started [
        | err e ↦ (some (err e), w')
        | ok _ ↦ poll poll_fuel (w'.now + config.stt_start_timeout_ms) w'
      ]

  unfoldable pub ensure_local_stt_ready : Worker → Option (Result Text (Unit {0})) × Worker
  ensure_local_stt_ready w =
      let (answer, w') = probe_local_stt m base_url w in
      elim answer [
        | LocalSttProbe.ready ↦ (some (ok tt), w')
        | LocalSttProbe.degraded detail ↦
            (some (err (codes "local STT server is not ready: " ++ detail)), w')
        | LocalSttProbe.unreachable e ↦
            if config.stt_autostart
            then start_and_poll w'
            else (some (err (codes "local STT endpoint is unreachable: " ++ e)), w')
      ]
