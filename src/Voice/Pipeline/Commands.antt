-- ===== src/Voice/Pipeline/Commands.antt =====
-- What the voice runtime does with a command, and `pipeline_loop` over the events of the capture
-- thread.
use kitt_assistant.Voice.Tracker.{
  record_llm, record_tts, get_last_spoken, record_total, set_last_spoken,
}
use kitt_assistant.Domain.{RouteHint, RoutedAnswer}
use kitt_assistant.Daemon.Runtime.{
  run_ask, HudState, error_text, HudEvent, spoken, status, Effect, mark, Failure,
}
use kitt_assistant.Base.{
  Bool, true, false, not, Option, none, some, ◌++◌, ℕ, suc, ◌+◌, ◌%◌, ◌^◌, Text, ◌==◌,
  if◌then◌else◌, Result, ok, err, codes, is_empty,
}
use kitt_assistant.Application
use kitt_assistant.Voice.Stt
use kitt_assistant.Voice.Pipeline.{
  go_on, repeat, voice_status, cancel, elapsed, no_command, detect_instant_command, VoiceState, at,
  note_error, serving, on_hud, mode_name, AssistantError, LocalInstantCommand, Pipeline,
  show_listening, VoiceConfig, Machine, Runtime, ActivationMode, Step,
}

-- A capture thread's event: the wake phrase was detected, or an utterance was recorded, perhaps for
-- an activation. Their times are not read.
pub data CaptureEvent : Type 0 where
  wake_detected : ℕ → CaptureEvent
  utterance : Option ℕ → Text → CaptureEvent

-- `was_waiting`
unfoldable pub answers : Option ℕ → Option ℕ → Bool
answers (some expected) (some actual) = expected == actual
answers _ _ = false

-- `activation_probe`
unfoldable pub probes : ActivationMode → Bool → Bool
probes ActivationMode.transcript_prefix was_waiting = not was_waiting
probes ActivationMode.auto was_waiting = not was_waiting
probes _ was_waiting = false

module _ {R F : Type 0} (rt : Runtime R F) (m : Machine) (base_url : Text)
    (config : VoiceConfig F) where
  -- A call of `speak`, with its result.
  abbrev pub speaking : Text → Pipeline → Result AssistantError (Unit {0}) × Pipeline
  speaking words =
      serving rt m base_url config (spoken words)
        (Application.speak rt.content rt.service words (some config.locale))

  -- `if config.tts_enabled` of the instant commands: an error is dropped.
  abbrev pub speak_if_enabled : Text → Pipeline → Pipeline
  speak_if_enabled words p =
      if config.tts_enabled then (speaking words (at VoiceState.speaking p)).1 else p

  abbrev pub status_text : ActivationMode → Text
  status_text mode =
      codes "KITT operacional. Modo " ++ mode_name mode ++ codes ", reconhecimento pronto."

  -- `match detect_instant_command(command)`
  unfoldable pub run_instant : ActivationMode → LocalInstantCommand → Step (Unit {0})
  run_instant mode no_command p = (some tt, p)
  run_instant mode cancel p =
      (none, at VoiceState.idle (on_hud (HudEvent.text (codes "Cancelado.") 3000) p))
  run_instant mode voice_status p = (
    none,
    at VoiceState.idle
        (speak_if_enabled (status_text mode) (on_hud (HudEvent.text (status_text mode) 5000) p)),
  )
  run_instant mode repeat p = elim (get_last_spoken p.tracker) [
    | none ↦ (none, at VoiceState.idle p)
    | some prev ↦
        (none, at VoiceState.idle (speak_if_enabled prev (on_hud (HudEvent.text prev 6000) p)))
  ]

  -- `if let Err(error) = runtime.service.speak(..)`
  unfoldable pub spoken_answer : Result AssistantError (Unit {0}) × Pipeline → Pipeline
  spoken_answer (ok _, p) = p
  spoken_answer (err e, p) = note_error (codes "tts: " ++ error_text e) p

  unfoldable pub speak_answer : Text → Pipeline → Pipeline
  speak_answer answer p =
      let before = on_hud (HudEvent.text answer 8000) (at VoiceState.speaking p) in
      let after = spoken_answer (speaking answer before) in
      record after { tracker = record_tts after.tracker (elapsed before after) }

  -- `match ask_res`, with the time of the transcription and the model.
  unfoldable pub answer_told : ℕ → Result Failure RoutedAnswer → Pipeline → Pipeline
  answer_told total (err (code, e)) p = note_error (codes "llm: " ++ e) p
  answer_told total (ok answer) p =
      let kept = record p { tracker = set_last_spoken p.tracker answer.text } in
      let told = if config.tts_enabled then speak_answer answer.text kept else kept in
      record told { tracker = record_total told.tracker (total % 2 ^ 64) }

  -- `thread::sleep(echo_guard_ms)`
  abbrev pub rested : Pipeline → Pipeline
  rested p =
      let w = p.worker in
      record p {
        worker = record w {
          tick = suc w.tick;
          now = w.now + config.echo_guard_ms + m.takes w.tick;
        };
        world = mark (Effect.slept config.echo_guard_ms) p.world;
      }

  -- The command is asked, told, and followed by the echo guard.
  unfoldable pub execute : Text → ℕ → Pipeline → Pipeline
  execute command t_duration p =
      let before =
        on_hud (status HudState.thinking (some (codes "Pensando…"))) (at VoiceState.thinking p) in
      let (r, world) = run_ask rt command RouteHint.auto true before.world in
      let after = record before { world = world; worker = Stt.asked m before.worker } in
      let llm_duration = elapsed before after in
      let told =
        answer_told (t_duration + llm_duration) r
          (record after { tracker = record_llm after.tracker llm_duration }) in
      at VoiceState.idle (rested (at VoiceState.cooldown told))

  -- The command: nothing, an instant command, or a question.
  unfoldable pub run_command : ActivationMode → Text → ℕ → Step (Unit {0})
  run_command mode command t_duration p =
      if is_empty command
      then (none, show_listening config.command_timeout_ms (at VoiceState.listening p))
      else go_on (λ u p'. (some tt, execute command t_duration p'))
          (run_instant mode (detect_instant_command command) p)
