-- ===== src/Voice/Pipeline/Loop.antt =====
-- `pipeline_loop`: the round of each event, and the loop over those that the channel delivers.
use kitt_assistant.Daemon.Runtime.{Effect, audio_removed, warmup}
use kitt_assistant.Voice.Pipeline.Commands.{
  run_command, utterance, probes, answers, wake_detected, CaptureEvent,
}
use kitt_assistant.Base.{
  Bool, true, false, Option, none, some, List, [], ◌∷◌, ℕ, Text, if◌then◌else◌, trim,
}
use kitt_assistant.Application
use kitt_assistant.Voice.Wake.{WakePhraseMatcher, new_matcher}
use kitt_assistant.Voice.Pipeline.{
  VoiceState, command_of, mark, at, show_listening, transcribe_utterance, ready_stt, Pipeline,
  ActivationMode, VoiceConfig, Machine, Runtime, Step, ◌>>=◌, ◌>>◌,
}

module _ {F : Type 0} (config : VoiceConfig F) (alphanumeric : ℕ → Bool) where
  unfoldable pub matcher_of : WakePhraseMatcher
  matcher_of =
      new_matcher alphanumeric config.wake_phrases config.wake_fuzzy_enabled
        config.wake_fuzzy_max_distance

module _ {R F : Type 0} (rt : Runtime R F) (m : Machine) (base_url : Text) (config : VoiceConfig F)
    (alphanumeric : ℕ → Bool) (mode : ActivationMode) where
  -- A round between its guards: a `continue` ends it.
  unfoldable pub round : Text → Bool → Step (Unit {0})
  round path was_waiting = do
    ready_stt rt m base_url config
    heard ← transcribe_utterance rt m base_url config path (
        if probes mode was_waiting then some (matcher_of config alphanumeric).prompt_hint else none)
    command ← command_of alphanumeric (matcher_of config alphanumeric) mode was_waiting heard.0
    run_command rt m base_url config mode (trim command) heard.1

  -- The guards' drops come last, in the reverse of their order.
  unfoldable pub handle_utterance : Option ℕ → Text → Pipeline → Pipeline
  handle_utterance id path p =
      let was_waiting = answers p.awaiting id in
      let p' =
        (round path was_waiting
          (record p { awaiting = none; world = mark (Effect.paused true) p.world })).1 in
      record p' { world = mark (audio_removed path) (mark (Effect.paused false) p'.world) }

  unfoldable pub handle_wake : ℕ → Pipeline → Pipeline
  handle_wake id p =
      let p' =
        show_listening config.command_timeout_ms
          (at VoiceState.listening (record p { awaiting = some id })) in
      if Application.transcriber_is_local rt.content rt.service
      then record p' { world = mark warmup p'.world }
      else p'

  unfoldable pub handle_event : CaptureEvent → Pipeline → Pipeline
  handle_event (wake_detected id) = handle_wake id
  handle_event (utterance id path) = handle_utterance id path

  unfoldable pub pipeline_loop : List CaptureEvent → Pipeline → Pipeline
  pipeline_loop [] p = p
  pipeline_loop (e ∷ events) p = pipeline_loop events (handle_event e p)
