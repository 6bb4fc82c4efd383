-- ===== src/Voice/Pipeline/Settling.antt =====
-- The state that the voice runtime reports between two events.
use kitt_assistant.Voice.Tracker.{get_last_spoken}
use kitt_assistant.Voice.Stt.Readiness.{ensure_local_stt_ready-Ends}
use kitt_assistant.Voice.Pipeline.Commands.{
  answers, utterance, wake_detected, CaptureEvent, execute, run_command, run_instant,
}
use kitt_assistant.Voice.Pipeline.Loop.{
  handle_utterance, matcher_of, handle_wake, round, pipeline_loop, handle_event,
}
use kitt_assistant.Base.{
  refl, ◌≢◌, inl, inr, Bool, true, Option, none, some, List, [], ◌∷◌, ℕ, Text, Result, ok, err,
  is_empty, Bool-cases, Option-cases, if-of_true, if-of_false, trim,
}
use kitt_assistant.Application
use kitt_assistant.Voice.Pipeline.{
  Effect, mark, repeat, voice_status, cancel, no_command, addressed, detect_instant_command,
  TranscriptionResult, AssistantError, LocalInstantCommand, show_listening, stt_checked, ready_stt,
  transcribe_utterance, command_of, transcript_heard, unaddressed_state, VoiceConfig, Machine,
  VoiceState, Pipeline, ActivationMode, Runtime, Step, go_on,
}

-- The states in which nothing is under way: degraded only in degraded mode.
abbrev pub IsSettled : ActivationMode → VoiceState → Type 0
IsSettled mode VoiceState.idle = Unit
IsSettled mode VoiceState.listening = Unit
IsSettled ActivationMode.degraded VoiceState.degraded = Unit
IsSettled mode _ = ⊥

-- A part of a round that ends it leaves such a state.
abbrev Settles : {A : Type 0} → ActivationMode → Option A × Pipeline → Type 0
Settles mode (none, p) = IsSettled mode p.tracker.state
Settles mode (some a, p) = Unit

module _ {R F : Type 0} (rt : Runtime R F) (m : Machine) (base_url : Text) (config : VoiceConfig F)
    (wide : ℕ → Bool) (mode : ActivationMode) where
  -- A part that is followed by one which always settles.
  go_on-IsSettled :
      {A : Type 0} (f : A → Step (Unit {0})) (r : Option A × Pipeline)
      → Settles mode r
      → ((a : A) (p : Pipeline) → IsSettled mode (f a p).1.tracker.state)
      → IsSettled mode (go_on f r).1.tracker.state
  go_on-IsSettled f (none, p) h k = h
  go_on-IsSettled f (some a, p) h k = k a p

  stt_checked-Settles :
      (r : Option (Result Text (Unit {0}))) (p : Pipeline)
      → r ≢ none
      → Settles mode (stt_checked rt m base_url config r p)
  unfolding stt_checked
  stt_checked-Settles none p h = absurd (h refl)
  stt_checked-Settles (some (ok _)) p h = tt
  stt_checked-Settles (some (err e)) p h = tt

  ready_stt-Settles : (p : Pipeline) → Settles mode (ready_stt rt m base_url config p)
  unfolding ready_stt
  ready_stt-Settles p = elim (Bool-cases (Application.transcriber_is_local rt.content rt.service)) [
    | inl on ↦
        if-of_true (Settles mode) _ on
          (stt_checked-Settles _ _ (ensure_local_stt_ready-Ends m base_url config p.worker))
    | inr off ↦ if-of_false (Settles mode) _ off tt
  ]

  transcript_heard-Settles :
      (t : ℕ) (r : Result AssistantError (TranscriptionResult F)) (p : Pipeline)
      → Settles mode (transcript_heard rt m base_url config t r p)
  unfolding transcript_heard
  transcript_heard-Settles t (err e) p = tt
  transcript_heard-Settles t (ok res) p = elim (Bool-cases (is_empty (trim res.text))) [
    | inl on ↦ if-of_true (Settles mode) _ on tt
    | inr off ↦ if-of_false (Settles mode) _ off tt
  ]

  transcribe_utterance-Settles :
      (path : Text) (prompt : Option Text) (p : Pipeline)
      → Settles mode (transcribe_utterance rt m base_url config path prompt p)
  unfolding transcribe_utterance
  transcribe_utterance-Settles path prompt p = transcript_heard-Settles _ _ _

  unaddressed-IsSettled :
      (mode' : ActivationMode)
      → IsSettled mode' (unaddressed_state wide (matcher_of config wide) mode')
  unaddressed-IsSettled ActivationMode.degraded = tt
  unaddressed-IsSettled ActivationMode.auto = tt
  unaddressed-IsSettled ActivationMode.wakeword = tt
  unaddressed-IsSettled ActivationMode.transcript_prefix = tt

  command_of-Settles :
      (waiting : Bool) (heard : Text) (p : Pipeline)
      → Settles mode (command_of wide (matcher_of config wide) mode waiting heard p)
  unfolding command_of
  command_of-Settles waiting heard p =
      elim (Option-cases (addressed wide (matcher_of config wide) mode waiting heard)) [
        | inl e ↦ rw (e, command_of) (unaddressed-IsSettled mode)
        | inr (c, e) ↦ rw (e, command_of) tt
      ]

  run_instant-Settles :
      (c : LocalInstantCommand) (p : Pipeline)
      → Settles mode (run_instant rt m base_url config mode c p)
  unfolding run_instant
  run_instant-Settles no_command p = tt
  run_instant-Settles cancel p = tt
  run_instant-Settles voice_status p = tt
  run_instant-Settles repeat p = elim (Option-cases (get_last_spoken p.tracker)) [
    | inl e ↦ rw (e, run_instant) tt
    | inr (prev, e) ↦ rw (e, run_instant) tt
  ]

  execute-IsSettled :
      (command : Text) (t : ℕ) (p : Pipeline)
      → IsSettled mode (execute rt m base_url config command t p).tracker.state
  unfolding execute
  execute-IsSettled command t p = tt

  run_command-IsSettled :
      (command : Text) (t : ℕ) (p : Pipeline)
      → IsSettled mode (run_command rt m base_url config mode command t p).1.tracker.state
  unfolding run_command show_listening
  run_command-IsSettled command t p = elim (Bool-cases (is_empty command)) [
    | inl on ↦
        if-of_true (λ (r : Option (Unit {0}) × Pipeline). IsSettled mode r.1.tracker.state) _ on tt
    | inr off ↦
        if-of_false (λ (r : Option (Unit {0}) × Pipeline). IsSettled mode r.1.tracker.state) _ off
          (go_on-IsSettled (λ u q. (some tt, execute rt m base_url config command t q))
            (run_instant rt m base_url config mode (detect_instant_command command) p)
            (run_instant-Settles (detect_instant_command command) p)
            (λ u q. execute-IsSettled command t q))
  ]

  round-IsSettled :
      (path : Text) (waiting : Bool) (p : Pipeline)
      → IsSettled mode (round rt m base_url config wide mode path waiting p).1.tracker.state
  unfolding round
  round-IsSettled path waiting p =
      go_on-IsSettled _ (ready_stt rt m base_url config p) (ready_stt-Settles p) (λ u q.
        go_on-IsSettled _ (transcribe_utterance rt m base_url config path _ q)
          (transcribe_utterance-Settles path _ q)
          (λ heard q'.
            go_on-IsSettled _ (command_of wide (matcher_of config wide) mode waiting heard.0 q')
              (command_of-Settles waiting heard.0 q')
              (λ raw q''. run_command-IsSettled (trim raw) heard.1 q'')))

  handle_event-IsSettled :
      (e : CaptureEvent) (p : Pipeline)
      → IsSettled mode (handle_event rt m base_url config wide mode e p).tracker.state
  unfolding handle_event handle_wake handle_utterance show_listening
  handle_event-IsSettled (wake_detected id) p =
      elim (Bool-cases (Application.transcriber_is_local rt.content rt.service)) [
        | inl on ↦ if-of_true (λ (q : Pipeline). IsSettled mode q.tracker.state) _ on tt
        | inr off ↦ if-of_false (λ (q : Pipeline). IsSettled mode q.tracker.state) _ off tt
      ]
  handle_event-IsSettled (utterance id path) p =
      round-IsSettled path (answers p.awaiting id)
        (record p { awaiting = none; world = mark (Effect.paused true) p.world })

  -- After any sequence of events the reported state is idle, listening or, in degraded mode only, degraded, if it
  -- was one of these before: whatever fails, no round leaves it warming, transcribing, thinking,
  -- speaking, cooling down or recovering.
  pub pipeline_loop-IsSettled :
      (events : List CaptureEvent) (p : Pipeline)
      → IsSettled mode p.tracker.state
      → IsSettled mode (pipeline_loop rt m base_url config wide mode events p).tracker.state
  unfolding pipeline_loop
  pipeline_loop-IsSettled [] p h = h
  pipeline_loop-IsSettled (e ∷ events) p h =
      pipeline_loop-IsSettled events _ (handle_event-IsSettled e p)
