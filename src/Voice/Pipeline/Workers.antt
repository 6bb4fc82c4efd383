-- ===== src/Voice/Pipeline/Workers.antt =====
-- `pipeline_loop` and the processes of the speech-to-text worker.
use kitt_assistant.Voice.Pipeline.Rounds.{execute-Moves, round-Moves}
use kitt_assistant.Voice.Pipeline.{show_listening, Pipeline}
use kitt_assistant.Voice.Pipeline.Commands.{answers, utterance, wake_detected, CaptureEvent}
use kitt_assistant.Voice.Stt.Ownership.{ensure_local_stt_ready-IsAccounted}
use kitt_assistant.Voice.Pipeline.Loop.{handle_utterance, handle_wake, pipeline_loop, handle_event}
use kitt_assistant.Voice.Stt.Processes.{stop_owned_stt_worker-IsAccounted, IsAccounted}
use kitt_assistant.Voice.Config.{ActivationMode, VoiceConfig}
use kitt_assistant.Daemon.Runtime.{mark, Effect, Runtime}
use kitt_assistant.Voice.Stt.{Machine, Worker}
use kitt_assistant.Base.{
  inl, inr, Bool, true, Option, none, List, [], ◌∷◌, ℕ, Text, Bool-cases, if-of_true, if-of_false,
  trim,
}
use kitt_assistant.Voice.Pipeline.Invariant.{IsInvariant}
use kitt_assistant.Application

-- Each process that was started is accounted for.
abbrev Tidy : Option ℕ → Worker → List Effect → Type 0
Tidy a w log = IsAccounted w

module _ {R F : Type 0} (rt : Runtime R F) (m : Machine) (base_url : Text) (config : VoiceConfig F)
    (wide : ℕ → Bool) (mode : ActivationMode) where
  Tidy-IsInvariant : IsInvariant m base_url config Tidy
  Tidy-IsInvariant = record {
    marks = λ a e mild w log h. h;
    waits = λ a w log tick now h. h;
    readies = λ a w log h. (ensure_local_stt_ready-IsAccounted m base_url config w h).0;
    stops = λ a w log h. stop_owned_stt_worker-IsAccounted w h;
  }

  handle_event-IsAccounted :
      (e : CaptureEvent) (p : Pipeline)
      → IsAccounted p.worker
      → IsAccounted (handle_event rt m base_url config wide mode e p).worker
  unfolding handle_event handle_wake handle_utterance show_listening
  handle_event-IsAccounted (wake_detected id) p h =
      elim (Bool-cases (Application.transcriber_is_local rt.content rt.service)) [
        | inl on ↦ if-of_true (λ (q : Pipeline). IsAccounted q.worker) _ on h
        | inr off ↦ if-of_false (λ (q : Pipeline). IsAccounted q.worker) _ off h
      ]
  handle_event-IsAccounted (utterance id path) p h =
      let i = Tidy-IsInvariant in
      round-Moves rt m base_url config Tidy Tidy i i (λ q. IsAccounted q.worker) (λ q h. h) wide
        mode path (answers p.awaiting id)
        (record p { awaiting = none; world = mark (Effect.paused true) p.world })
        (λ transcript raw t heard addressed full q h.
          execute-Moves rt m base_url config Tidy Tidy i i (trim raw) t full (λ a w log h. h) q h)
        h

  -- Over any sequence of events, restarts after failed transcriptions included, each worker process that was
  -- started is the one that is owned, or was reaped or killed, if this was so before.
  pub pipeline_loop-IsAccounted :
      (events : List CaptureEvent) (p : Pipeline)
      → IsAccounted p.worker
      → IsAccounted (pipeline_loop rt m base_url config wide mode events p).worker
  unfolding pipeline_loop
  pipeline_loop-IsAccounted [] p h = h
  pipeline_loop-IsAccounted (e ∷ events) p h =
      pipeline_loop-IsAccounted events _ (handle_event-IsAccounted e p h)
