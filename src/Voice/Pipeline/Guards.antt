-- ===== src/Voice/Pipeline/Guards.antt =====
-- What the guards of `pipeline_loop` promise of the microphone and the recordings.
use kitt_assistant.Voice.Pipeline.Rounds.{execute-Moves, round-Moves}
use kitt_assistant.Voice.Pipeline.{show_listening, Pipeline}
use kitt_assistant.Voice.Pipeline.Loop.{handle_utterance, handle_wake, pipeline_loop, handle_event}
use kitt_assistant.Voice.Config.{ActivationMode, VoiceConfig}
use kitt_assistant.Voice.Stt.{Machine, Worker}
use kitt_assistant.Daemon.Runtime.{
  mark, warmup, hud_ensured, spoken, hud_sent, audio_removed, transcribed, Runtime, Effect,
}
use kitt_assistant.Voice.Pipeline.Commands.{answers, utterance, wake_detected, CaptureEvent}
use kitt_assistant.Base.{
  refl, ◌≡◌, inl, inr, ap, Bool, true, false, Option, none, List, [], ◌∷◌, ℕ, Text, Bool-cases,
  if-of_true, if-of_false, trim,
}
use kitt_assistant.Application
use kitt_assistant.Voice.Pipeline.Invariant.{IsMild, IsInvariant}

-- The capture thread is paused, as the newest mark says.
abbrev pub is_paused : List Effect → Bool
is_paused [] = false
is_paused (Effect.paused b ∷ log) = b
is_paused (_ ∷ log) = is_paused log

-- The recordings that were removed.
abbrev pub removed : List Effect → List Text
removed [] = []
removed (audio_removed path ∷ log) = path ∷ removed log
removed (_ ∷ log) = removed log

-- Each call of the service came while the capture thread was paused.
abbrev pub IsGuarded : List Effect → Type 0
IsGuarded [] = Unit
IsGuarded (Effect.asked words hint ∷ log) = (is_paused log ≡ true) × IsGuarded log
IsGuarded (transcribed path ∷ log) = (is_paused log ≡ true) × IsGuarded log
IsGuarded (spoken words ∷ log) = (is_paused log ≡ true) × IsGuarded log
IsGuarded (_ ∷ log) = IsGuarded log

-- The recordings of a sequence of events, before those of `rest`: the last one is first.
abbrev pub recorded : List CaptureEvent → List Text → List Text
recorded [] rest = rest
recorded (wake_detected id ∷ events) rest = recorded events rest
recorded (utterance id path ∷ events) rest = recorded events (path ∷ rest)

-- Between the guards.
abbrev Open : List Text → Option ℕ → Worker → List Effect → Type 0
Open gone a w log = (is_paused log ≡ true) × IsGuarded log × (removed log ≡ gone)

-- Outside them.
abbrev pub Closed : List Text → List Effect → Type 0
Closed gone log = (is_paused log ≡ false) × IsGuarded log × (removed log ≡ gone)

Open-marks :
    (gone : List Text) (a : Option ℕ) (e : Effect)
    → IsMild e
    → (w : Worker) (log : List Effect) → Open gone a w log
    → Open gone a w (e ∷ log)
Open-marks gone a hud_ensured mild w log h = h
Open-marks gone a (hud_sent event) mild w log h = h
Open-marks gone a (Effect.asked words hint) mild w log h = absurd mild
Open-marks gone a (transcribed path) mild w log (on, guarded, cleaned) =
    (on, (on, guarded), cleaned)
Open-marks gone a (spoken words) mild w log (on, guarded, cleaned) = (on, (on, guarded), cleaned)
Open-marks gone a (Effect.paused b) mild w log h = absurd mild
Open-marks gone a (audio_removed path) mild w log h = absurd mild
Open-marks gone a warmup mild w log h = h
Open-marks gone a (Effect.slept n) mild w log h = h

module _ {R F : Type 0} (rt : Runtime R F) (m : Machine) (base_url : Text) (config : VoiceConfig F)
    (wide : ℕ → Bool) (mode : ActivationMode) where
  Open-IsInvariant : (gone : List Text) → IsInvariant m base_url config (Open gone)
  Open-IsInvariant gone = record {
    marks = Open-marks gone;
    waits = λ a w log tick now h. h;
    readies = λ a w log h. h;
    stops = λ a w log h. h;
  }

  handle_event-Closed :
      (gone : List Text) (e : CaptureEvent) (p : Pipeline)
      → Closed gone p.world.log
      → Closed (recorded (e ∷ []) gone) (handle_event rt m base_url config wide mode e p).world.log
  unfolding handle_event handle_wake handle_utterance show_listening
  handle_event-Closed gone (wake_detected id) p h =
      elim (Bool-cases (Application.transcriber_is_local rt.content rt.service)) [
        | inl on ↦ if-of_true (λ (q : Pipeline). Closed gone q.world.log) _ on h
        | inr off ↦ if-of_false (λ (q : Pipeline). Closed gone q.world.log) _ off h
      ]
  handle_event-Closed gone (utterance id path) p (off, guarded, cleaned) =
      let i = Open-IsInvariant gone in
      let (on, guarded', cleaned') =
        round-Moves rt m base_url config (Open gone) (Open gone) i i
          (λ q. Open gone q.awaiting q.worker q.world.log) (λ q h. h) wide mode path
          (answers p.awaiting id)
          (record p { awaiting = none; world = mark (Effect.paused true) p.world })
          (λ transcript raw t heard addressed full q h.
            execute-Moves rt m base_url config (Open gone) (Open gone) i i (trim raw) t full
              (λ a w log (on, guarded, cleaned). (on, (on, guarded), cleaned)) q h)
          (refl, guarded, cleaned) in
      (refl, guarded', ap (λ l. path ∷ l) cleaned')

  -- However each of its rounds ends, the loop over a sequence of events calls the service (to transcribe, to
  -- ask or to speak) only while the capture thread is paused, leaves that thread running, and has
  -- removed the recording of each utterance exactly once, in their order.
  pub pipeline_loop-Closed :
      (events : List CaptureEvent) (gone : List Text) (p : Pipeline)
      → Closed gone p.world.log
      → Closed
          (recorded events gone)
          (pipeline_loop rt m base_url config wide mode events p).world.log
  unfolding pipeline_loop
  pipeline_loop-Closed [] gone p h = h
  pipeline_loop-Closed (wake_detected id ∷ events) gone p h =
      pipeline_loop-Closed events gone _ (handle_event-Closed gone (wake_detected id) p h)
  pipeline_loop-Closed (utterance id path ∷ events) gone p h =
      pipeline_loop-Closed events (path ∷ gone) _ (handle_event-Closed gone (utterance id path) p h)
