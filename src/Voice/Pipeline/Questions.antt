-- ===== src/Voice/Pipeline/Questions.antt =====
-- What `pipeline_loop` asks: the command of a transcript that is addressed to the assistant.
use kitt_assistant.Voice.Pipeline.Rounds.{IsHeard, prompt_for, execute-Moves, round-Moves}
use kitt_assistant.Voice.Pipeline.Loop.{
  matcher_of, handle_wake, handle_event, handle_utterance, pipeline_loop,
}
use kitt_assistant.Voice.Pipeline.{show_listening, Pipeline, addressed}
use kitt_assistant.Voice.Config.{VoiceConfig, ActivationMode}
use kitt_assistant.Voice.Stt.{Machine, Worker}
use kitt_assistant.Voice.Wake.{WakePhraseMatcher, strip_wake}
use kitt_assistant.Voice.Pipeline.Commands.{answers, utterance, wake_detected, CaptureEvent}
use kitt_assistant.Daemon.Runtime.{
  mark, warmup, hud_ensured, audio_removed, spoken, transcribed, hud_sent, Effect, Runtime,
}
use kitt_assistant.Base.{
  refl, ◌≡◌, ◌⊎◌, inl, inr, ap, subst, ◌∙◌, Bool, true, false, Option, none, some, List, [], ◌∷◌, ℕ,
  arith, Text, is_empty, trim, Option-cases,
}
use kitt_assistant.Voice.Pipeline.Invariant.{IsMild, IsInvariant}

-- The questions of a log, the newest first.
abbrev pub questions : List Effect → List Text
questions [] = []
questions (Effect.asked words hint ∷ log) = words ∷ questions log
questions (_ ∷ log) = questions log

-- The activation of the last event, if that is a wake.
abbrev pub last_wake : Option ℕ → List CaptureEvent → Option ℕ
last_wake before [] = before
last_wake before (wake_detected id ∷ []) = some id
last_wake before (utterance id path ∷ []) = none
last_wake before (_ ∷ e ∷ events) = last_wake before (e ∷ events)

-- What a mode takes from a transcript, by whether the utterance answers a wake. In wake-word mode
-- only an answer counts: what follows the wake phrase in it, or all of it where it has none. With
-- a prefix an answer counts as it is, and anything else by what follows its wake phrase. Degraded
-- takes nothing.
abbrev pub IsFor : (ℕ → Bool) → WakePhraseMatcher → ActivationMode → Bool → Text → Text → Type 0
IsFor wide matcher ActivationMode.wakeword waiting transcript raw =
    (waiting ≡ true)
    × ((strip_wake wide matcher transcript ≡ some raw)
        ⊎ ((strip_wake wide matcher transcript ≡ none) × (raw ≡ transcript)))
IsFor wide matcher ActivationMode.degraded waiting transcript raw = ⊥
IsFor wide matcher _ waiting transcript raw =
    ((waiting ≡ true) × (raw ≡ transcript))
    ⊎ ((waiting ≡ false) × (strip_wake wide matcher transcript ≡ some raw))

addressed-IsFor :
    (wide : ℕ → Bool) (matcher : WakePhraseMatcher) (mode : ActivationMode) (waiting : Bool)
    (transcript raw : Text)
    → addressed wide matcher mode waiting transcript ≡ some raw
    → IsFor wide matcher mode waiting transcript raw
unfolding addressed
addressed-IsFor wide matcher ActivationMode.wakeword false transcript raw e = absurd (cc)
addressed-IsFor wide matcher ActivationMode.wakeword true transcript raw e =
    elim (Option-cases (strip_wake wide matcher transcript)) [
      | inr (x, f) ↦ (refl, inl (ground arith))
      | inl f ↦ (refl, inr (f, ground arith))
    ]
addressed-IsFor wide matcher ActivationMode.degraded waiting transcript raw e = absurd (cc)
addressed-IsFor wide matcher ActivationMode.auto true transcript raw e = inl (refl, ground arith)
addressed-IsFor wide matcher ActivationMode.auto false transcript raw e = inr (refl, e)
addressed-IsFor wide matcher ActivationMode.transcript_prefix true transcript raw e =
    inl (refl, ground arith)
addressed-IsFor wide matcher ActivationMode.transcript_prefix false transcript raw e = inr (refl, e)

-- Questions are the ones so far, and no activation is awaited.
abbrev SoFar : List Text → Option ℕ → Worker → List Effect → Type 0
SoFar asked_so_far a w log = (questions log ≡ asked_so_far) × (a ≡ none)

SoFar-marks :
    (qs : List Text) (a : Option ℕ) (e : Effect)
    → IsMild e
    → (w : Worker) (log : List Effect) → SoFar qs a w log
    → SoFar qs a w (e ∷ log)
SoFar-marks qs a hud_ensured mild w log h = h
SoFar-marks qs a (hud_sent event) mild w log h = h
SoFar-marks qs a (Effect.asked words hint) mild w log h = absurd mild
SoFar-marks qs a (transcribed path) mild w log h = h
SoFar-marks qs a (spoken words) mild w log h = h
SoFar-marks qs a (Effect.paused b) mild w log h = absurd mild
SoFar-marks qs a (audio_removed path) mild w log h = absurd mild
SoFar-marks qs a warmup mild w log h = h
SoFar-marks qs a (Effect.slept n) mild w log h = h

later :
    (e : CaptureEvent) (events : List CaptureEvent) (a b : Option ℕ)
    → last_wake a (e ∷ events) ≡ last_wake b (e ∷ events)
later (wake_detected id) [] a b = refl
later (utterance id path) [] a b = refl
later (wake_detected id) (f ∷ events) a b = later f events a b
later (utterance id path) (f ∷ events) a b = later f events a b

last_wake-next :
    (e : CaptureEvent) (events : List CaptureEvent) (a : Option ℕ)
    → last_wake (last_wake a (e ∷ [])) events ≡ last_wake a (e ∷ events)
last_wake-next (wake_detected id) [] a = refl
last_wake-next (utterance id path) [] a = refl
last_wake-next (wake_detected id) (f ∷ events) a = later f events (some id) a
last_wake-next (utterance id path) (f ∷ events) a = later f events none a

module _ {R F : Type 0} (rt : Runtime R F) (m : Machine) (base_url : Text) (config : VoiceConfig F)
    (wide : ℕ → Bool) (mode : ActivationMode) where
  SoFar-IsInvariant : (qs : List Text) → IsInvariant m base_url config (SoFar qs)
  SoFar-IsInvariant qs = record {
    marks = SoFar-marks qs;
    waits = λ a w log tick now h. h;
    readies = λ a w log h. h;
    stops = λ a w log h. h;
  }

  -- From `p` to `q` nothing is asked, or the command of a transcript that is addressed.
  abbrev pub Asks : Bool → Text → Pipeline → Pipeline → Type 0
  Asks waiting path p q =
      (questions q.world.log ≡ questions p.world.log)
      ⊎ ((transcript raw : Text) × IsHeard rt config path (prompt_for rt config wide mode waiting)
            p.world.calls transcript
          × IsFor wide (matcher_of config wide) mode waiting transcript raw
          × (is_empty (trim raw) ≡ false)
          × (questions q.world.log ≡ trim raw ∷ questions p.world.log))

  handle_utterance-Asks :
      (id : Option ℕ) (path : Text) (p : Pipeline)
      → Asks
          (answers p.awaiting id)
          path
          p
          (handle_utterance rt m base_url config wide mode id path p)
        × ((handle_utterance rt m base_url config wide mode id path p).awaiting ≡ none)
  unfolding handle_utterance
  handle_utterance-Asks id path p =
      let qs = questions p.world.log in
      let i = SoFar-IsInvariant qs in
      round-Moves rt m base_url config (SoFar qs) (SoFar qs) i i
        (λ q. Asks (answers p.awaiting id) path p q × (q.awaiting ≡ none)) (λ q h. (inl h.0, h.1))
        wide mode path (answers p.awaiting id)
        (record p { awaiting = none; world = mark (Effect.paused true) p.world })
        (λ transcript raw t heard e full q h.
          let (new, none_awaited) =
            execute-Moves rt m base_url config (SoFar qs) (SoFar (trim raw ∷ qs)) i
              (SoFar-IsInvariant (trim raw ∷ qs)) (trim raw) t full
              (λ a w log h. (ap (λ l. trim raw ∷ l) h.0, h.1)) q h in
          let addressed_to =
            addressed-IsFor wide (matcher_of config wide) mode (answers p.awaiting id) transcript
              raw e in
          (inr (transcript, raw, heard, addressed_to, full, new), none_awaited))
        (refl, refl)

  handle_event-awaiting :
      (e : CaptureEvent) (p : Pipeline)
      → (handle_event rt m base_url config wide mode e p).awaiting ≡ last_wake p.awaiting (e ∷ [])
  unfolding handle_event handle_wake show_listening
  handle_event-awaiting (wake_detected id) p = ground arith
  handle_event-awaiting (utterance id path) p = (handle_utterance-Asks id path p).1

  pipeline_loop-awaiting :
      (events : List CaptureEvent) (p : Pipeline)
      → (pipeline_loop rt m base_url config wide mode events p).awaiting
        ≡ last_wake p.awaiting events
  unfolding pipeline_loop
  pipeline_loop-awaiting [] p = refl
  pipeline_loop-awaiting (e ∷ events) p =
      let q = handle_event rt m base_url config wide mode e p in
      pipeline_loop-awaiting events q
      ∙ (ap (λ a. last_wake a events) (handle_event-awaiting e p)
          ∙ last_wake-next e events p.awaiting)

  -- An utterance after a sequence of events asks nothing, or it asks one question: the trimmed command, not
  -- empty, of its transcript, which is the trimmed text that the transcriber gives for its file
  -- after the calls so far. In wake-word mode the utterance then answers the very last event, which
  -- is the wake of its own activation, and the command is what follows the wake phrase, or all of
  -- it where it has none; with a prefix it is the whole transcript of such an answer, or else what
  -- follows the wake phrase; in degraded mode nothing is asked.
  pub pipeline_loop-Asks :
      (events : List CaptureEvent) (p : Pipeline) (id : Option ℕ) (path : Text)
      → Asks
          (answers (last_wake p.awaiting events) id)
          path
          (pipeline_loop rt m base_url config wide mode events p)
          (handle_utterance rt m base_url config wide mode id path
            (pipeline_loop rt m base_url config wide mode events p))
  pipeline_loop-Asks events p id path =
      let before = pipeline_loop rt m base_url config wide mode events p in
      subst
        (λ a.
          Asks (answers a id) path before
            (handle_utterance rt m base_url config wide mode id path before))
        (pipeline_loop-awaiting events p) (handle_utterance-Asks id path before).0
