-- ===== src/Voice/Pipeline/Invariant.antt =====
-- The interface between the parts of a round and what is to be kept of the awaited activation, the worker and
-- the daemon's log: a predicate with its laws for the calls that a round makes.
use kitt_assistant.Voice.Tracker.{get_last_spoken}
use kitt_assistant.Domain.{RoutedAnswer}
use kitt_assistant.Voice.Pipeline.Commands.{
  speak_if_enabled, speak_answer, run_instant, spoken_answer, answer_told,
}
use kitt_assistant.Daemon.Runtime.{
  hud_ensured, hud_sent, transcribed, Failure, spoken, HudEvent, audio_removed,
}
use kitt_assistant.Base.{
  refl, ◌≡◌, inl, inr, Bool, Option, none, some, List, ◌∷◌, ℕ, Text, Result, ok, err, is_empty,
  Bool-cases, Option-cases, if-of_true, if-of_false, trim,
}
use kitt_assistant.Application
use kitt_assistant.Voice.Stt
use kitt_assistant.Voice.Wake.{WakePhraseMatcher}
use kitt_assistant.Voice.Pipeline.{
  repeat, go_on, voice_status, cancel, no_command, TranscriptionResult, LocalInstantCommand,
  addressed, stop_owned_stt_worker, on_hud, ActivationMode, AssistantError, command_of,
  show_listening, stt_checked, transcript_heard, transcribe_utterance, show_voice_error, ready_stt,
  ensure_local_stt_ready, Pipeline, Worker, VoiceConfig, Runtime, Machine, Effect, Step,
}

-- An effect of a round that neither asks nor belongs to its guards.
abbrev pub IsMild : Effect → Type 0
IsMild (Effect.asked words hint) = ⊥
IsMild (Effect.paused b) = ⊥
IsMild (audio_removed path) = ⊥
IsMild _ = Unit

module _ {F : Type 0} (m : Machine) (base_url : Text) (config : VoiceConfig F) where
  pub record IsInvariant (P : Option ℕ → Worker → List Effect → Type 0) : Type 0 where
    pub marks :
        (a : Option ℕ) (e : Effect)
        → IsMild e
        → (w : Worker) (log : List Effect) → P a w log
        → P a w (e ∷ log)
    pub waits :
        (a : Option ℕ) (w : Worker) (log : List Effect) (tick now : ℕ)
        → P a w log
        → P a (record w { tick = tick; now = now }) log
    pub readies :
        (a : Option ℕ) (w : Worker) (log : List Effect)
        → P a w log
        → P a (ensure_local_stt_ready m base_url config w).1 log
    pub stops :
        (a : Option ℕ) (w : Worker) (log : List Effect)
        → P a w log
        → P a (stop_owned_stt_worker w) log

module _ {R F : Type 0} (rt : Runtime R F) (m : Machine) (base_url : Text) (config : VoiceConfig F)
    (P : Option ℕ → Worker → List Effect → Type 0) (i : IsInvariant m base_url config P) where
  abbrev pub Holds : Pipeline → Type 0
  Holds p = P p.awaiting p.worker p.world.log

  abbrev pub Kept : {A : Type 0} → Step A → Type 0
  Kept s = (p : Pipeline) → Holds p → Holds (s p).1

  pub go_on-Moves :
      {A B : Type 0} (T : Pipeline → Type 0) (f : A → Step B) (r : Option A × Pipeline)
      → ((p : Pipeline) → Holds p → T p)
      → ((a : A) → r.0 ≡ some a → (p : Pipeline) → Holds p → T (f a p).1)
      → Holds r.1
      → T (go_on f r).1
  go_on-Moves T f (some a, p) leave l h = l a refl p h
  go_on-Moves T f (none, p) leave l h = leave p h

  pub on_hud-Kept : (event : HudEvent) (p : Pipeline) → Holds p → Holds (on_hud event p)
  on_hud-Kept event p h =
      i.marks _ (hud_sent event) tt p.worker _ (i.marks _ hud_ensured tt p.worker _ h)

  show_voice_error-Kept : (e : Text) (p : Pipeline) → Holds p → Holds (show_voice_error e p)
  unfolding show_voice_error
  show_voice_error-Kept e p h = on_hud-Kept _ p h

  pub show_listening-Kept : (ttl : ℕ) (p : Pipeline) → Holds p → Holds (show_listening ttl p)
  unfolding show_listening
  show_listening-Kept ttl p h = i.marks _ _ tt p.worker _ (on_hud-Kept _ p h)

  -- A call of the service.
  serving-Kept :
      (e : Effect) (p : Pipeline)
      → IsMild e
      → Holds p
      → P p.awaiting (Stt.asked m p.worker) (e ∷ p.world.log)
  serving-Kept e p mild h =
      i.waits _ p.worker (e ∷ p.world.log) _ _ (i.marks _ e mild p.worker p.world.log h)

  stt_checked-Kept :
      (r : Option (Result Text (Unit {0}))) → Kept (stt_checked rt m base_url config r)
  unfolding stt_checked
  stt_checked-Kept none p h = h
  stt_checked-Kept (some (ok _)) p h = h
  stt_checked-Kept (some (err e)) p h = show_voice_error-Kept _ _ h

  pub ready_stt-Kept : Kept (ready_stt rt m base_url config)
  unfolding ready_stt
  ready_stt-Kept p h = elim (Bool-cases (Application.transcriber_is_local rt.content rt.service)) [
    | inl on ↦
        if-of_true (λ (r : Option (Unit {0}) × Pipeline). Holds r.1) _ on
          (stt_checked-Kept _ _ (i.readies _ p.worker _ h))
    | inr off ↦ if-of_false (λ (r : Option (Unit {0}) × Pipeline). Holds r.1) _ off h
  ]

  transcript_heard-Kept :
      (t : ℕ) (r : Result AssistantError (TranscriptionResult F))
      → Kept (transcript_heard rt m base_url config t r)
  unfolding transcript_heard
  transcript_heard-Kept t (err e) p h = show_voice_error-Kept _ _ (i.stops _ p.worker _ h)
  transcript_heard-Kept t (ok res) p h = elim (Bool-cases (is_empty (trim res.text))) [
    | inl on ↦ if-of_true (λ (r : Option (Text × ℕ) × Pipeline). Holds r.1) _ on h
    | inr off ↦ if-of_false (λ (r : Option (Text × ℕ) × Pipeline). Holds r.1) _ off h
  ]

  pub transcribe_utterance-Kept :
      (path : Text) (prompt : Option Text)
      → Kept (transcribe_utterance rt m base_url config path prompt)
  unfolding transcribe_utterance
  transcribe_utterance-Kept path prompt p h =
      transcript_heard-Kept _ _ _ (serving-Kept (transcribed path) p tt h)

  pub command_of-Kept :
      (wide : ℕ → Bool) (matcher : WakePhraseMatcher) (mode : ActivationMode) (waiting : Bool)
      (heard : Text)
      → Kept (command_of wide matcher mode waiting heard)
  unfolding command_of
  command_of-Kept wide matcher mode waiting heard p h =
      elim (Option-cases (addressed wide matcher mode waiting heard)) [
        | inl e ↦ rw (e, command_of) h
        | inr (c, e) ↦ rw (e, command_of) h
      ]

  speak_if_enabled-Kept :
      (words : Text) (p : Pipeline)
      → Holds p
      → Holds (speak_if_enabled rt m base_url config words p)
  speak_if_enabled-Kept words p h = elim (Bool-cases config.tts_enabled) [
    | inl on ↦ if-of_true Holds _ on (serving-Kept (spoken words) p tt h)
    | inr off ↦ if-of_false Holds _ off h
  ]

  pub run_instant-Kept :
      (mode : ActivationMode) (c : LocalInstantCommand)
      → Kept (run_instant rt m base_url config mode c)
  unfolding run_instant
  run_instant-Kept mode no_command p h = h
  run_instant-Kept mode cancel p h = on_hud-Kept _ p h
  run_instant-Kept mode voice_status p h = speak_if_enabled-Kept _ _ (on_hud-Kept _ p h)
  run_instant-Kept mode repeat p h = elim (Option-cases (get_last_spoken p.tracker)) [
    | inl e ↦ rw (e, run_instant) h
    | inr (prev, e) ↦ rw (e, run_instant) (speak_if_enabled-Kept _ _ (on_hud-Kept _ p h))
  ]

  spoken_answer-Kept :
      (r : Result AssistantError (Unit {0}) × Pipeline)
      → Holds r.1
      → Holds (spoken_answer rt m base_url config r)
  unfolding spoken_answer
  spoken_answer-Kept (ok _, q) k = k
  spoken_answer-Kept (err e, q) k = k

  speak_answer-Kept :
      (answer : Text) (p : Pipeline) → Holds p → Holds (speak_answer rt m base_url config answer p)
  unfolding speak_answer
  speak_answer-Kept answer p h =
      let shown = HudEvent.text answer 8000 in
      spoken_answer-Kept _
        (serving-Kept (spoken answer) (on_hud shown p) tt (on_hud-Kept shown p h))

  pub answer_told-Kept :
      (total : ℕ) (r : Result Failure RoutedAnswer) (p : Pipeline)
      → Holds p
      → Holds (answer_told rt m base_url config total r p)
  unfolding answer_told
  answer_told-Kept total (err (code, e)) p h = h
  answer_told-Kept total (ok answer) p h = elim (Bool-cases config.tts_enabled) [
    | inl on ↦ if-of_true Holds _ on (speak_answer-Kept _ _ h)
    | inr off ↦ if-of_false Holds _ off h
  ]
