-- ===== src/Voice/Pipeline/Rounds.antt =====
-- A round, with a predicate before it and another after it: only the question of its command moves from the
-- one to the other.
use kitt_assistant.Voice.Tracker.{record_llm}
use kitt_assistant.Voice.Pipeline.Loop.{matcher_of, round}
use kitt_assistant.Domain.{RoutedAnswer, AssistantError, RouteHint}
use kitt_assistant.Daemon.Runtime.{
  hud_ensured, HudState, status, Failure, answered, World, Effect, run_ask,
}
use kitt_assistant.Voice.Pipeline.Commands.{answer_told, run_instant, run_command, execute}
use kitt_assistant.Base.{
  ◌≡◌, inl, inr, Bool, true, false, Option, some, List, ◌∷◌, ℕ, ◌+◌, arith, Text, Result, ok, err,
  codes, is_empty, Bool-cases, if-of_true, if-of_false, trim,
}
use kitt_assistant.Voice.Stt
use kitt_assistant.Application
use kitt_assistant.Application.{transcribe_rich}
use kitt_assistant.Domain.{TranscriptionResult, History}
use kitt_assistant.Voice.Pipeline.{Step, go_on, stt_checked, transcript_heard}
use kitt_assistant.Voice.Pipeline.Commands.{probes}
use kitt_assistant.Base.{if◌then◌else◌, refl, subst, none}
use kitt_assistant.Voice.Pipeline.{
  WakePhraseMatcher, transcribe_utterance, ready_stt, command_of, elapsed, VoiceState, at,
  addressed, on_hud, detect_instant_command, ActivationMode, Pipeline, Worker, VoiceConfig, Machine,
  Runtime,
}
use kitt_assistant.Voice.Pipeline.Invariant.{
  ready_stt-Kept, transcribe_utterance-Kept, command_of-Kept, answer_told-Kept, run_instant-Kept,
  show_listening-Kept, Holds, IsInvariant, go_on-Moves, on_hud-Kept,
}

command_of-addressed :
    (wide : ℕ → Bool) (matcher : WakePhraseMatcher) (mode : ActivationMode) (waiting : Bool)
    (transcript : Text) (p : Pipeline) (raw : Text)
    → (command_of wide matcher mode waiting transcript p).0 ≡ some raw
    → addressed wide matcher mode waiting transcript ≡ some raw
unfolding command_of
command_of-addressed wide matcher mode waiting transcript p raw e = ground arith

module _ {R F : Type 0} (rt : Runtime R F) (config : VoiceConfig F) where
  -- What the activation is told to the transcriber with.
  abbrev pub prompt_for : (ℕ → Bool) → ActivationMode → Bool → Option Text
  prompt_for wide mode waiting =
      if probes mode waiting then some (matcher_of config wide).prompt_hint else none

  -- The transcript is the trimmed text that the transcriber gives for the file, after the calls so far.
  abbrev pub IsHeard : Text → Option Text → History → Text → Type 0
  IsHeard path prompt calls transcript =
      (res : TranscriptionResult F) × (rt.service.transcriber.transcribe_rich calls path
          (some config.locale) prompt
        ≡ ok res)
      × (transcript ≡ trim res.text)

module _ {R F : Type 0} (rt : Runtime R F) (m : Machine) (base_url : Text)
    (config : VoiceConfig F) where
  stt_checked-world :
      (r : Option (Result Text (Unit {0}))) (p : Pipeline) (u : Unit)
      → (stt_checked rt m base_url config r p).0 ≡ some u
      → (stt_checked rt m base_url config r p).1.world ≡ p.world
  unfolding stt_checked
  stt_checked-world none p u e = cc
  stt_checked-world (some (ok v)) p u e = refl
  stt_checked-world (some (err x)) p u e = cc

  ready_stt-world :
      (p : Pipeline) (u : Unit)
      → (ready_stt rt m base_url config p).0 ≡ some u
      → (ready_stt rt m base_url config p).1.world ≡ p.world
  unfolding ready_stt
  ready_stt-world p u = elim (Bool-cases (Application.transcriber_is_local rt.content rt.service)) [
    | inl on ↦
        if-of_true (λ (r : Option (Unit {0}) × Pipeline). r.0 ≡ some u → r.1.world ≡ p.world) _ on
          (stt_checked-world _ _ u)
    | inr off ↦
        if-of_false (λ (r : Option (Unit {0}) × Pipeline). r.0 ≡ some u → r.1.world ≡ p.world) _ off
          (λ e. refl)
  ]

  transcript_heard-text :
      (t : ℕ) (r : Result AssistantError (TranscriptionResult F)) (p : Pipeline) (heard : Text × ℕ)
      → (transcript_heard rt m base_url config t r p).0 ≡ some heard
      → (res : TranscriptionResult F) × (r ≡ ok res) × (heard.0 ≡ trim res.text)
  unfolding transcript_heard
  transcript_heard-text t (err e) p heard h = absurd (cc)
  transcript_heard-text t (ok res) p heard h = (res, refl, ground arith)

  transcribe_utterance-IsHeard :
      (path : Text) (prompt : Option Text) (p : Pipeline) (heard : Text × ℕ)
      → (transcribe_utterance rt m base_url config path prompt p).0 ≡ some heard
      → IsHeard rt config path prompt p.world.calls heard.0
  unfolding transcribe_utterance transcribe_rich
  transcribe_utterance-IsHeard path prompt p heard h = transcript_heard-text _ _ _ heard h

  round_transcript :
      (path : Text) (prompt : Option Text) (p q : Pipeline) (heard : Text × ℕ)
      → q.world ≡ p.world
      → (transcribe_utterance rt m base_url config path prompt q).0 ≡ some heard
      → IsHeard rt config path prompt p.world.calls heard.0
  round_transcript path prompt p q heard same e =
      subst (λ w. IsHeard rt config path prompt w.calls heard.0) same
        (transcribe_utterance-IsHeard path prompt q heard e)

module _ {R F : Type 0} (rt : Runtime R F) (m : Machine) (base_url : Text)
    (config : VoiceConfig F) where
  module _ (P Q : Option ℕ → Worker → List Effect → Type 0) (i : IsInvariant m base_url config P)
      (j : IsInvariant m base_url config Q) where
    answered-Kept :
        (a : Option ℕ) (w : Worker) (r : Result AssistantError RoutedAnswer × World)
        → Q a w r.1.log
        → Q a w (answered rt true r).1.log
    unfolding answered
    answered-Kept a w (ok answer, world) h = j.marks _ _ tt w _ h
    answered-Kept a w (err e, world) h = j.marks _ _ tt w _ h

    run_ask-Moves :
        (command : Text)
        → is_empty command ≡ false
        → ((a : Option ℕ) (w : Worker) (log : List Effect)
            → P a w log
            → Q a w (Effect.asked command RouteHint.auto ∷ log))
        → (a : Option ℕ) (w : Worker) (world : World) → P a w world.log
        → Q a w (run_ask rt command RouteHint.auto true world).1.log
    unfolding run_ask
    run_ask-Moves command full asks a w world h =
        if-of_false (λ (r : Result Failure RoutedAnswer × World). Q a w r.1.log) _ full
          (answered-Kept a w _ (asks a w _ (i.marks _ _ tt w _ (i.marks _ hud_ensured tt w _ h))))

    -- The question moves a predicate to another.
    pub execute-Moves :
        (command : Text) (t : ℕ)
        → is_empty command ≡ false
        → ((a : Option ℕ) (w : Worker) (log : List Effect)
            → P a w log
            → Q a w (Effect.asked command RouteHint.auto ∷ log))
        → (p : Pipeline) → P p.awaiting p.worker p.world.log
        → Holds rt m base_url config Q j (execute rt m base_url config command t p)
    unfolding execute
    execute-Moves command t full asks p h =
        let shown = status HudState.thinking (some (codes "Pensando…")) in
        let before = on_hud shown (at VoiceState.thinking p) in
        let r = run_ask rt command RouteHint.auto true before.world in
        let after = record before { world = r.1; worker = Stt.asked m before.worker } in
        let duration = elapsed before after in
        let told =
          answer_told rt m base_url config (t + duration) r.0
            (record after { tracker = record_llm after.tracker duration }) in
        let asked = j.waits _ p.worker r.1.log _ _ (
          run_ask-Moves command full asks p.awaiting p.worker before.world
            (on_hud-Kept rt m base_url config P i shown p h)) in
        let answered =
          answer_told-Kept rt m base_url config Q j (t + duration) r.0
            (record after { tracker = record_llm after.tracker duration }) asked in
        j.waits _ told.worker (Effect.slept config.echo_guard_ms ∷ told.world.log) _ _
          (j.marks _ (Effect.slept config.echo_guard_ms) tt told.worker told.world.log answered)

    module _ (T : Pipeline → Type 0)
        (leave : (p : Pipeline) → Holds rt m base_url config P i p → T p) where
      go_on-Steps :
          {A B : Type 0} (f : A → Step B) (r : Option A × Pipeline)
          → ((p : Pipeline) → Holds rt m base_url config P i p → T p)
          → ((a : A) → r.0 ≡ some a → Holds rt m base_url config P i r.1 → T (f a r.1).1)
          → Holds rt m base_url config P i r.1
          → T (go_on f r).1
      go_on-Steps f (some a, p) leave l h = l a refl h
      go_on-Steps f (none, p) leave l h = leave p h

      run_command-Moves :
          (mode : ActivationMode) (command : Text) (t : ℕ)
          → (is_empty command ≡ false
              → (p : Pipeline) → Holds rt m base_url config P i p
              → T (execute rt m base_url config command t p))
          → (p : Pipeline) → Holds rt m base_url config P i p
          → T (run_command rt m base_url config mode command t p).1
      unfolding run_command
      run_command-Moves mode command t ask p h = elim (Bool-cases (is_empty command)) [
        | inl on ↦
            if-of_true (λ (r : Option (Unit {0}) × Pipeline). T r.1) _ on
              (leave _ (show_listening-Kept rt m base_url config P i config.command_timeout_ms _ h))
        | inr off ↦
            if-of_false (λ (r : Option (Unit {0}) × Pipeline). T r.1) _ off
              (go_on-Moves rt m base_url config P i T
                (λ u q. (some tt, execute rt m base_url config command t q))
                (run_instant rt m base_url config mode (detect_instant_command command) p) leave
                (λ u e q k. ask off q k)
                (run_instant-Kept rt m base_url config P i mode (detect_instant_command command) p
                  h))
      ]

      -- A round comes to its end before it asks, or asks the command of a transcript.
      pub round-Moves :
          (wide : ℕ → Bool) (mode : ActivationMode) (path : Text) (waiting : Bool) (p : Pipeline)
          → ((transcript raw : Text) (t : ℕ)
              → IsHeard rt config path
                  (prompt_for rt config wide mode waiting)
                  p.world.calls
                  transcript
              → addressed wide (matcher_of config wide) mode waiting transcript ≡ some raw
              → is_empty (trim raw) ≡ false
              → (p : Pipeline) → Holds rt m base_url config P i p
              → T (execute rt m base_url config (trim raw) t p))
          → Holds rt m base_url config P i p
          → T (round rt m base_url config wide mode path waiting p).1
      unfolding round
      round-Moves wide mode path waiting p ask h =
          let prompt = prompt_for rt config wide mode waiting in
          let ready = ready_stt rt m base_url config p in
          let heard_at = transcribe_utterance rt m base_url config path prompt ready.1 in
          go_on-Steps _ ready leave
            (λ u e k.
              go_on-Steps _ heard_at leave
                (λ heard e' k'.
                  go_on-Moves rt m base_url config P i T _
                    (command_of wide (matcher_of config wide) mode waiting heard.0 heard_at.1) leave
                    (λ raw e'' q k''.
                      run_command-Moves mode (trim raw) heard.1
                        (ask heard.0 raw heard.1
                          (round_transcript rt m base_url config path prompt p ready.1 heard
                            (ready_stt-world rt m base_url config p u e) e')
                          (command_of-addressed wide (matcher_of config wide) mode waiting heard.0
                            heard_at.1 raw e''))
                        q k'')
                    (command_of-Kept rt m base_url config P i wide (matcher_of config wide) mode
                      waiting heard.0 heard_at.1 k'))
                (transcribe_utterance-Kept rt m base_url config P i path prompt ready.1 k))
            (ready_stt-Kept rt m base_url config P i p h)
