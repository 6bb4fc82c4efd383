-- ===== src/Voice/Start/Fitness.antt =====
-- When the voice runtime listens.
use kitt_assistant.Base.{
  map_err-eq-ok, ok-injective, Float32, refl, ◌≡◌, ◌≢◌, inl, inr, sym, ap, subst, ◌∙◌, Bool, true,
  false, not, ◌&&◌, Option, none, some, ℕ, arith, Text, Result, ok, err, map_err, codes, text_eq,
  Bool-cases, Option-cases, Result-cases, if-of_true, if-of_false, >>=-eq-ok,
}
use kitt_assistant.ControlCenter.Json.{Doubles}
use kitt_assistant.Voice.Config.{VoiceConfig, ActivationMode}
use kitt_assistant.Voice.Config.Validation.{validate}
use kitt_assistant.Voice.Config.Laws.{IsValid, validate_iff}
use kitt_assistant.Voice.Config.Loading.{load_or_create, resolved_mode, wakeword_path, migrate}
use kitt_assistant.Voice.Stt.{Worker}
use kitt_assistant.Voice.Stt.Polling.{ensure_local_stt_ready}
use kitt_assistant.Voice.Start.{
  apply_voice, Started, capturing, Site, is_degraded, configured, check_mode, spawn_threads,
  after_warmup, start_mode, start_with, start,
}

module _ (fl : Float32) (ds : Doubles) (as_f32 : ds.F → fl.F) (wide : ℕ → Bool)
    (site : Site fl.F) where
  -- What a mode needs to listen: a local transcriber for the prefix in a transcript, which hears all that
  -- is said, and the file of the wake word for that.
  abbrev pub IsFit : VoiceConfig fl.F → ActivationMode → Type 0
  IsFit config ActivationMode.transcript_prefix = site.transcriber_is_local ≡ true
  IsFit config ActivationMode.wakeword =
      (path : Text) × (wakeword_path config site.files site.config_dir ≡ some path)
      × (site.files.is_file path ≡ true)
  IsFit config ActivationMode.degraded = ⊥
  IsFit config ActivationMode.auto = ⊥

  abbrev pub Listens : Option (Result Text (Started fl.F)) → Type 0
  Listens (some (ok (capturing mode config))) =
      IsValid fl config
      × (config.enabled ≡ true)
      × (mode ≡ resolved_mode config site.files site.config_dir)
      × IsFit config mode
  Listens _ = Unit

  check_mode-IsFit :
      (config : VoiceConfig fl.F) (mode : ActivationMode) (done : Unit {0})
      → check_mode fl ds as_f32 wide site config mode ≡ ok done
      → is_degraded mode ≡ false
      → mode ≢ ActivationMode.auto
      → IsFit config mode
  unfolding check_mode
  check_mode-IsFit config ActivationMode.transcript_prefix done e h k = ground arith
  check_mode-IsFit config ActivationMode.wakeword done e h k =
      elim (Option-cases (wakeword_path config site.files site.config_dir)) [
        | inl f ↦ ground arith
        | inr (path, f) ↦ (path, f, ground arith)
      ]
  check_mode-IsFit config ActivationMode.degraded done e h k = cc
  check_mode-IsFit config ActivationMode.auto done e h k = absurd (k refl)

  resolved_again :
      (config : VoiceConfig fl.F)
      → resolved_mode config site.files site.config_dir ≢ ActivationMode.auto
  unfolding resolved_mode
  resolved_again config = ground arith

  -- What holds of the threads that are started in a mode.
  spawn_threads-Listens :
      (mode : ActivationMode) (config : VoiceConfig fl.F)
      → Listens (some (ok (capturing mode config)))
      → Listens (some (spawn_threads fl ds as_f32 wide site mode config))
  unfolding spawn_threads
  spawn_threads-Listens mode config h = elim (Result-cases site.spawn_capture) [
    | inr (x, e) ↦ rw (e, spawn_threads) tt
    | inl (u, e) ↦ elim (Result-cases site.spawn_pipeline) [
      | inr (x, f) ↦ rw (e, f, spawn_threads) tt
      | inl (v, f) ↦ rw (e, f, spawn_threads) h
    ]
  ]

  after_warmup-Listens :
      (mode : ActivationMode) (config : VoiceConfig fl.F)
      (warmed : Option (Result Text (Unit {0})) × Worker)
      → Listens (some (ok (capturing mode config)))
      → Listens (after_warmup fl ds as_f32 wide site mode config warmed).0
  unfolding after_warmup
  after_warmup-Listens mode config (none, w) h = tt
  after_warmup-Listens mode config (some (err e), w) h = tt
  after_warmup-Listens mode config (some (ok ready), w) h = spawn_threads-Listens mode config h

  abbrev Told : Option (Result Text (Started fl.F)) × Worker → Type 0
  Told (result, w) = Listens result

  start_mode-Listens :
      (mode : ActivationMode) (config : VoiceConfig fl.F) (w : Worker)
      → IsValid fl config
      → config.enabled ≡ true
      → mode ≡ resolved_mode config site.files site.config_dir
      → is_degraded mode ≡ false
      → Listens (start_mode fl ds as_f32 wide site mode config w).0
  unfolding start_mode
  start_mode-Listens mode config w valid enabled same working =
      elim (Result-cases (check_mode fl ds as_f32 wide site config mode)) [
        | inr (x, e) ↦ rw (e, start_mode) tt
        | inl (done, e) ↦
            let fit =
              check_mode-IsFit config mode done e working
                (λ auto. resolved_again config (sym same ∙ auto)) in
            rw (e, start_mode)
              (elim (Bool-cases
                (text_eq config.stt_warm_strategy (codes "startup") && site.transcriber_is_local)) [
                  | inl warm ↦
                      if-of_true (λ (r : Option (Result Text (Started fl.F)) × Worker). Listens r.0)
                        _ warm
                        (after_warmup-Listens mode config
                          (ensure_local_stt_ready site.machine site.base_url config w)
                          (valid, enabled, same, fit))
                  | inr cold ↦
                      if-of_false
                        (λ (r : Option (Result Text (Started fl.F)) × Worker). Listens r.0) _ cold
                        (spawn_threads-Listens mode config (valid, enabled, same, fit))
                ])
      ]

  start_with-Listens :
      (config : VoiceConfig fl.F) (w : Worker)
      → IsValid fl config
      → Listens (start_with fl ds as_f32 wide site config w).0
  unfolding start_with
  start_with-Listens config w valid = elim (Bool-cases config.enabled) [
    | inr off ↦ if-of_true Told _ (ap not off) tt
    | inl on ↦
        if-of_false Told _ (ap not on)
          (elim (Bool-cases (is_degraded (resolved_mode config site.files site.config_dir))) [
            | inl idle ↦ if-of_true Told _ idle tt
            | inr working ↦ if-of_false Told _ working (
                start_mode-Listens (resolved_mode config site.files site.config_dir) config w valid
                  on refl working)
          ])
  ]

  configured-IsValid :
      (config : VoiceConfig fl.F)
      → configured fl ds as_f32 wide site ≡ ok config
      → IsValid fl config
  unfolding configured
  configured-IsValid config e =
      let (loaded, f, e1) = >>=-eq-ok (map_err codes (load_or_create fl wide site.file).0) _ e in
      let (overlaid, g, e2) = >>=-eq-ok (apply_voice fl ds as_f32 site.overlay loaded) _ e1 in
      let (done, h, e3) = >>=-eq-ok (map_err codes (validate fl (migrate wide overlaid).0)) _ e2 in
      subst (IsValid fl) (ok-injective e3)
        ((validate_iff fl (migrate wide overlaid).0).0 (map_err-eq-ok codes _ h))

  -- The voice runtime listens only with a valid configuration that enables it, in the mode that this resolves
  -- to, which is not `degraded`: by the prefix in a transcript only if the transcriber is local, and by
  -- the wake word only if its file is there.
  pub start-Listens : (w : Worker) → Listens (start fl ds as_f32 wide site w).0
  unfolding start
  start-Listens w = elim (Result-cases (configured fl ds as_f32 wide site)) [
    | inr (x, e) ↦ rw (e, start) tt
    | inl (config, e) ↦ rw (e, start) (start_with-Listens config w (configured-IsValid config e))
  ]
