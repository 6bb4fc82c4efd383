-- ===== src/Voice/Start.antt =====
-- apps/kittd/src/voice.rs, `start`: from the configuration to the threads of the voice runtime. What is
-- shown on the HUD and logged, and the removal of old recordings, are left out.
pub mod Fitness
mod Tests
use kitt_assistant.Base.{
  Float32, refl, ◌≡◌, ◌≢◌, ◌↔◌, ◌⊎◌, inl, inr, sym, ap, subst, ◌∙◌, Bool, true, false, not, ◌&&◌,
  ◌||◌, Option, none, some, List, [], ◌∷◌, ◌++◌, map, reverse, ℕ, zero, suc, ◌+◌, ◌-◌, ◌*◌, ◌/◌,
  ◌%◌, ◌^◌, ◌≤◌, ◌<◌, min, max, arith, String, Text, ltb, leb, ◌==◌, if◌then◌else◌, Result, ok, err,
  ◌>>=◌, ◌>>◌, refuse_if, ok_or, map_err, length, take, drop, all, any, All, codes, bytes, text_eq,
  text_eq_iff, is_empty, starts_with, Bool-cases, Option-cases, Result-cases, if-of_true,
  if-of_false, and-true, decimal, trim, to_ascii_lowercase, is_blank, join, ok_or-eq-ok, retain,
  strip_prefix, texts_eq, >>=-eq-ok,
}
use kitt_assistant.ControlCenter.Json.{
  Json, null, boolean, unsigned, negative, double, string, array, object, Items, no_items, item,
  Fields, no_fields, field, as_bool, as_u64, as_str, as_array, as_object, is_some, and_then,
  unwrap_or, get_field, insert, get, any_item, all_items, find, is_text, Doubles, as_f64,
}
use kitt_assistant.SettingsOverlay.{Overlay}
use kitt_assistant.SettingsOverlay.VoiceSettings.{apply_voice}
use kitt_assistant.Voice.Config.{VoiceConfig, ActivationMode}
use kitt_assistant.Voice.Config.Validation.{validate}
use kitt_assistant.Voice.Config.Loading.{
  VoiceFile, Files, load_or_create, migrate, resolved_mode, wakeword_path, names_file,
}
use kitt_assistant.Voice.Stt.{Machine, Worker}
use kitt_assistant.Voice.Stt.Polling.{ensure_local_stt_ready}

-- What a successful start comes to: nothing, a runtime that only reports that it is degraded, or the
-- threads of capture and pipeline in a mode.
pub data Started (F : Type 0) : Type 0 where
  disabled degraded_idle : Started F
  capturing : ActivationMode → VoiceConfig F → Started F

-- What `start` finds around it; `spawn_capture` and `spawn_pipeline` are what starting the threads gives.
pub record Site (F : Type 0) : Type 0 where
  pub file : VoiceFile F
  pub overlay : Overlay
  pub files : Files
  pub config_dir : Text
  pub transcriber_is_local : Bool
  pub machine : Machine
  pub base_url : Text
  pub spawn_capture : Result Text (Unit {0})
  pub spawn_pipeline : Result Text (Unit {0})

abbrev is_degraded : ActivationMode → Bool
is_degraded ActivationMode.degraded = true
is_degraded _ = false

module _ (fl : Float32) (ds : Doubles) (as_f32 : ds.F → fl.F) (wide : ℕ → Bool)
    (site : Site fl.F) where
  -- The configuration: loaded, overlaid, migrated and validated.
  unfoldable pub configured : Result Text (VoiceConfig fl.F)
  configured = do
    loaded ← map_err codes (load_or_create fl wide site.file).0
    overlaid ← apply_voice fl ds as_f32 site.overlay loaded
    valid ← map_err codes (validate fl (migrate wide overlaid).0)
    ok (migrate wide overlaid).0

  -- What each mode asks for.
  unfoldable pub check_mode : VoiceConfig fl.F → ActivationMode → Result Text (Unit {0})
  check_mode config ActivationMode.transcript_prefix = refuse_if (not site.transcriber_is_local) (
      codes
        "hands-free transcript_prefix activation requires a local STT provider; use a local wakeword model before allowing remote STT")
  check_mode config ActivationMode.wakeword = do
    path ←
        ok_or (wakeword_path config site.files site.config_dir)
          (codes "wakeword activation requires wakeword_model_path")
    refuse_if (not (site.files.is_file path)) (
        codes "wakeword model not found: "
        ++ path
        ++ codes "; use activation_mode=auto for local-STT fallback or create the .rpw model")
  check_mode config mode = ok tt

  -- The threads.
  unfoldable pub spawn_threads : ActivationMode → VoiceConfig fl.F → Result Text (Started fl.F)
  spawn_threads mode config = do
    capture ← map_err (λ e. codes "spawn voice capture: " ++ e) site.spawn_capture
    pipeline ← map_err (λ e. codes "spawn voice pipeline: " ++ e) site.spawn_pipeline
    ok (capturing mode config)

  -- After the wait for the worker, whose result is `none` if the fuel ran out.
  unfoldable pub after_warmup :
      ActivationMode
      → VoiceConfig fl.F
      → Option (Result Text (Unit {0})) × Worker
      → Option (Result Text (Started fl.F)) × Worker
  after_warmup mode config (none, w) = (none, w)
  after_warmup mode config (some (err e), w) = (some (err e), w)
  after_warmup mode config (some (ok ready), w) = (some (spawn_threads mode config), w)

  -- `start` in a mode that captures.
  unfoldable pub start_mode :
      ActivationMode → VoiceConfig fl.F → Worker → Option (Result Text (Started fl.F)) × Worker
  start_mode mode config w = elim (check_mode config mode) [
    | err e ↦ (some (err e), w)
    | ok _ ↦
        if text_eq config.stt_warm_strategy (codes "startup") && site.transcriber_is_local
        then after_warmup mode config (ensure_local_stt_ready site.machine site.base_url config w)
        else (some (spawn_threads mode config), w)
  ]

  -- `start` with a valid configuration.
  unfoldable pub start_with :
      VoiceConfig fl.F → Worker → Option (Result Text (Started fl.F)) × Worker
  start_with config w =
      if not config.enabled
      then (some (ok disabled), w)
      else let mode = resolved_mode config site.files site.config_dir in
        if is_degraded mode then (some (ok degraded_idle), w) else start_mode mode config w

  unfoldable pub start : Worker → Option (Result Text (Started fl.F)) × Worker
  start w = elim configured [ err e ↦ (some (err e), w) | ok config ↦ start_with config w ]
