-- ===== src/SettingsOverlay/VoiceSettings.antt =====
-- `apply_voice`: the overrides of the voice configuration. `as_f32` is the machine's cast of a double.
use kitt_assistant.Base.{
  negsuc, pos, Float32, ℤ, Option, none, some, List, [], ◌∷◌, ℕ, ◌-◌, ◌%◌, ◌^◌, Text, ltb,
  if◌then◌else◌, Result, ok, err, ◌>>=◌, codes, text_eq, is_empty,
}
use kitt_assistant.ControlCenter.Json.{
  Items, no_items, item, Fields, as_str, as_array, and_then, get_field, Doubles, as_f64,
}
use kitt_assistant.SettingsOverlay.{
  Overlay, section, text_at, u64_at, set_string, set_u64, set_bool, set_optional_string, set_i32,
  set_u8, as_i64,
}
use kitt_assistant.Voice.Config.{VoiceConfig, ActivationMode}

-- The match on the text of `activation_mode`.
unfoldable pub set_mode : Fields → ActivationMode → Result Text ActivationMode
set_mode v target = elim (text_at v (codes "activation_mode")) [
  | none ↦ ok target
  | some x ↦
      if text_eq x (codes "auto")
      then ok ActivationMode.auto
      else if text_eq x (codes "wakeword")
      then ok ActivationMode.wakeword
      else if text_eq x (codes "transcript_prefix")
      then ok ActivationMode.transcript_prefix
      else err (codes "invalid assistant.voice.activation_mode")
]

unfoldable pub set_fuzzy : Fields → ℕ → Result Text ℕ
set_fuzzy v target = elim (u64_at v (codes "wake_fuzzy_max_distance")) [
  | none ↦ ok target
  | some x ↦ if ltb x 256 then ok x else err (codes "wake_fuzzy_max_distance out of range")
]

-- The texts among the items of an array.
unfoldable pub texts_of : Items → List Text
texts_of no_items = []
texts_of (item x xs) = elim (as_str x) [ none ↦ texts_of xs | some s ↦ s ∷ texts_of xs ]

unfoldable pub set_phrases : Fields → List Text → List Text
set_phrases v target = elim (and_then (get_field (codes "wake_phrases") v) as_array) [
  | none ↦ target
  | some items ↦ if is_empty (texts_of items) then target else texts_of items
]

-- `x as i32`, for an `i64`.
unfoldable pub wrap_i32 : ℤ → ℤ
wrap_i32 (pos n) = let r = n % 2 ^ 32 in if ltb r (2 ^ 31) then pos r else negsuc (2 ^ 32 - 1 - r)
wrap_i32 (negsuc n) =
    let r = n % 2 ^ 32 in if ltb r (2 ^ 31) then negsuc r else pos (2 ^ 32 - 1 - r)

unfoldable pub set_speaker : Fields → Option ℤ → Option ℤ
set_speaker v target = elim (and_then (get_field (codes "tts_piper_speaker") v) as_i64) [
  | none ↦ target
  | some x ↦ some (wrap_i32 x)
]

module _ (fl : Float32) (ds : Doubles) (as_f32 : ds.F → fl.F) where
  unfoldable pub set_f32 : Fields → Text → fl.F → fl.F
  set_f32 v key target = elim (and_then (get_field key v) (as_f64 ds)) [
    | none ↦ target
    | some x ↦ as_f32 x
  ]

  unfoldable pub set_optional_f32 : Fields → Text → Option fl.F → Option fl.F
  set_optional_f32 v key target = elim (and_then (get_field key v) (as_f64 ds)) [
    | none ↦ target
    | some x ↦ some (as_f32 x)
  ]

  -- The fields that `apply_voice` sets without a check, around those that it checks.
  unfoldable pub set_fields :
      Fields
      → VoiceConfig fl.F
      → ActivationMode
      → (distance : ℕ) (rate pitch : ℤ) (volume : ℕ) → VoiceConfig fl.F
  set_fields v config mode distance rate pitch volume = record {
    enabled = set_bool v (codes "enabled") config.enabled;
    locale = set_string v (codes "locale") config.locale;
    activation_mode = mode;
    allow_transcript_prefix_fallback =
        set_bool v (codes "allow_transcript_prefix_fallback")
          config.allow_transcript_prefix_fallback;
    wakeword_model_path =
        set_optional_string v (codes "wakeword_model_path") config.wakeword_model_path;
    wake_phrases = set_phrases v config.wake_phrases;
    wake_fuzzy_enabled = set_bool v (codes "wake_fuzzy_enabled") config.wake_fuzzy_enabled;
    wake_fuzzy_max_distance = distance;
    wake_cooldown_ms = set_u64 v (codes "wake_cooldown_ms") config.wake_cooldown_ms;
    wake_threshold = set_f32 v (codes "wake_threshold") config.wake_threshold;
    wake_avg_threshold = set_f32 v (codes "wake_avg_threshold") config.wake_avg_threshold;
    wake_min_scores = set_u64 v (codes "wake_min_scores") config.wake_min_scores;
    wake_eager = set_bool v (codes "wake_eager") config.wake_eager;
    wake_vad_mode = set_string v (codes "wake_vad_mode") config.wake_vad_mode;
    wake_gain_normalizer = set_bool v (codes "wake_gain_normalizer") config.wake_gain_normalizer;
    wake_gain_ref = set_optional_f32 v (codes "wake_gain_ref") config.wake_gain_ref;
    min_rms = set_f32 v (codes "min_rms") config.min_rms;
    noise_multiplier = set_f32 v (codes "noise_multiplier") config.noise_multiplier;
    speech_start_ms = set_u64 v (codes "speech_start_ms") config.speech_start_ms;
    vad_release_ratio = set_f32 v (codes "vad_release_ratio") config.vad_release_ratio;
    pre_roll_ms = set_u64 v (codes "pre_roll_ms") config.pre_roll_ms;
    min_speech_ms = set_u64 v (codes "min_speech_ms") config.min_speech_ms;
    silence_ms = set_u64 v (codes "silence_ms") config.silence_ms;
    max_utterance_ms = set_u64 v (codes "max_utterance_ms") config.max_utterance_ms;
    command_timeout_ms = set_u64 v (codes "command_timeout_ms") config.command_timeout_ms;
    stt_autostart = set_bool v (codes "stt_autostart") config.stt_autostart;
    stt_worker_model = set_string v (codes "stt_worker_model") config.stt_worker_model;
    stt_connect_timeout_ms =
        set_u64 v (codes "stt_connect_timeout_ms") config.stt_connect_timeout_ms;
    stt_request_timeout_ms =
        set_u64 v (codes "stt_request_timeout_ms") config.stt_request_timeout_ms;
    stt_start_timeout_ms = set_u64 v (codes "stt_start_timeout_ms") config.stt_start_timeout_ms;
    stt_warm_strategy = set_string v (codes "stt_warm_strategy") config.stt_warm_strategy;
    stt_idle_shutdown_seconds =
        set_u64 v (codes "stt_idle_shutdown_seconds") config.stt_idle_shutdown_seconds;
    stt_device = set_string v (codes "stt_device") config.stt_device;
    stt_compute_type = set_string v (codes "stt_compute_type") config.stt_compute_type;
    stt_cpu_threads = set_u64 v (codes "stt_cpu_threads") config.stt_cpu_threads;
    stt_num_workers = set_u64 v (codes "stt_num_workers") config.stt_num_workers;
    stt_beam_size = set_u64 v (codes "stt_beam_size") config.stt_beam_size;
    stt_local_files_only = set_bool v (codes "stt_local_files_only") config.stt_local_files_only;
    stt_vad_filter = set_bool v (codes "stt_vad_filter") config.stt_vad_filter;
    stt_vad_min_silence_ms =
        set_u64 v (codes "stt_vad_min_silence_ms") config.stt_vad_min_silence_ms;
    stt_vad_speech_pad_ms = set_u64 v (codes "stt_vad_speech_pad_ms") config.stt_vad_speech_pad_ms;
    stt_no_speech_threshold =
        set_f32 v (codes "stt_no_speech_threshold") config.stt_no_speech_threshold;
    voice_llm_timeout_ms = set_u64 v (codes "voice_llm_timeout_ms") config.voice_llm_timeout_ms;
    tts_enabled = set_bool v (codes "tts_enabled") config.tts_enabled;
    tts_backend = set_string v (codes "tts_backend") config.tts_backend;
    tts_voice_name = set_optional_string v (codes "tts_voice_name") config.tts_voice_name;
    tts_prefer_male = set_bool v (codes "tts_prefer_male") config.tts_prefer_male;
    tts_rate = rate;
    tts_pitch = pitch;
    tts_volume = volume;
    tts_timeout_ms = set_u64 v (codes "tts_timeout_ms") config.tts_timeout_ms;
    tts_piper_base_url =
        set_optional_string v (codes "tts_piper_base_url") config.tts_piper_base_url;
    tts_piper_voice = set_optional_string v (codes "tts_piper_voice") config.tts_piper_voice;
    tts_piper_speaker = set_speaker v config.tts_piper_speaker;
    tts_piper_length_scale =
        set_optional_f32 v (codes "tts_piper_length_scale") config.tts_piper_length_scale;
    tts_piper_noise_scale =
        set_optional_f32 v (codes "tts_piper_noise_scale") config.tts_piper_noise_scale;
    tts_piper_noise_w_scale =
        set_optional_f32 v (codes "tts_piper_noise_w_scale") config.tts_piper_noise_w_scale;
    tts_fallback_to_system =
        set_bool v (codes "tts_fallback_to_system") config.tts_fallback_to_system;
    echo_guard_ms = set_u64 v (codes "echo_guard_ms") config.echo_guard_ms;
  }

  -- `apply_voice` from its section on.
  unfoldable pub overlaid_voice : Fields → VoiceConfig fl.F → Result Text (VoiceConfig fl.F)
  overlaid_voice v config = do
    mode ← set_mode v config.activation_mode
    distance ← set_fuzzy v config.wake_fuzzy_max_distance
    rate ← set_i32 v (codes "tts_rate") config.tts_rate
    pitch ← set_i32 v (codes "tts_pitch") config.tts_pitch
    volume ← set_u8 v (codes "tts_volume") config.tts_volume
    ok (set_fields v config mode distance rate pitch volume)

  unfoldable pub apply_voice : Overlay → VoiceConfig fl.F → Result Text (VoiceConfig fl.F)
  apply_voice o config = do v ← section o (codes "assistant.voice"); overlaid_voice v config
