-- ===== src/Voice/Config.antt =====
-- apps/kittd/src/voice.rs: the voice configuration, its defaults, validation and migration.
pub mod Validation
pub mod Loading
pub mod Laws
mod Tests
use kitt_assistant.Base.{
  ℕ, ℤ, pos, negsuc, Bool, true, false, not, ◌&&◌, ◌||◌, Option, none, some, List, [], ◌∷◌, map,
  Text, String, Result, ok, err, ◌>>=◌, ◌>>◌, refuse_if, Float32, codes, length, ltb, leb, ◌==◌,
  is_blank, is_empty, all, any, texts_eq, if◌then◌else◌, trim,
}
use kitt_assistant.Voice.Wake.{normalize_token}

pub data ActivationMode : Type 0 where
  auto wakeword transcript_prefix degraded : ActivationMode

-- `DEFAULT_WAKE_PHRASES` and the two lists of earlier releases.
unfoldable pub default_wake_phrases : List Text
default_wake_phrases = map codes ("kitt" ∷ "ei kitt" ∷ "hey kitt" ∷ "olá kitt" ∷ [])

unfoldable pub legacy_control_center_wake_phrases : List Text
legacy_control_center_wake_phrases = map codes ("kitt" ∷ "kit" ∷ "hey kitt" ∷ "ei kitt" ∷ [])

unfoldable pub legacy_broad_wake_phrases : List Text
legacy_broad_wake_phrases = map codes (
    "kitt" ∷ "kit" ∷ "kite" ∷ "quit" ∷ "quitt" ∷ "hey kitt" ∷ "ei kitt" ∷ "ola kitt" ∷ "computador"
    ∷ [])

pub record VoiceConfig (F : Type 0) : Type 0 where
  pub enabled : Bool
  pub locale : Text
  pub activation_mode : ActivationMode
  pub allow_transcript_prefix_fallback : Bool
  pub wakeword_model_path : Option Text
  pub wake_phrases : List Text
  pub wake_fuzzy_enabled : Bool
  pub wake_fuzzy_max_distance : ℕ
  pub wake_cooldown_ms : ℕ
  pub wake_threshold : F
  pub wake_avg_threshold : F
  pub wake_min_scores : ℕ
  pub wake_eager : Bool
  pub wake_vad_mode : Text
  pub wake_gain_normalizer : Bool
  pub wake_gain_ref : Option F
  pub min_rms : F
  pub noise_multiplier : F
  pub speech_start_ms : ℕ
  pub vad_release_ratio : F
  pub pre_roll_ms : ℕ
  pub min_speech_ms : ℕ
  pub silence_ms : ℕ
  pub max_utterance_ms : ℕ
  pub command_timeout_ms : ℕ
  pub stt_autostart : Bool
  pub stt_worker_model : Text
  pub stt_connect_timeout_ms : ℕ
  pub stt_request_timeout_ms : ℕ
  pub stt_start_timeout_ms : ℕ
  pub stt_warm_strategy : Text
  pub stt_idle_shutdown_seconds : ℕ
  pub stt_device : Text
  pub stt_compute_type : Text
  pub stt_cpu_threads : ℕ
  pub stt_num_workers : ℕ
  pub stt_beam_size : ℕ
  pub stt_local_files_only : Bool
  pub stt_vad_filter : Bool
  pub stt_vad_min_silence_ms : ℕ
  pub stt_vad_speech_pad_ms : ℕ
  pub stt_no_speech_threshold : F
  pub voice_llm_timeout_ms : ℕ
  pub tts_enabled : Bool
  pub tts_backend : Text
  pub tts_voice_name : Option Text
  pub tts_prefer_male : Bool
  pub tts_rate : ℤ
  pub tts_pitch : ℤ
  pub tts_volume : ℕ
  pub tts_timeout_ms : ℕ
  pub tts_piper_base_url : Option Text
  pub tts_piper_voice : Option Text
  pub tts_piper_speaker : Option ℤ
  pub tts_piper_length_scale : Option F
  pub tts_piper_noise_scale : Option F
  pub tts_piper_noise_w_scale : Option F
  pub tts_fallback_to_system : Bool
  pub echo_guard_ms : ℕ

-- `VoiceConfig::default`
unfoldable pub default_config : (fl : Float32) → VoiceConfig fl.F
default_config fl = record {
  enabled = true;
  locale = codes "pt-BR";
  activation_mode = ActivationMode.auto;
  allow_transcript_prefix_fallback = false;
  wakeword_model_path = some (codes "wakewords/kitt.rpw");
  wake_phrases = default_wake_phrases;
  wake_fuzzy_enabled = true;
  wake_fuzzy_max_distance = 1;
  wake_cooldown_ms = 1200;
  wake_threshold = fl.lit 5 10;
  wake_avg_threshold = fl.lit 2 10;
  wake_min_scores = 5;
  wake_eager = false;
  wake_vad_mode = codes "off";
  wake_gain_normalizer = false;
  wake_gain_ref = none;
  min_rms = fl.lit 8 1000;
  noise_multiplier = fl.lit 22 10;
  speech_start_ms = 80;
  vad_release_ratio = fl.lit 65 100;
  pre_roll_ms = 350;
  min_speech_ms = 180;
  silence_ms = 500;
  max_utterance_ms = 12000;
  command_timeout_ms = 8000;
  stt_autostart = true;
  stt_worker_model = [];
  stt_connect_timeout_ms = 1000;
  stt_request_timeout_ms = 15000;
  stt_start_timeout_ms = 30000;
  stt_warm_strategy = codes "on_wake";
  stt_idle_shutdown_seconds = 300;
  stt_device = codes "auto";
  stt_compute_type = codes "default";
  stt_cpu_threads = 0;
  stt_num_workers = 1;
  stt_beam_size = 2;
  stt_local_files_only = true;
  stt_vad_filter = true;
  stt_vad_min_silence_ms = 300;
  stt_vad_speech_pad_ms = 220;
  stt_no_speech_threshold = fl.lit 6 10;
  voice_llm_timeout_ms = 30000;
  tts_enabled = true;
  tts_backend = codes "system";
  tts_voice_name = none;
  tts_prefer_male = true;
  tts_rate = negsuc 0;
  tts_pitch = negsuc 1;
  tts_volume = 95;
  tts_timeout_ms = 30000;
  tts_piper_base_url = some (codes "http://127.0.0.1:5000");
  tts_piper_voice = none;
  tts_piper_speaker = none;
  tts_piper_length_scale = none;
  tts_piper_noise_scale = none;
  tts_piper_noise_w_scale = none;
  tts_fallback_to_system = true;
  echo_guard_ms = 350;
}
