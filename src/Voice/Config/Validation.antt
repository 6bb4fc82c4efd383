-- ===== src/Voice/Config/Validation.antt =====
-- apps/kittd/src/voice.rs, `VoiceConfig::validate`: the checks in their order, in three groups.
use kitt_assistant.Base.{
  ℕ, Bool, not, ◌&&◌, ◌||◌, String, Result, ◌>>◌, refuse_if, Float32, length, ltb, leb, ◌==◌,
  is_blank, is_empty, all, any,
}
use kitt_assistant.Voice.Config.{VoiceConfig}

module _ (fl : Float32) where
  open fl use {F, lit, le}

  -- `(lo..=hi).contains(&x)`, on floats and on integers.
  abbrev pub in_floats : F → F → F → Bool
  in_floats lo hi x = le lo x && le x hi

  abbrev pub in_span : ℕ → ℕ → ℕ → Bool
  in_span lo hi x = leb lo x && leb x hi

  -- `VoiceConfig::validate`, up to the wake phrases' sizes.
  unfoldable pub validate_texts : VoiceConfig F → Result String (Unit {0})
  validate_texts c = do
    refuse_if (is_blank c.locale) "voice locale cannot be empty"
    refuse_if (is_empty c.wake_phrases || all is_blank c.wake_phrases)
        "at least one wake phrase is required"
    refuse_if (not (in_floats (lit 1 10000) (lit 5 10) c.min_rms))
        "voice min_rms must be between 0.0001 and 0.5"
    refuse_if (not (in_floats (lit 11 10) (lit 20 1) c.noise_multiplier))
        "voice noise_multiplier must be between 1.1 and 20"
    refuse_if (ltb 16 (length c.wake_phrases) || any (λ p. ltb 64 (length p)) c.wake_phrases)
        "voice wake phrases exceed safe limits"

  -- The checks of wake-word detection and speech detection.
  unfoldable pub validate_detection : VoiceConfig F → Result String (Unit {0})
  validate_detection c = do
    refuse_if (ltb 2 c.wake_fuzzy_max_distance)
        "voice wake_fuzzy_max_distance must be between 0 and 2"
    refuse_if (ltb 10000 c.wake_cooldown_ms) "voice wake_cooldown_ms must be <= 10000"
    refuse_if (not (in_floats (lit 1 100) (lit 1 1) c.wake_threshold))
        "voice wake_threshold must be between 0.01 and 1.0"
    refuse_if (not (in_floats (lit 1 100) (lit 1 1) c.wake_avg_threshold))
        "voice wake_avg_threshold must be between 0.01 and 1.0"
    refuse_if (c.wake_min_scores == 0 || ltb 50 c.wake_min_scores)
        "voice wake_min_scores must be between 1 and 50"
    refuse_if (not (in_span 20 500 c.speech_start_ms))
        "voice speech_start_ms must be between 20 and 500"
    refuse_if (not (in_floats (lit 30 100) (lit 1 1) c.vad_release_ratio))
        "voice vad_release_ratio must be between 0.30 and 1.0"

  -- The checks of the time limits.
  unfoldable pub validate_times : VoiceConfig F → Result String (Unit {0})
  validate_times c = do
    refuse_if
        (c.min_speech_ms == 0
          || c.silence_ms == 0
          || leb c.max_utterance_ms c.min_speech_ms
          || c.command_timeout_ms == 0)
        "invalid voice timing configuration"
    refuse_if (not (in_span 100 30000 c.stt_connect_timeout_ms))
        "voice stt_connect_timeout_ms must be between 100 and 30000"
    refuse_if (not (in_span 1000 120000 c.stt_request_timeout_ms))
        "voice stt_request_timeout_ms must be between 1000 and 120000"
    refuse_if (not (in_span 1000 300000 c.stt_start_timeout_ms))
        "voice stt_start_timeout_ms must be between 1000 and 300000"
    refuse_if (not (in_span 1000 300000 c.voice_llm_timeout_ms))
        "voice voice_llm_timeout_ms must be between 1000 and 300000"
    refuse_if (not (in_span 1000 120000 c.tts_timeout_ms))
        "voice tts_timeout_ms must be between 1000 and 120000"

  unfoldable pub validate : VoiceConfig F → Result String (Unit {0})
  validate c = do validate_texts c; validate_detection c; validate_times c
