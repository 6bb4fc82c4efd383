-- ===== src/Voice/Segmenter/Tests.antt =====
-- A segmenter at 1000 samples a second with short limits: speech, then silence, gives one utterance.
use kitt_assistant.Voice.Segmenter.{
  push_speaking, trim_front, finish, ms_to_samples, next_noise_floor, rms, is_voiced, push_idle,
  push, new_segmenter,
}
use kitt_assistant.Voice.Config.{default_config, VoiceConfig}
use kitt_assistant.Voice.Segmenter.Stream.{
  new_segmenter-IsSound, new_segmenter-utterances-Covers, samples_of, heard, Chunk, Covers,
  utterances,
}
use kitt_assistant.Voice.Segmenter.Keeping.{push-Pushes, Pushes}
use kitt_assistant.Base.{[], ◌≡◌, ◌∷◌, ℕ, List}
use kitt_assistant.Base.{refl}
use kitt_assistant.Voice.Samples.{thousandths}

abbrev short_limits : VoiceConfig ℕ
short_limits = record (default_config thousandths) {
  pre_roll_ms = 2;
  speech_start_ms = 2;
  min_speech_ms = 2;
  silence_ms = 2;
  max_utterance_ms = 9;
}

abbrev stream : List (Chunk ℕ)
stream =
    heard (0 ∷ 1 ∷ [])
    ∷ heard (900 ∷ 800 ∷ [])
    ∷ heard (700 ∷ [])
    ∷ heard (0 ∷ [])
    ∷ heard (0 ∷ [])
    ∷ []

one_utterance :
    utterances thousandths (new_segmenter thousandths 1000 short_limits) stream
    ≡ (900 ∷ 800 ∷ 700 ∷ 0 ∷ 0 ∷ []) ∷ []
unfolding utterances push new_segmenter push_idle is_voiced default_config rms next_noise_floor
    ms_to_samples finish trim_front push_speaking
one_utterance = refl

push-Pushes_example :
    Pushes
      (new_segmenter thousandths 1000 short_limits)
      (900 ∷ 800 ∷ [])
      (is_voiced thousandths
        (new_segmenter thousandths 1000 short_limits)
        (rms thousandths (900 ∷ 800 ∷ [])))
      (push thousandths (new_segmenter thousandths 1000 short_limits) (900 ∷ 800 ∷ []))
push-Pushes_example =
    push-Pushes thousandths (new_segmenter thousandths 1000 short_limits) 900 (800 ∷ [])
      (new_segmenter-IsSound thousandths 1000 short_limits)

new_segmenter-utterances-Covers_example :
    Covers
      (utterances thousandths (new_segmenter thousandths 1000 short_limits) stream)
      (samples_of stream)
new_segmenter-utterances-Covers_example =
    new_segmenter-utterances-Covers thousandths 1000 short_limits stream
