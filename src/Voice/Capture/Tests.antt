-- ===== src/Voice/Capture/Tests.antt =====
-- A microphone that hears one utterance, whose wake is detected twice.
use kitt_assistant.Base.{◌≤◌, refl, ◌≡◌, ◌≢◌, true, false, some, List, [], ◌∷◌, ℕ, arith, ok, codes}
use kitt_assistant.Voice.Samples.{thousandths}
use kitt_assistant.Voice.Config.{VoiceConfig, default_config}
use kitt_assistant.Voice.Tracker.{new_tracker}
use kitt_assistant.Voice.Segmenter.{
  push, new_segmenter, trim_front, extend_pre_roll, start_threshold, next_noise_floor, rms,
  is_voiced, push_idle, ms_to_samples,
}
use kitt_assistant.Voice.Pipeline.Commands.{CaptureEvent, wake_detected}
use kitt_assistant.Voice.Capture.{
  send_wake, detected, on_frame, potter_rounds, detect, mono, segment, on_chunk, Surroundings,
  Chunk, Capture, delivered, disconnected, start_capture, capture_rounds,
}
use kitt_assistant.Voice.Capture.Accounts.{no_files, IsAccounted, capture_rounds-IsAccounted}
use kitt_assistant.Voice.Capture.Pace.{IsPaced, capture_rounds-IsPaced}

abbrev limits : VoiceConfig ℕ
limits = record (default_config thousandths) {
  pre_roll_ms = 2;
  speech_start_ms = 2;
  min_speech_ms = 2;
  silence_ms = 2;
  max_utterance_ms = 9;
  wake_cooldown_ms = 5;
  command_timeout_ms = 1000;
}

abbrev room : Surroundings ℕ
room = record {
  takes = λ tick. 1;
  detects = λ tick frame. true;
  try_send = λ tick event. delivered;
  write_wav = λ tick samples. ok (codes "a.wav");
}

abbrev heard : List ℕ → Chunk ℕ
heard samples = record { samples = samples; failed = false; paused = false }

abbrev speech : List (Chunk ℕ)
speech =
    heard (0 ∷ 1 ∷ [])
    ∷ heard (900 ∷ 800 ∷ [])
    ∷ heard (700 ∷ [])
    ∷ heard (0 ∷ [])
    ∷ heard (0 ∷ [])
    ∷ []

abbrev begun : Capture ℕ
begun = start_capture thousandths limits room 1000 1000 (new_tracker (codes "wakeword") 1000)

-- A chunk of silence in which the detector finds the wake word.
woken_up :
    (capture_rounds thousandths limits room 1 (some 2) (heard (0 ∷ 1 ∷ []) ∷ []) begun).1.sent
    ≡ wake_detected 1 ∷ []
unfolding capture_rounds on_chunk segment mono detect potter_rounds start_capture on_frame detected
    send_wake push push_idle is_voiced default_config rms next_noise_floor ms_to_samples
    new_segmenter start_threshold extend_pre_roll trim_front
woken_up = refl

queue_taken : (tick : ℕ) (event : CaptureEvent) → room.try_send tick event ≢ disconnected
queue_taken tick event e = cc

begun-IsAccounted : IsAccounted begun
unfolding start_capture new_tracker
begun-IsAccounted = ([], no_files, refl)

woken_before : begun.last_wake ≤ begun.now
unfolding start_capture
woken_before = omega arith

capture_rounds-IsAccounted_example :
    IsAccounted (capture_rounds thousandths limits room 1 (some 2) speech begun).1
capture_rounds-IsAccounted_example =
    capture_rounds-IsAccounted thousandths limits room queue_taken 1 (some 2) speech begun
      begun-IsAccounted

capture_rounds-IsPaced_example :
    IsPaced thousandths limits room begun
      (capture_rounds thousandths limits room 1 (some 2) speech begun).1
capture_rounds-IsPaced_example =
    capture_rounds-IsPaced thousandths limits room 1 (some 2) speech begun woken_before
