-- ===== src/Voice/Capture.antt =====
-- apps/kittd/src/voice.rs, `capture_loop`: from the chunks of the microphone to the events of the pipeline.
-- What the outside answers (the clock, the wake-word detector, the file system and the room in the
-- queue of events) is a `Surroundings`, asked at a tick that every question advances. Times
-- are milliseconds.
pub mod Accounts
pub mod Pace
mod Tests
use kitt_assistant.Base.{
  Float32, refl, ◌≡◌, ◌≢◌, ◌↔◌, ◌⊎◌, inl, inr, sym, ap, subst, ◌∙◌, Bool, true, false, not, ◌&&◌,
  ◌||◌, Option, none, some, List, [], ◌∷◌, ◌++◌, map, reverse, ℕ, zero, suc, ◌+◌, ◌-◌, ◌*◌, ◌/◌,
  ◌%◌, ◌^◌, ◌≤◌, ◌<◌, min, max, arith, String, Text, ltb, leb, ◌==◌, if◌then◌else◌, Result, ok, err,
  ◌>>=◌, ◌>>◌, refuse_if, ok_or, map_err, length, take, drop, all, any, All, codes, bytes, text_eq,
  text_eq_iff, is_empty, starts_with, Bool-cases, Option-cases, Result-cases, if-of_true,
  if-of_false, and-true, decimal, trim, to_ascii_lowercase, is_blank, join, ok_or-eq-ok, retain,
  strip_prefix, texts_eq, >>=-eq-ok,
}
use kitt_assistant.Voice.Config.{VoiceConfig}
use kitt_assistant.Voice.Segmenter.{Segmenter, push, reset, new_segmenter}
use kitt_assistant.Voice.Tracker.{
  VoiceRuntimeTracker, record_wake, inc_events_dropped, inc_utterances_dropped, fetch_add_one,
}
use kitt_assistant.Voice.Pipeline.Commands.{CaptureEvent, wake_detected, utterance}

-- What `try_send` comes to.
pub data Sending : Type 0 where
  delivered full disconnected : Sending

-- `detects` is whether `process_samples` finds the wake word in a frame.
pub record Surroundings (F : Type 0) : Type 0 where
  pub takes : ℕ → ℕ
  pub detects : ℕ → List F → Bool
  pub try_send : ℕ → CaptureEvent → Sending
  pub write_wav : ℕ → List F → Result Text Text

-- A chunk of samples with what `error_signal` and `paused` say when it is received.
pub record Chunk (F : Type 0) : Type 0 where
  pub samples : List F
  pub failed : Bool
  pub paused : Bool

-- The variables of the loop; `sent` are the events that the queue took and `files` the files that were
-- written, newest first.
pub record Capture (F : Type 0) : Type 0 where
  pub tick : ℕ
  pub now : ℕ
  pub segmenter : Segmenter F
  pub potter_buffer : List F
  pub last_wake : ℕ
  pub activation_counter : ℕ
  pub active_activation : Option (ℕ × ℕ)
  pub tracker : VoiceRuntimeTracker
  pub sent : List CaptureEvent
  pub files : List Text

-- `chunks_exact`, of a size that is not 0; the fuel is the length of the list.
unfoldable pub chunks_exact {ℓ} : {A : Type ℓ} → ℕ → ℕ → List A → List (List A)
chunks_exact zero size xs = []
chunks_exact (suc fuel) size xs =
    let rest = chunks_exact fuel size (drop size xs) in
    if ltb (length xs) size then [] else take size xs ∷ rest

module _ (fl : Float32) where
  open fl use {F, lit, add, div, of_usize}

  sum : F → List F → F
  sum acc [] = acc
  sum acc (x ∷ xs) = sum (add acc x) xs

  -- `mono_buffer`: the means of the channels.
  unfoldable pub mono : ℕ → List F → List F
  unfolding sum chunks_exact
  mono channels chunk =
      if channels == 1
      then chunk
      else map (λ frame. div (sum (lit 0 1) frame) (of_usize channels))
          (chunks_exact (length chunk) channels chunk)

  module _ (config : VoiceConfig F) (o : Surroundings F) where
    abbrev pub asked : Capture F → Capture F
    asked c = record c { tick = suc c.tick; now = c.now + o.takes c.tick }

    -- The start of the loop; the clock began long enough before it.
    unfoldable pub start_capture : ℕ → ℕ → VoiceRuntimeTracker → Capture F
    unfolding new_segmenter
    start_capture sample_rate now tracker = record {
      tick = 0;
      now = now;
      segmenter = new_segmenter fl sample_rate config;
      potter_buffer = [];
      last_wake = now - (config.wake_cooldown_ms + 1);
      activation_counter = 0;
      active_activation = none;
      tracker = tracker;
      sent = [];
      files = [];
    }

    -- `try_send` of a wake.
    unfoldable pub send_wake : ℕ → Capture F → Capture F
    send_wake id c = elim (o.try_send c.tick (wake_detected id)) [
      | delivered ↦ record (asked c) { sent = wake_detected id ∷ c.sent }
      | full ↦ record (asked c) { tracker = inc_events_dropped c.tracker }
      | disconnected ↦ asked c
    ]

    -- A wake at the moment of the detection.
    abbrev pub activated : Capture F → Capture F
    activated c = record c {
      last_wake = c.now;
      activation_counter = fetch_add_one c.activation_counter;
      active_activation = some (fetch_add_one c.activation_counter, c.now);
      tracker = record_wake c.tracker c.now;
    }

    -- A detection: a wake, unless the cooldown after the last one is not over.
    unfoldable pub detected : Capture F → Capture F
    detected c =
        if leb config.wake_cooldown_ms (c.now - c.last_wake)
        then send_wake (fetch_add_one c.activation_counter) (activated c)
        else c

    -- One frame for the detector.
    unfoldable pub on_frame : List F → Capture F → Capture F
    on_frame frame c = if o.detects c.tick frame then detected (asked c) else asked c

    -- The loop over the frames in the detector's buffer.
    unfoldable pub potter_rounds : ℕ → ℕ → Capture F → Capture F
    potter_rounds zero frame_size c = c
    potter_rounds (suc fuel) frame_size c =
        let rest = potter_rounds fuel frame_size (
          on_frame (take frame_size c.potter_buffer)
            (record c { potter_buffer = drop frame_size c.potter_buffer })) in
        if leb frame_size (length c.potter_buffer) && ltb 0 frame_size then rest else c

    -- The detector's part of a chunk; `frame_size` is its, where the mode has one.
    unfoldable pub detect : Option ℕ → List F → Capture F → Capture F
    detect none chunk c = c
    detect (some frame_size) chunk c =
        let filled = record c { potter_buffer = c.potter_buffer ++ chunk } in
        potter_rounds (length filled.potter_buffer) frame_size filled

    -- The activation that an utterance answers.
    unfoldable pub activation_at : ℕ → Option (ℕ × ℕ) → Option ℕ
    activation_at now none = none
    activation_at now (some (id, wake_time)) =
        if leb (now - wake_time) config.command_timeout_ms then some id else none

    -- `try_send` of an utterance whose file has been written.
    unfoldable pub send_utterance : Option ℕ → Text → Capture F → Capture F
    send_utterance id path c = elim (o.try_send c.tick (utterance id path)) [
      | delivered ↦ record (asked c) { sent = utterance id path ∷ c.sent }
      | full ↦ record (asked c) { tracker = inc_utterances_dropped c.tracker }
      | disconnected ↦ asked c
    ]

    unfoldable pub on_utterance : List F → Capture F → Capture F
    on_utterance samples c =
        let id = activation_at c.now c.active_activation in
        elim (o.write_wav c.tick samples) [
          | err e ↦ asked c
          | ok path ↦ send_utterance id path (record (asked c) { files = path ∷ c.files })
        ]

    -- The segmenter's part of a chunk.
    unfoldable pub segment : List F → Capture F → Capture F
    unfolding push
    segment samples c =
        let (segmenter, found) = push fl c.segmenter samples in
        let pushed = record c { segmenter = segmenter } in
        elim found [ none ↦ pushed | some speech ↦ on_utterance speech (asked pushed) ]

    -- One chunk that is not the last.
    unfoldable pub on_chunk : ℕ → Option ℕ → Chunk F → Capture F → Capture F
    unfolding reset
    on_chunk channels frame_size chunk c =
        let received = asked c in
        if chunk.paused
        then record received { segmenter = reset c.segmenter }
        else segment (mono channels chunk.samples) (detect frame_size chunk.samples received)

    -- The loop: until the microphone fails or its chunks end.
    unfoldable pub capture_rounds :
        ℕ → Option ℕ → List (Chunk F) → Capture F → Result Text (Unit {0}) × Capture F
    capture_rounds channels frame_size [] c = (ok tt, c)
    capture_rounds channels frame_size (chunk ∷ chunks) c =
        let rest =
          capture_rounds channels frame_size chunks (on_chunk channels frame_size chunk c) in
        if chunk.failed then (err (codes "audio stream encountered an error"), c) else rest

-- `CAPTURE_RESTART_MIN` and `CAPTURE_RESTART_MAX`
abbrev pub restart_min : ℕ
restart_min = 1000

abbrev pub restart_max : ℕ
restart_max = 30000

-- How long the capture thread sleeps after a capture that ran for some time.
unfoldable pub next_retry : ℕ → ℕ → ℕ
next_retry elapsed retry = if leb 60000 elapsed then restart_min else min (retry * 2) restart_max

-- The sleeps after captures that ran for these times, oldest first.
unfoldable pub retries : List ℕ → ℕ → List ℕ
unfolding next_retry
retries [] retry = []
retries (elapsed ∷ rest) retry = next_retry elapsed retry ∷ retries rest (next_retry elapsed retry)
