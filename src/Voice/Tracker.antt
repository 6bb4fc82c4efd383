-- ===== src/Voice/Tracker.antt =====
-- apps/kittd/src/voice.rs, `VoiceRuntimeTracker`: what the voice runtime reports of itself. Its atomics
-- and locks are plain fields: every operation touches them one after the other. Times are the
-- clock's milliseconds, which the operations take as an argument `now`.
pub mod Counts
use kitt_assistant.Base.{
  refl, ◌≡◌, ◌≢◌, ◌↔◌, ◌⊎◌, inl, inr, sym, ap, subst, ◌∙◌, Bool, true, false, not, ◌&&◌, ◌||◌,
  Option, none, some, List, [], ◌∷◌, ◌++◌, map, reverse, ℕ, zero, suc, ◌+◌, ◌-◌, ◌*◌, ◌/◌, ◌%◌, ◌^◌,
  ◌≤◌, ◌<◌, min, max, arith, String, Text, ltb, leb, ◌==◌, if◌then◌else◌, Result, ok, err, ◌>>=◌,
  ◌>>◌, refuse_if, ok_or, map_err, length, take, drop, all, any, All, codes, bytes, text_eq,
  text_eq_iff, is_empty, starts_with, Bool-cases, Option-cases, Result-cases, if-of_true,
  if-of_false, and-true, >>=-eq-ok,
}

pub data VoiceState : Type 0 where
  idle listening captured stt_warming transcribing thinking speaking cooldown : VoiceState
  recovering degraded : VoiceState

pub record VoiceTelemetry : Type 0 where
  pub state : VoiceState
  pub state_since_ms : ℕ
  pub activation_mode : Text
  pub stt_ready : Bool
  pub stt_busy : Bool
  pub last_wake_at_ms : Option ℕ
  pub last_transcript_ms : ℕ
  pub last_llm_ms : ℕ
  pub last_tts_ms : ℕ
  pub last_total_ms : ℕ
  pub stt_restarts : ℕ
  pub audio_chunks_dropped : ℕ
  pub events_dropped : ℕ
  pub utterances_dropped : ℕ
  pub last_error : Option Text

pub record VoiceRuntimeTracker : Type 0 where
  pub state : VoiceState
  pub state_since : ℕ
  pub activation_mode : Text
  pub last_wake_at : Option ℕ
  pub last_transcript_ms : ℕ
  pub last_llm_ms : ℕ
  pub last_tts_ms : ℕ
  pub last_total_ms : ℕ
  pub stt_restarts : ℕ
  pub audio_chunks_dropped : ℕ
  pub events_dropped : ℕ
  pub utterances_dropped : ℕ
  pub last_error : Option Text
  pub last_spoken : Option Text

-- `VoiceRuntimeTracker::new`
unfoldable pub new_tracker : Text → ℕ → VoiceRuntimeTracker
new_tracker mode now = record {
  state = idle;
  state_since = now;
  activation_mode = mode;
  last_wake_at = none;
  last_transcript_ms = 0;
  last_llm_ms = 0;
  last_tts_ms = 0;
  last_total_ms = 0;
  stt_restarts = 0;
  audio_chunks_dropped = 0;
  events_dropped = 0;
  utterances_dropped = 0;
  last_error = none;
  last_spoken = none;
}

-- `fetch_add(1)` wraps around at 64 bits.
abbrev pub fetch_add_one : ℕ → ℕ
fetch_add_one n = (n + 1) % 2 ^ 64

module _ (t : VoiceRuntimeTracker) where
  abbrev pub set_state : VoiceState → ℕ → VoiceRuntimeTracker
  set_state state now = record t { state = state; state_since = now }

  abbrev pub record_wake : ℕ → VoiceRuntimeTracker
  record_wake now = record t { last_wake_at = some now }

  abbrev pub record_transcript : ℕ → VoiceRuntimeTracker
  record_transcript ms = record t { last_transcript_ms = ms }

  abbrev pub record_llm : ℕ → VoiceRuntimeTracker
  record_llm ms = record t { last_llm_ms = ms }

  abbrev pub record_tts : ℕ → VoiceRuntimeTracker
  record_tts ms = record t { last_tts_ms = ms }

  abbrev pub record_total : ℕ → VoiceRuntimeTracker
  record_total ms = record t { last_total_ms = ms }

  abbrev pub inc_stt_restarts : VoiceRuntimeTracker
  inc_stt_restarts = record t { stt_restarts = fetch_add_one t.stt_restarts }

  abbrev pub inc_chunks_dropped : VoiceRuntimeTracker
  inc_chunks_dropped = record t { audio_chunks_dropped = fetch_add_one t.audio_chunks_dropped }

  abbrev pub inc_events_dropped : VoiceRuntimeTracker
  inc_events_dropped = record t { events_dropped = fetch_add_one t.events_dropped }

  abbrev pub inc_utterances_dropped : VoiceRuntimeTracker
  inc_utterances_dropped = record t { utterances_dropped = fetch_add_one t.utterances_dropped }

  abbrev pub set_error : Option Text → VoiceRuntimeTracker
  set_error e = record t { last_error = e }

  abbrev pub set_last_spoken : Text → VoiceRuntimeTracker
  set_last_spoken text = record t { last_spoken = some text }

  abbrev pub get_last_spoken : Option Text
  get_last_spoken = t.last_spoken

  -- `snapshot`: the elapsed times are casts to `u64`; the wake is told by the wall clock `wall`.
  unfoldable pub tracker_snapshot : Bool → Bool → (now wall : ℕ) → VoiceTelemetry
  tracker_snapshot stt_ready stt_busy now wall = record {
    state = t.state;
    state_since_ms = (now - t.state_since) % 2 ^ 64;
    activation_mode = t.activation_mode;
    stt_ready = stt_ready;
    stt_busy = stt_busy;
    last_wake_at_ms = elim t.last_wake_at [
      | none ↦ none
      | some at ↦ some ((wall - (now - at)) % 2 ^ 64)
    ];
    last_transcript_ms = t.last_transcript_ms;
    last_llm_ms = t.last_llm_ms;
    last_tts_ms = t.last_tts_ms;
    last_total_ms = t.last_total_ms;
    stt_restarts = t.stt_restarts;
    audio_chunks_dropped = t.audio_chunks_dropped;
    events_dropped = t.events_dropped;
    utterances_dropped = t.utterances_dropped;
    last_error = t.last_error;
  }
