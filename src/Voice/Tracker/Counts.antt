-- ===== src/Voice/Tracker/Counts.antt =====
-- What a run of operations leaves in the tracker's counters.
use kitt_assistant.Voice.Tracker.{
  set_last_spoken, set_error, inc_utterances_dropped, inc_events_dropped, inc_chunks_dropped,
  inc_stt_restarts, record_total, record_tts, record_llm, record_transcript, record_wake, set_state,
  new_tracker, fetch_add_one, VoiceRuntimeTracker, VoiceState, tracker_snapshot,
}
use kitt_assistant.Base.{
  refl, ◌≡◌, Bool, true, false, Option, List, [], ◌∷◌, ℕ, suc, ◌+◌, ◌%◌, ◌^◌, ◌<◌, arith, Text,
  if◌then◌else◌,
}

-- An operation with its arguments.
pub data Update : Type 0 where
  state_set : VoiceState → ℕ → Update
  wake transcript llm tts total : ℕ → Update
  stt_restart chunk_drop event_drop utterance_drop : Update
  error_set : Option Text → Update
  spoken_set : Text → Update

abbrev pub step : Update → VoiceRuntimeTracker → VoiceRuntimeTracker
step (state_set s now) t = set_state t s now
step (wake now) t = record_wake t now
step (transcript ms) t = record_transcript t ms
step (llm ms) t = record_llm t ms
step (tts ms) t = record_tts t ms
step (total ms) t = record_total t ms
step stt_restart t = inc_stt_restarts t
step chunk_drop t = inc_chunks_dropped t
step event_drop t = inc_events_dropped t
step utterance_drop t = inc_utterances_dropped t
step (error_set e) t = set_error t e
step (spoken_set s) t = set_last_spoken t s

unfoldable pub run : List Update → VoiceRuntimeTracker → VoiceRuntimeTracker
run [] t = t
run (u ∷ us) t = run us (step u t)

-- How often each counter was raised.
unfoldable pub count : (Update → Bool) → List Update → ℕ
count p [] = 0
count p (u ∷ us) = let rest = count p us in if p u then suc rest else rest

abbrev pub is_restart : Update → Bool
is_restart stt_restart = true
is_restart _ = false

abbrev pub is_chunk_drop : Update → Bool
is_chunk_drop chunk_drop = true
is_chunk_drop _ = false

abbrev pub is_event_drop : Update → Bool
is_event_drop event_drop = true
is_event_drop _ = false

abbrev pub is_utterance_drop : Update → Bool
is_utterance_drop utterance_drop = true
is_utterance_drop _ = false

-- A counter that one kind of operation raises and the others leave.
run-count :
    (counter : VoiceRuntimeTracker → ℕ) (raises : Update → Bool)
    → ((u : Update) (t : VoiceRuntimeTracker)
        → counter (step u t) ≡ (if raises u then fetch_add_one (counter t) else counter t))
    → (us : List Update) (t : VoiceRuntimeTracker) → counter t < 2 ^ 64
    → counter (run us t) ≡ (counter t + count raises us) % 2 ^ 64
unfolding run count
run-count counter raises law [] t h = omega arith
run-count counter raises law (u ∷ us) t h =
    ground (arith, law u t, run-count counter raises law us (step u t) (ground (arith, law u t)))

run-count_from_zero :
    (counter : VoiceRuntimeTracker → ℕ) (raises : Update → Bool)
    → ((u : Update) (t : VoiceRuntimeTracker)
        → counter (step u t) ≡ (if raises u then fetch_add_one (counter t) else counter t))
    → (us : List Update) (t : VoiceRuntimeTracker) → counter t ≡ 0
    → counter (run us t) ≡ count raises us % 2 ^ 64
run-count_from_zero counter raises law us t zeroed =
    omega (arith, zeroed, run-count counter raises law us t (omega (arith, zeroed)))

step_counters :
    (u : Update) (t : VoiceRuntimeTracker)
    → ((step u t).stt_restarts
        ≡ (if is_restart u then fetch_add_one t.stt_restarts else t.stt_restarts))
      × ((step u t).audio_chunks_dropped ≡ (
          if is_chunk_drop u then fetch_add_one t.audio_chunks_dropped else t.audio_chunks_dropped))
      × ((step u t).events_dropped
          ≡ (if is_event_drop u then fetch_add_one t.events_dropped else t.events_dropped))
      × ((step u t).utterances_dropped ≡ (
          if is_utterance_drop u then fetch_add_one t.utterances_dropped else t.utterances_dropped))
step_counters (state_set s now) t = (refl, refl, refl, refl)
step_counters (wake now) t = (refl, refl, refl, refl)
step_counters (transcript ms) t = (refl, refl, refl, refl)
step_counters (llm ms) t = (refl, refl, refl, refl)
step_counters (tts ms) t = (refl, refl, refl, refl)
step_counters (total ms) t = (refl, refl, refl, refl)
step_counters stt_restart t = (refl, refl, refl, refl)
step_counters chunk_drop t = (refl, refl, refl, refl)
step_counters event_drop t = (refl, refl, refl, refl)
step_counters utterance_drop t = (refl, refl, refl, refl)
step_counters (error_set e) t = (refl, refl, refl, refl)
step_counters (spoken_set s) t = (refl, refl, refl, refl)

-- After any operations on a new tracker, a snapshot reports how often each of the four counters was raised,
-- modulo 2 ^ 64.
run-tracker_snapshot :
    (us : List Update) (mode : Text) (start now wall : ℕ) (ready busy : Bool)
    → let shown = tracker_snapshot (run us (new_tracker mode start)) ready busy now wall in
      (shown.stt_restarts ≡ count is_restart us % 2 ^ 64)
      × (shown.audio_chunks_dropped ≡ count is_chunk_drop us % 2 ^ 64)
      × (shown.events_dropped ≡ count is_event_drop us % 2 ^ 64)
      × (shown.utterances_dropped ≡ count is_utterance_drop us % 2 ^ 64)
unfolding tracker_snapshot new_tracker
run-tracker_snapshot us mode start now wall ready busy =
    let t = new_tracker mode start in
    (
      run-count_from_zero (λ r. r.stt_restarts) is_restart (λ u r. (step_counters u r).0) us t refl,
      run-count_from_zero (λ r. r.audio_chunks_dropped) is_chunk_drop (λ u r. (step_counters u r).1)
          us t refl,
      run-count_from_zero (λ r. r.events_dropped) is_event_drop (λ u r. (step_counters u r).2) us t
          refl,
      run-count_from_zero (λ r. r.utterances_dropped) is_utterance_drop
          (λ u r. (step_counters u r).3) us t refl,
    )
