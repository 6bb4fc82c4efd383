-- ===== src/Voice/Pipeline/Tests.antt =====
-- A wake, the question that answers it, and one that does not, in wake-word mode.
use kitt_assistant.Domain.Routing.{has_heavy_marker, choose}
use kitt_assistant.Voice.Wake.{
  init, is_excluded, last_text, is_cedilla, is_accented_u, is_accented_o, is_accented_i,
  is_accented_e, is_accented_a, fold_char, is_alphanumeric, normalize_token, normalize_tokens,
  wake_token_matches, wake_phrase_matches, accepts, strip_first,
}
use kitt_assistant.Voice.Stt.Processes.{IsAccounted}
use kitt_assistant.Voice.Stt.{not_found, no_answer, Machine, page}
use kitt_assistant.Url.{Url}
use kitt_assistant.ControlCenter.Json.{boolean, object, no_fields, field, get_field}
use kitt_assistant.Voice.Tracker.{new_tracker}
use kitt_assistant.Voice.Pipeline.Loop.{
  handle_wake, round, handle_event, pipeline_loop, handle_utterance, matcher_of,
}
use kitt_assistant.Daemon.Runtime.{answered, run_ask, Runtime}
use kitt_assistant.Voice.Pipeline.Commands.{
  spoken_answer, speak_answer, answer_told, execute, run_instant, run_command, utterance,
  wake_detected, answers, CaptureEvent,
}
use kitt_assistant.Voice.Pipeline.{
  detect_instant_command, show_listening, addressed, command_of, transcript_heard,
  transcribe_utterance, ready_stt, Pipeline,
}
use kitt_assistant.Voice.Config.{default_wake_phrases, ActivationMode, default_config}
use kitt_assistant.Voice.Config.Loading.{nonempty_owned, resolved_stt_worker_model}
use kitt_assistant.Voice.Stt.Polling.{
  after_unreachable, poll, start_and_poll, ensure_local_stt_ready,
}
use kitt_assistant.Url.{trim_end_matches, eq_ignore_ascii_case, is_loopback_host}
use kitt_assistant.Voice.Stt.{
  start_worker, judge_body, judge, owned_stt_worker_exit, launch, inspect, local_worker_endpoint,
  spawn_local_stt_worker, probe_local_stt, stop_owned_stt_worker,
}
use kitt_assistant.Voice.Pipeline.{stt_checked, show_voice_error}
use kitt_assistant.Base.{
  inl, ltb, ◌==◌, if◌then◌else◌, count_lines, is_whitespace, split_whitespace,
  is_ascii_alphanumeric, refl, ◌≡◌, true, false, none, some, List, [], ◌∷◌, ℕ, Text, ok, err, codes,
  bytes, text_eq, trim, to_ascii_lowercase, join, texts_eq,
}
use kitt_assistant.Voice.Pipeline.Guards.{Closed, recorded, pipeline_loop-Closed}
use kitt_assistant.Voice.Pipeline.Questions.{Asks, last_wake, questions, pipeline_loop-Asks}
use kitt_assistant.Voice.Pipeline.Settling.{IsSettled, pipeline_loop-IsSettled}
use kitt_assistant.Voice.Pipeline.Workers.{pipeline_loop-IsAccounted}
use kitt_assistant.Voice.Wake.{strip_wake, new_matcher}
use kitt_assistant.Voice.Samples.{thousandths, no_wide}
use kitt_assistant.Domain.{TranscriptionResult, default_policy, AssistantError}
use kitt_assistant.Application.{speak, complete_with, ask, AssistantService, transcribe_rich}

abbrev heard : TranscriptionResult ℕ
heard = record {
  text = codes " bom dia ";
  language = none;
  language_probability = none;
  avg_logprob = none;
  duration_ms = 0;
}

-- A service that hears one question, and answers it.
abbrev service : AssistantService Text ℕ
service = record {
  fast_model = record {
    complete = λ h r. ok (record { text = codes "Bom dia." });
    is_local = true;
  };
  heavy_model = record { complete = λ h r. err (AssistantError.model "offline"); is_local = true };
  transcriber = record { transcribe_rich = λ h p l q. ok heard; is_local = false };
  speaker = record { speak = λ h t l. ok tt };
  memory = record {
    recall_for_model = λ h q b. ok [];
    remember_episode = λ h t. ok tt;
    remember_explicit = λ h t. ok t;
  };
  routing = default_policy;
}

abbrev runtime : Runtime Text ℕ
runtime = record { service = service; content = λ r. r; hud_ttl_ms = 8000 }

abbrev no_processes : Machine
no_processes = record {
  health = λ t u. no_answer (codes "refused");
  from_slice = λ b. err (codes "empty");
  spawn = λ t program args. err not_found;
  try_wait = λ t pid. ok none;
  takes = λ t. 5;
  candidates = [];
  whisper_model = none;
  kitt_whisper_model = none;
  net = record { parse = λ t. err (codes "no URL"); is_loopback_ip = λ h. false };
}

abbrev resting : Pipeline
resting = record {
  awaiting = none;
  tracker = new_tracker (codes "wakeword") 0;
  worker = record { tick = 0; now = 0; child = none; started = []; ended = [] };
  world = record { calls = []; log = [] };
}

abbrev morning : List CaptureEvent
morning = wake_detected 7 ∷ utterance (some 7) (codes "a.wav") ∷ []

abbrev after_morning : Pipeline
after_morning =
    pipeline_loop runtime no_processes [] (default_config thousandths) no_wide
      ActivationMode.wakeword morning resting

pipeline_loop-Closed_example : Closed (recorded morning []) after_morning.world.log
pipeline_loop-Closed_example =
    pipeline_loop-Closed runtime no_processes [] (default_config thousandths) no_wide
      ActivationMode.wakeword morning [] resting (refl, tt, refl)

pipeline_loop-Asks_example :
    Asks runtime no_processes []
      (default_config thousandths)
      no_wide
      ActivationMode.wakeword
      (answers (last_wake none morning) (some 7))
      (codes "b.wav")
      after_morning
      (handle_utterance runtime no_processes []
        (default_config thousandths)
        no_wide
        ActivationMode.wakeword
        (some 7)
        (codes "b.wav")
        after_morning)
pipeline_loop-Asks_example =
    pipeline_loop-Asks runtime no_processes [] (default_config thousandths) no_wide
      ActivationMode.wakeword morning resting (some 7) (codes "b.wav")

pipeline_loop-IsSettled_example : IsSettled ActivationMode.wakeword after_morning.tracker.state
unfolding new_tracker
pipeline_loop-IsSettled_example =
    pipeline_loop-IsSettled runtime no_processes [] (default_config thousandths) no_wide
      ActivationMode.wakeword morning resting tt

abbrev url : Url
url = record {
  scheme = codes "http";
  username = [];
  password = none;
  host_str = some (codes "localhost");
  port_or_known_default = some 8000;
  path = codes "/v1";
  query = none;
  fragment = none;
}

-- Its first worker has exited; the next one becomes ready at the second probe.
abbrev restarts : Machine
restarts = record {
  health = λ t u. if ltb t 4 then no_answer (codes "refused") else page true (codes "200 OK") [];
  from_slice = λ b. ok (object (field (codes "ready") (boolean true) no_fields));
  spawn = λ t program args. ok 77;
  try_wait = λ t pid. ok (if pid == 5 then some (codes "exit status: 1") else none);
  takes = λ t. 3;
  candidates = (codes "kitt-stt-worker", []) ∷ [];
  whisper_model = some (codes "base");
  kitt_whisper_model = none;
  net = record { parse = λ t. ok url; is_loopback_ip = λ h. false };
}

abbrev base : Text
base = codes "http://localhost:8000/v1"

-- The transcription fails, so that the worker is stopped after it.
abbrev local_runtime : Runtime Text ℕ
local_runtime = record runtime {
  service = record service {
    transcriber = record {
      transcribe_rich = λ h p l q. err (AssistantError.transcription "no speech");
      is_local = true;
    };
  };
}

abbrev with_worker : Pipeline
with_worker = record resting {
  worker = record { tick = 0; now = 0; child = some 5; started = 5 ∷ []; ended = [] };
}

abbrev after_restart : Pipeline
after_restart =
    pipeline_loop local_runtime restarts base (default_config thousandths) no_wide
      ActivationMode.wakeword morning with_worker

-- The first worker is reaped, the second one started and killed.
two_started : after_restart.worker.started ≡ 77 ∷ 5 ∷ []
unfolding pipeline_loop handle_event handle_utterance round ready_stt transcribe_utterance
    transcript_heard transcribe_rich trim command_of addressed answers handle_wake show_listening
    run_command strip_wake strip_first accepts wake_phrase_matches wake_token_matches
    normalize_tokens normalize_token is_alphanumeric is_ascii_alphanumeric fold_char
    to_ascii_lowercase text_eq texts_eq split_whitespace is_whitespace is_accented_a is_accented_e
    is_accented_i is_accented_o is_accented_u is_cedilla join last_text is_excluded init bytes
    matcher_of new_matcher default_config default_wake_phrases detect_instant_command run_instant
    execute run_ask answer_told answered ask choose has_heavy_marker count_lines complete_with
    speak_answer spoken_answer speak ensure_local_stt_ready probe_local_stt start_and_poll
    spawn_local_stt_worker local_worker_endpoint is_loopback_host eq_ignore_ascii_case
    trim_end_matches inspect resolved_stt_worker_model nonempty_owned launch poll after_unreachable
    owned_stt_worker_exit judge judge_body start_worker get_field stt_checked show_voice_error
    stop_owned_stt_worker
two_started = refl

both_ended : after_restart.worker.ended ≡ 77 ∷ 5 ∷ []
unfolding pipeline_loop handle_event handle_utterance round ready_stt transcribe_utterance
    transcript_heard transcribe_rich trim command_of addressed answers handle_wake show_listening
    run_command strip_wake strip_first accepts wake_phrase_matches wake_token_matches
    normalize_tokens normalize_token is_alphanumeric is_ascii_alphanumeric fold_char
    to_ascii_lowercase text_eq texts_eq split_whitespace is_whitespace is_accented_a is_accented_e
    is_accented_i is_accented_o is_accented_u is_cedilla join last_text is_excluded init bytes
    matcher_of new_matcher default_config default_wake_phrases detect_instant_command run_instant
    execute run_ask answer_told answered ask choose has_heavy_marker count_lines complete_with
    speak_answer spoken_answer speak ensure_local_stt_ready probe_local_stt start_and_poll
    spawn_local_stt_worker local_worker_endpoint is_loopback_host eq_ignore_ascii_case
    trim_end_matches inspect resolved_stt_worker_model nonempty_owned launch poll after_unreachable
    owned_stt_worker_exit judge judge_body start_worker get_field stt_checked show_voice_error
    stop_owned_stt_worker
both_ended = refl

pipeline_loop-IsAccounted_example : IsAccounted after_restart.worker
pipeline_loop-IsAccounted_example =
    pipeline_loop-IsAccounted local_runtime restarts base (default_config thousandths) no_wide
      ActivationMode.wakeword morning with_worker (inl refl, tt)

asks_once : questions after_morning.world.log ≡ codes "bom dia" ∷ []
unfolding pipeline_loop handle_event handle_utterance round ready_stt transcribe_utterance
    transcript_heard transcribe_rich trim command_of addressed answers handle_wake show_listening
    run_command strip_wake strip_first accepts wake_phrase_matches wake_token_matches
    normalize_tokens normalize_token is_alphanumeric is_ascii_alphanumeric fold_char
    to_ascii_lowercase text_eq texts_eq split_whitespace is_whitespace is_accented_a is_accented_e
    is_accented_i is_accented_o is_accented_u is_cedilla join last_text is_excluded init bytes
    matcher_of new_matcher default_config default_wake_phrases detect_instant_command run_instant
    execute run_ask answer_told answered ask choose has_heavy_marker count_lines complete_with
    speak_answer spoken_answer speak
asks_once = refl
