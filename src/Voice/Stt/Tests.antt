-- ===== src/Voice/Stt/Tests.antt =====
-- A worker that starts and answers at the second probe.
use kitt_assistant.Voice.Config.Loading.{nonempty_owned, resolved_stt_worker_model}
use kitt_assistant.Voice.Samples.{thousandths}
use kitt_assistant.Voice.Config.{default_config}
use kitt_assistant.Voice.Stt.Readiness.{
  ensure_local_stt_ready-MeansReady, ensure_local_stt_ready-Ends, Ends, MeansReady,
}
use kitt_assistant.Voice.Stt.Polling.{
  after_unreachable, poll, start_and_poll, ensure_local_stt_ready,
}
use kitt_assistant.Url.{trim_end_matches, eq_ignore_ascii_case, is_loopback_host, Url}
use kitt_assistant.Voice.Stt.{
  start_worker, judge_body, judge, owned_stt_worker_exit, launch, inspect, local_worker_endpoint,
  spawn_local_stt_worker, probe_local_stt, page, no_answer, stt_health_url, Machine, Worker,
}
use kitt_assistant.Base.{
  is_whitespace, refl, ◌≡◌, true, false, none, some, [], ◌∷◌, Text, ltb, if◌then◌else◌, ok, codes,
  text_eq, starts_with, trim, to_ascii_lowercase,
}
use kitt_assistant.ControlCenter.Json.{boolean, object, no_fields, field, get_field}

abbrev url : Url
url = record {
  scheme = codes "http";
  username = [];
  password = none;
  host_str = some (codes "localhost");
  port_or_known_default = some 8000;
  path = codes "/v1";
  query = none;
  fragment = none;
}

abbrev slow_start : Machine
slow_start = record {
  health = λ t u. if ltb t 4 then no_answer (codes "refused") else page true (codes "200 OK") [];
  from_slice = λ b. ok (object (field (codes "ready") (boolean true) no_fields));
  spawn = λ t program args. ok 77;
  try_wait = λ t pid. ok none;
  takes = λ t. 3;
  candidates = (codes "kitt-stt-worker", []) ∷ [];
  whisper_model = some (codes "base");
  kitt_whisper_model = none;
  net = record { parse = λ t. ok url; is_loopback_ip = λ h. false };
}

abbrev idle_worker : Worker
idle_worker = record { tick = 0; now = 0; child = none; started = []; ended = [] }

abbrev base : Text
base = codes "http://localhost:8000/v1"

ensure_local_stt_ready-Ends_example :
    Ends (ensure_local_stt_ready slow_start base (default_config thousandths) idle_worker)
ensure_local_stt_ready-Ends_example =
    ensure_local_stt_ready-Ends slow_start base (default_config thousandths) idle_worker

ensure_local_stt_ready-MeansReady_example :
    MeansReady slow_start base
      (default_config thousandths)
      (ensure_local_stt_ready slow_start base (default_config thousandths) idle_worker)
ensure_local_stt_ready-MeansReady_example =
    ensure_local_stt_ready-MeansReady slow_start base (default_config thousandths) idle_worker

health_page :
    stt_health_url (codes " http://localhost:8000/v1/ ") ≡ codes "http://localhost:8000/v1/health"
unfolding stt_health_url starts_with trim
health_page = refl

becomes_ready :
    (ensure_local_stt_ready slow_start base (default_config thousandths) idle_worker).0
    ≡ some (ok tt)
unfolding ensure_local_stt_ready probe_local_stt start_and_poll spawn_local_stt_worker
    local_worker_endpoint text_eq is_loopback_host eq_ignore_ascii_case to_ascii_lowercase
    trim_end_matches inspect resolved_stt_worker_model nonempty_owned launch poll after_unreachable
    owned_stt_worker_exit get_field judge judge_body start_worker default_config is_whitespace trim
becomes_ready = refl
