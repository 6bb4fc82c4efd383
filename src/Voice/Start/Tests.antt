-- ===== src/Voice/Start/Tests.antt =====
-- A start with the wake word's file.
use kitt_assistant.Base.{
  refl, ◌≡◌, true, false, none, some, [], ◌++◌, ℕ, ltb, ok, err, codes, text_eq,
}
use kitt_assistant.ControlCenter.Json.{null, Doubles}
use kitt_assistant.Voice.Samples.{thousandths, no_wide}
use kitt_assistant.Voice.Config.{VoiceConfig, ActivationMode, default_config}
use kitt_assistant.Voice.Config.Loading.{wakeword_path}
use kitt_assistant.Voice.Stt.{not_found, no_answer, Machine, Worker}
use kitt_assistant.Voice.Start.{spawn_threads, check_mode, start_mode, Site, capturing, start}
use kitt_assistant.Voice.Start.Fitness.{Listens, start-Listens}

abbrev wakeful : VoiceConfig ℕ
wakeful = record (default_config thousandths) {
  enabled = true;
  activation_mode = ActivationMode.wakeword;
  wakeword_model_path = some (codes "kitt.rpw");
}

abbrev doubles : Doubles
doubles = record { F = ℕ; of_unsigned = λ n. n; of_negative = λ n. 0; of_bits = λ b. b; lt = ltb }

abbrev no_machine : Machine
no_machine = record {
  health = λ t u. no_answer (codes "refused");
  from_slice = λ b. err [];
  spawn = λ t program args. err not_found;
  try_wait = λ t pid. ok none;
  takes = λ t. 3;
  candidates = [];
  whisper_model = none;
  kitt_whisper_model = none;
  net = record { parse = λ t. err []; is_loopback_ip = λ h. false };
}

abbrev site : Site ℕ
site = record {
  file = record {
    create_dir = ok tt;
    exists = true;
    read = ok [];
    parse = λ t. ok wakeful;
    print = λ c. ok (codes "{}");
    write = λ text. ok tt;
  };
  overlay = record { exists = false; metadata_len = ok 0; read = ok []; from_slice = λ b. ok null };
  files = record { is_absolute = λ p. false; join = λ d p. d ++ p; is_file = λ p. true };
  config_dir = codes "/etc/";
  transcriber_is_local = false;
  machine = no_machine;
  base_url = codes "http://localhost:8000/v1";
  spawn_capture = ok tt;
  spawn_pipeline = ok tt;
}

abbrev idle_worker : Worker
idle_worker = record { tick = 0; now = 0; child = none; started = []; ended = [] }

listening :
    (start_mode thousandths doubles
      (λ x. x)
      no_wide
      site
      ActivationMode.wakeword
      wakeful
      idle_worker).0
    ≡ some (ok (capturing ActivationMode.wakeword wakeful))
unfolding start_mode check_mode wakeword_path text_eq default_config spawn_threads
listening = refl

start-Listens_example :
    Listens thousandths doubles
      (λ x. x)
      no_wide
      site
      (start thousandths doubles (λ x. x) no_wide site idle_worker).0
start-Listens_example = start-Listens thousandths doubles (λ x. x) no_wide site idle_worker
