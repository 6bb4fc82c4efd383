-- ===== src/Voice/Config/Tests.antt =====
-- The default configuration on a first start, and one that an earlier release wrote.
use kitt_assistant.Voice.Config.Laws.{validate_iff, IsValid, load_or_create-Loads, Loads}
use kitt_assistant.Voice.Config.Validation.{
  validate_times, validate_detection, validate_texts, validate,
}
use kitt_assistant.Voice.Config.Loading.{load_or_create, VoiceFile, Files}
use kitt_assistant.Voice.Config.{
  default_wake_phrases, legacy_broad_wake_phrases, VoiceConfig, default_config,
}
use kitt_assistant.Base.{codes, is_blank, ◌↔◌, true, ◌++◌, ok, ℕ, ◌≡◌, false, [], refl}
use kitt_assistant.Voice.Samples.{thousandths, no_wide}

default_validates : validate thousandths (default_config thousandths) ≡ ok tt
unfolding default_config validate validate_texts validate_detection validate_times is_blank
    default_wake_phrases
default_validates = refl

validate_iff_example :
    (validate thousandths (default_config thousandths) ≡ ok tt)
    ↔ IsValid thousandths (default_config thousandths)
validate_iff_example = validate_iff thousandths (default_config thousandths)

abbrev old_config : VoiceConfig ℕ
old_config = record (default_config thousandths) { wake_phrases = legacy_broad_wake_phrases }

abbrev old_file : VoiceFile ℕ
old_file = record {
  create_dir = ok tt;
  exists = true;
  read = ok [];
  parse = λ _. ok old_config;
  print = λ c. ok (codes "{}");
  write = λ text. ok tt;
}

load_or_create-Loads_example :
    Loads thousandths old_file (load_or_create thousandths no_wide old_file)
load_or_create-Loads_example = load_or_create-Loads thousandths no_wide old_file

abbrev no_files : Files
no_files = record { is_absolute = λ _. false; join = λ d p. d ++ p; is_file = λ _. false }
