-- ===== src/ModelConfig/Tests.antt =====
-- A first start without environment variables.
use kitt_assistant.Base.{
  refl, ◌≡◌, ◌↔◌, true, false, none, some, [], ok, codes, text_eq, to_ascii_lowercase,
}
use kitt_assistant.ModelConfig.{
  ModelProfiles, Legacy, Vars, first_profiles, validate, is_known_bad_default, Net, infer_local,
  env_bool, validate_profile, check_url,
}
use kitt_assistant.ModelConfig.Storing.{Disk, Codec, load_or_create, store_valid, write_profiles}
use kitt_assistant.ModelConfig.Loading.{load_or_create-Again}
use kitt_assistant.ModelConfig.Validity.{IsValid, validate-eq-ok}
use kitt_assistant.Url.{Url, is_loopback_host, eq_ignore_ascii_case, trim_end_matches}

abbrev url : Url
url = record {
  scheme = codes "http";
  username = [];
  password = none;
  host_str = some (codes "localhost");
  port_or_known_default = some 11434;
  path = codes "/v1";
  query = none;
  fragment = none;
}

abbrev net : Net
net = record { parse = λ t. ok url; is_loopback_ip = λ h. false }

abbrev legacy : Legacy
legacy = record {
  base_url = codes "http://localhost:11434/v1";
  model = codes "llama";
  api_key_env = none;
  local = true;
}

abbrev no_vars : Vars
no_vars name = none

abbrev profiles : ModelProfiles
profiles = first_profiles net no_vars legacy

abbrev codec : Codec
codec = record { from_str = λ t. ok profiles; to_string_pretty = λ p. ok (codes "{}") }

abbrev empty_disk : Disk
empty_disk = record { models_json = none; unreadable = none; unwritable = none; left = none }

abbrev written_disk : Disk
written_disk = record empty_disk { models_json = some (codes "{}") }

first_is_not_bad : is_known_bad_default profiles.speech_to_text ≡ false
unfolding is_known_bad_default first_profiles trim_end_matches text_eq
first_is_not_bad = refl

first_is_valid : validate net profiles ≡ ok tt
unfolding validate validate_profile check_url first_profiles infer_local env_bool is_loopback_host
    eq_ignore_ascii_case text_eq to_ascii_lowercase
first_is_valid = refl

first_load : load_or_create net codec no_vars legacy empty_disk ≡ (ok profiles, written_disk)
unfolding load_or_create store_valid write_profiles validate validate_profile check_url
    first_profiles infer_local env_bool is_loopback_host eq_ignore_ascii_case text_eq
    to_ascii_lowercase
first_load = refl

load_or_create-Again_example :
    IsValid net profiles
    × (load_or_create net codec no_vars legacy written_disk ≡ (ok profiles, written_disk))
load_or_create-Again_example =
    load_or_create-Again net codec no_vars no_vars legacy legacy profiles empty_disk written_disk
      (λ text printed. refl) refl first_is_not_bad first_load

validate-eq-ok_example : (validate net profiles ≡ ok tt) ↔ IsValid net profiles
validate-eq-ok_example = validate-eq-ok net profiles
