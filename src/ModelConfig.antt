-- ===== src/ModelConfig.antt =====
-- apps/kittd/src/model_config.rs: the providers of the models, how they are loaded, moved to a new default
-- and checked. `Vars` are the process's environment variables that are valid Unicode.
pub mod Validity
pub mod Storing
pub mod Loading
mod Tests
use kitt_assistant.Base.{
  refl, ◌≡◌, ◌≢◌, ◌↔◌, ◌⊎◌, inl, inr, sym, ap, subst, ◌∙◌, Bool, true, false, not, ◌&&◌, ◌||◌,
  Option, none, some, List, [], ◌∷◌, ◌++◌, map, reverse, ℕ, zero, suc, ◌+◌, ◌-◌, ◌*◌, ◌/◌, ◌%◌, ◌^◌,
  ◌≤◌, ◌<◌, min, max, arith, String, Text, ltb, leb, ◌==◌, if◌then◌else◌, Result, ok, err, ◌>>=◌,
  ◌>>◌, refuse_if, ok_or, map_err, length, take, drop, all, any, All, codes, bytes, text_eq,
  text_eq_iff, is_empty, starts_with, Bool-cases, Option-cases, Result-cases, if-of_true,
  if-of_false, and-true, decimal, trim, to_ascii_lowercase, is_blank, join, ok_or-eq-ok, retain,
  strip_prefix, texts_eq, >>=-eq-ok,
}
use kitt_assistant.ControlCenter.Json.{
  Json, null, boolean, unsigned, negative, double, string, array, object, Items, no_items, item,
  Fields, no_fields, field, as_bool, as_u64, as_str, as_array, as_object, is_some, and_then,
  unwrap_or, get_field, insert, get, any_item, all_items, find, is_text, Doubles, as_f64,
}
use kitt_assistant.Url.{Net, Url, is_loopback_host, trim_end_matches}

pub record ProviderProfile : Type 0 where
  pub base_url : Text
  pub model : Text
  pub api_key_env : Option Text
  pub local_provider : Bool

pub record SpeechProfile : Type 0 where
  pub base_url : Text
  pub model : Text
  pub api_key_env : Option Text
  pub local_provider : Bool
  pub allow_remote : Bool

pub record ModelProfiles : Type 0 where
  pub fast : ProviderProfile
  pub heavy : ProviderProfile
  pub speech_to_text : SpeechProfile
  pub fast_max_chars : ℕ
  pub fast_max_lines : ℕ

abbrev pub default_stt_base_url : Text
default_stt_base_url = codes "http://127.0.0.1:8000/v1"

abbrev pub legacy_broken_stt_base_url : Text
legacy_broken_stt_base_url = codes "http://127.0.0.1:11434/v1"

-- `is_known_bad_default`
unfoldable pub is_known_bad_default : SpeechProfile → Bool
is_known_bad_default speech =
    text_eq (trim_end_matches b'/' speech.base_url) legacy_broken_stt_base_url
    && text_eq (trim speech.model) (codes "whisper-1")
    && speech.local_provider
    && not speech.allow_remote
    && elim speech.api_key_env [ none ↦ true | some value ↦ is_empty (trim value) ]

unfoldable pub migrate_known_broken_stt_default : ModelProfiles → ModelProfiles × Bool
migrate_known_broken_stt_default profiles =
    let speech = profiles.speech_to_text in
    if is_known_bad_default speech
    then (
      record profiles { speech_to_text = record speech { base_url = default_stt_base_url } },
      true,
    )
    else (profiles, false)

module _ (net : Net) where
  -- The tests of a parsed address.
  unfoldable pub check_url : Text → Url → Bool → Result Text (Unit {0})
  check_url name parsed local = do
    refuse_if (not (text_eq parsed.scheme (codes "http") || text_eq parsed.scheme (codes "https")))
        (name ++ codes " provider must use http or https")
    refuse_if (not (is_empty parsed.username) || is_some parsed.password)
        (name ++ codes " base_url must not embed credentials")
    refuse_if (is_some parsed.query || is_some parsed.fragment)
        (name ++ codes " base_url cannot contain query or fragment")
    refuse_if (local && not (is_loopback_host net parsed.host_str))
        (name ++ codes ".local_provider=true requires localhost/loopback base_url")
    ok tt

  -- `validate_profile`
  unfoldable pub validate_profile : Text → Text → Bool → Result Text (Unit {0})
  unfolding check_url
  validate_profile name base_url local = do
    parsed ←
        map_err (λ e. codes "invalid " ++ name ++ codes " base_url: " ++ e) (net.parse base_url)
    check_url name parsed local

  -- `ModelProfiles::validate`
  unfoldable pub validate : ModelProfiles → Result Text (Unit {0})
  validate p = do
    validate_profile (codes "fast") p.fast.base_url p.fast.local_provider
    validate_profile (codes "heavy") p.heavy.base_url p.heavy.local_provider
    validate_profile (codes "speech_to_text") p.speech_to_text.base_url
        p.speech_to_text.local_provider
    refuse_if (p.fast_max_chars == 0 || p.fast_max_lines == 0)
        (codes "routing thresholds must be greater than zero")
    ok tt

  -- `infer_local`
  unfoldable pub infer_local : Text → Option Bool
  infer_local base_url = elim (net.parse base_url) [
    | err e ↦ none
    | ok parsed ↦ some (is_loopback_host net parsed.host_str)
  ]

abbrev pub Vars : Type 0
Vars = Text → Option Text

-- `or_else`
abbrev pub or_else : {A : Type 0} → Option A → Option A → Option A
or_else none b = b
or_else (some a) b = some a

-- `env_bool`
unfoldable pub env_bool : Vars → Text → Option Bool
env_bool vars name = elim (vars name) [
  | none ↦ none
  | some value ↦
      let word = map to_ascii_lowercase (trim value) in
      if any (text_eq word) (map codes ("1" ∷ "true" ∷ "yes" ∷ "on" ∷ []))
      then some true
      else if any (text_eq word) (map codes ("0" ∷ "false" ∷ "no" ∷ "off" ∷ []))
      then some false
      else none
]

-- `api_key`
unfoldable pub api_key : Vars → Option Text → Option Text
api_key vars name = elim (and_then name vars) [
  | none ↦ none
  | some value ↦ if is_empty (trim value) then none else some value
]

-- The old settings that a first start takes over.
pub record Legacy : Type 0 where
  pub base_url : Text
  pub model : Text
  pub api_key_env : Option Text
  pub local : Bool

module _ (net : Net) (vars : Vars) (legacy : Legacy) where
  abbrev local_of : Text → Text → Bool
  local_of name base_url =
      unwrap_or (unwrap_or legacy.local (infer_local net base_url))
        (env_bool vars (codes "KITT_" ++ name ++ codes "_LOCAL_PROVIDER"))

  -- The profiles of a first start.
  unfoldable pub first_profiles : ModelProfiles
  first_profiles =
      let fast_base_url = unwrap_or legacy.base_url (vars (codes "KITT_FAST_BASE_URL")) in
      let heavy_base_url = unwrap_or legacy.base_url (vars (codes "KITT_HEAVY_BASE_URL")) in
      let stt_base_url = unwrap_or default_stt_base_url (vars (codes "KITT_STT_BASE_URL")) in
      record {
        fast = record {
          base_url = fast_base_url;
          model =
              unwrap_or legacy.model
                (or_else (vars (codes "KITT_FAST_MODEL")) (vars (codes "KITT_MODEL")));
          api_key_env = or_else (vars (codes "KITT_FAST_API_KEY_ENV")) legacy.api_key_env;
          local_provider = local_of (codes "FAST") fast_base_url;
        };
        heavy = record {
          base_url = heavy_base_url;
          model = unwrap_or [] (vars (codes "KITT_HEAVY_MODEL"));
          api_key_env = or_else (vars (codes "KITT_HEAVY_API_KEY_ENV")) legacy.api_key_env;
          local_provider = local_of (codes "HEAVY") heavy_base_url;
        };
        speech_to_text = record {
          base_url = stt_base_url;
          model = unwrap_or [] (vars (codes "KITT_STT_MODEL"));
          api_key_env = or_else (vars (codes "KITT_STT_API_KEY_ENV")) legacy.api_key_env;
          local_provider = local_of (codes "STT") stt_base_url;
          allow_remote = unwrap_or false (env_bool vars (codes "KITT_STT_ALLOW_REMOTE"));
        };
        fast_max_chars = 360;
        fast_max_lines = 4;
      }
