-- ===== src/SettingsOverlay.antt =====
-- apps/kittd/src/settings_overlay.rs: the Control Center's overrides, read at start and laid over the daemon's
-- configurations. An operation returns the configuration after it; one that fails ends the start.
pub mod VoiceSettings
pub mod Reading
pub mod Idempotence
mod Tests
use kitt_assistant.Base.{
  negsuc, pos, ℤ, refl, ◌≡◌, ◌≢◌, ◌↔◌, ◌⊎◌, inl, inr, sym, ap, subst, ◌∙◌, Bool, true, false, not,
  ◌&&◌, ◌||◌, Option, none, some, List, [], ◌∷◌, ◌++◌, map, reverse, ℕ, zero, suc, ◌+◌, ◌-◌, ◌*◌,
  ◌/◌, ◌%◌, ◌^◌, ◌≤◌, ◌<◌, min, max, arith, String, Text, ltb, leb, ◌==◌, if◌then◌else◌, Result, ok,
  err, ◌>>=◌, ◌>>◌, refuse_if, ok_or, map_err, length, take, drop, all, any, All, codes, bytes,
  text_eq, text_eq_iff, is_empty, starts_with, Bool-cases, Option-cases, Result-cases, if-of_true,
  if-of_false, and-true, decimal, trim, to_ascii_lowercase, is_blank, join, ok_or-eq-ok, retain,
  strip_prefix, texts_eq, >>=-eq-ok,
}
use kitt_assistant.ControlCenter.Json.{
  Json, null, boolean, unsigned, negative, double, string, array, object, Items, no_items, item,
  Fields, no_fields, field, as_bool, as_u64, as_str, as_array, as_object, is_some, and_then,
  unwrap_or, get_field, insert, get, any_item, all_items, find, is_text, Doubles, as_f64,
}
use kitt_assistant.ModelConfig.{
  ModelProfiles, ProviderProfile, SpeechProfile, migrate_known_broken_stt_default,
}

-- The overlay's file: whether it exists, its length, and its content.
pub record Overlay : Type 0 where
  pub exists : Bool
  pub metadata_len : Result Text ℕ
  pub read : Result Text (List ℕ)
  pub from_slice : List ℕ → Result Text Json

-- `MAX_OVERLAY_BYTES`
abbrev pub max_overlay_bytes : ℕ
max_overlay_bytes = 2 * 1024 * 1024

-- `!= Some(1)`
abbrev pub is_one : Option ℕ → Bool
is_one none = false
is_one (some n) = n == 1

abbrev pub fields_of : Option Json → Fields
fields_of o = unwrap_or no_fields (and_then o as_object)

-- `section` on what was parsed.
unfoldable pub section_of : Json → Text → Result Text Fields
section_of root id = do
  refuse_if (not (is_one (and_then (get (codes "schema_version") root) as_u64)))
      (codes "unsupported Control Center overlay schema")
  ok (fields_of (and_then (and_then (get (codes "components") root) as_object) (get_field id)))

module _ (o : Overlay) where
  read_root : Result Text Json
  read_root = do
    len ← map_err (λ e. codes "Control Center overlay metadata: " ++ e) o.metadata_len
    refuse_if (ltb max_overlay_bytes len) (codes "Control Center overlay exceeds 2 MiB")
    content ← map_err (λ e. codes "read Control Center overlay: " ++ e) o.read
    map_err (λ e. codes "parse Control Center overlay: " ++ e) (o.from_slice content)

  -- `section`
  unfoldable pub section : Text → Result Text Fields
  unfolding read_root
  section id = if not o.exists then ok no_fields else (read_root >>= λ root. section_of root id)

-- `as_i64`
abbrev pub as_i64 : Json → Option ℤ
as_i64 (unsigned n) = if ltb n (2 ^ 63) then some (pos n) else none
as_i64 (negative n) = some (negsuc n)
as_i64 _ = none

-- The optional values of a section.
module _ (v : Fields) (key : Text) where
  abbrev pub text_at : Option Text
  text_at = and_then (get_field key v) as_str

  abbrev pub bool_at : Option Bool
  bool_at = and_then (get_field key v) as_bool

  abbrev pub u64_at : Option ℕ
  u64_at = and_then (get_field key v) as_u64

  -- `set_string` and `set_u64`, and `if let Some(value) = … as_bool`.
  unfoldable pub set_string : Text → Text
  set_string target = unwrap_or target text_at

  unfoldable pub set_u64 : ℕ → ℕ
  set_u64 target = unwrap_or target u64_at

  unfoldable pub set_bool : Bool → Bool
  set_bool target = unwrap_or target bool_at

  unfoldable pub set_optional_string : Option Text → Option Text
  set_optional_string target = elim text_at [
    | none ↦ target
    | some value ↦ if is_empty (trim value) then none else some value
  ]

  -- `i32::try_from`, `u8::try_from` and `usize::try_from`, the last of which takes every `u64`.
  unfoldable pub set_i32 : ℤ → Result Text ℤ
  set_i32 target = elim (and_then (get_field key v) as_i64) [
    | none ↦ ok target
    | some (pos n) ↦ if ltb n (2 ^ 31) then ok (pos n) else err (key ++ codes " out of range")
    | some (negsuc n) ↦ if ltb n (2 ^ 31) then ok (negsuc n) else err (key ++ codes " out of range")
  ]

  unfoldable pub set_u8 : ℕ → Result Text ℕ
  set_u8 target = elim u64_at [
    | none ↦ ok target
    | some n ↦ if ltb n 256 then ok n else err (key ++ codes " out of range")
  ]

-- apps/kittd/src/main.rs, `Config`
pub record Config : Type 0 where
  pub listen : Text
  pub base_url : Text
  pub model : Text
  pub api_key_env : Option Text
  pub local_provider : Bool
  pub allow_personal_remote : Bool
  pub hud_ttl_ms : ℕ
  pub tts_voice_name : Option Text
  pub tts_prefer_male : Bool
  pub tts_rate : ℤ
  pub tts_pitch : ℤ
  pub tts_volume : ℕ

-- `apply_core`
unfoldable pub apply_core : Overlay → Config → Result Text Config
apply_core o config = do
  values ← section o (codes "assistant.core")
  voice ← section o (codes "assistant.voice")
  rate ← set_i32 voice (codes "tts_rate") config.tts_rate
  pitch ← set_i32 voice (codes "tts_pitch") config.tts_pitch
  volume ← set_u8 voice (codes "tts_volume") config.tts_volume
  ok (record {
    listen = set_string values (codes "listen") config.listen;
    base_url = set_string values (codes "base_url") config.base_url;
    model = set_string values (codes "model") config.model;
    api_key_env = set_optional_string values (codes "api_key_env") config.api_key_env;
    local_provider = set_bool values (codes "local_provider") config.local_provider;
    allow_personal_remote =
        set_bool values (codes "allow_personal_remote") config.allow_personal_remote;
    hud_ttl_ms = set_u64 values (codes "hud_ttl_ms") config.hud_ttl_ms;
    tts_voice_name = set_optional_string voice (codes "tts_voice_name") config.tts_voice_name;
    tts_prefer_male = set_bool voice (codes "tts_prefer_male") config.tts_prefer_male;
    tts_rate = rate;
    tts_pitch = pitch;
    tts_volume = volume;
  })

-- The overrides of one provider.
unfoldable pub overlaid_provider : Fields → Text → ProviderProfile → ProviderProfile
overlaid_provider v name p = record {
  base_url = set_string v (name ++ codes ".base_url") p.base_url;
  model = set_string v (name ++ codes ".model") p.model;
  api_key_env = set_optional_string v (name ++ codes ".api_key_env") p.api_key_env;
  local_provider = set_bool v (name ++ codes ".local_provider") p.local_provider;
}

unfoldable pub overlaid_speech : Fields → SpeechProfile → SpeechProfile
overlaid_speech v p = record {
  base_url = set_string v (codes "speech_to_text.base_url") p.base_url;
  model = set_string v (codes "speech_to_text.model") p.model;
  api_key_env = set_optional_string v (codes "speech_to_text.api_key_env") p.api_key_env;
  local_provider = set_bool v (codes "speech_to_text.local_provider") p.local_provider;
  allow_remote = set_bool v (codes "speech_to_text.allow_remote") p.allow_remote;
}

-- `apply_models` from its section on.
unfoldable pub overlaid_models : Fields → ModelProfiles → ModelProfiles
overlaid_models v profiles =
    let set = record profiles {
      fast = overlaid_provider v (codes "fast") profiles.fast;
      heavy = overlaid_provider v (codes "heavy") profiles.heavy;
      speech_to_text = overlaid_speech v profiles.speech_to_text;
    } in
    let moved = (migrate_known_broken_stt_default set).0 in
    record moved {
      fast_max_chars = set_u64 v (codes "fast_max_chars") moved.fast_max_chars;
      fast_max_lines = set_u64 v (codes "fast_max_lines") moved.fast_max_lines;
    }

unfoldable pub apply_models : Overlay → ModelProfiles → Result Text ModelProfiles
apply_models o profiles = do
  v ← section o (codes "assistant.models")
  ok (overlaid_models v profiles)
