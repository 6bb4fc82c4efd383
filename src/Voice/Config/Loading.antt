-- ===== src/Voice/Config/Loading.antt =====
-- apps/kittd/src/voice.rs: migrating, resolving and loading the voice configuration.
use kitt_assistant.Base.{
  ℕ, Bool, true, false, ◌||◌, Option, none, some, List, [], ◌∷◌, map, Text, String, Result, ok, err,
  ◌>>=◌, Float32, is_empty, texts_eq, if◌then◌else◌, trim,
}
use kitt_assistant.Voice.Wake.{normalize_token}
use kitt_assistant.Voice.Config.{
  ActivationMode, VoiceConfig, default_config, default_wake_phrases, legacy_broad_wake_phrases,
  legacy_control_center_wake_phrases,
}
use kitt_assistant.Voice.Config.Validation.{validate}

-- The test of `migrate_known_broad_wake_default`: the phrases are those that an earlier release shipped.
unfoldable pub is_legacy : (ℕ → Bool) → List Text → Bool
is_legacy wide phrases =
    let normalized = map (normalize_token wide) phrases in
    texts_eq normalized (map (normalize_token wide) legacy_broad_wake_phrases)
    || texts_eq normalized (map (normalize_token wide) legacy_control_center_wake_phrases)

-- `migrate_known_broad_wake_default`: the new configuration, and whether it was migrated.
unfoldable pub migrate : {F : Type 0} → (ℕ → Bool) → VoiceConfig F → VoiceConfig F × Bool
migrate wide c =
    if is_legacy wide c.wake_phrases
    then (record c { wake_phrases = default_wake_phrases }, true)
    else (c, false)

-- `nonempty_owned`
unfoldable pub nonempty_owned : Text → Option Text
unfolding trim
nonempty_owned value = let t = trim value in if is_empty t then none else some t

-- What the code asks of the operating system's paths: `Path::is_absolute`, `join` and `is_file`.
pub record Files : Type 0 where
  pub is_absolute : Text → Bool
  pub join : Text → Text → Text
  pub is_file : Text → Bool

module _ {F : Type 0} (c : VoiceConfig F) where
  abbrev first_nonempty : List (Option Text) → Option Text
  first_nonempty [] = none
  first_nonempty (none ∷ vs) = first_nonempty vs
  first_nonempty (some v ∷ vs) = elim (nonempty_owned v) [
    | none ↦ first_nonempty vs
    | some m ↦ some m
  ]

  -- `resolved_stt_worker_model`; the environment's values of the two variables come in order.
  unfoldable pub resolved_stt_worker_model : (whisper kitt_whisper : Option Text) → Option Text
  resolved_stt_worker_model whisper kitt_whisper =
      first_nonempty (some c.stt_worker_model ∷ kitt_whisper ∷ whisper ∷ [])

  unfoldable pub wakeword_path : Files → Text → Option Text
  unfolding trim
  wakeword_path files config_dir = elim c.wakeword_model_path [
    | none ↦ none
    | some value ↦
        let raw = trim value in
        if is_empty raw
        then none
        else some (if files.is_absolute raw then raw else files.join config_dir raw)
  ]

  abbrev pub names_file : Files → Option Text → Bool
  names_file files none = false
  names_file files (some path) = files.is_file path

  -- `resolved_mode`, with the `match` on the configured mode.
  unfoldable pub resolve : Files → Text → ActivationMode → ActivationMode
  resolve files config_dir ActivationMode.auto =
      if names_file files (wakeword_path files config_dir)
      then ActivationMode.wakeword
      else if c.allow_transcript_prefix_fallback
      then ActivationMode.transcript_prefix
      else ActivationMode.degraded
  resolve files config_dir mode = mode

  unfoldable pub resolved_mode : Files → Text → ActivationMode
  unfolding resolve
  resolved_mode files config_dir = resolve files config_dir c.activation_mode

-- The configuration file as the program finds it: whether it exists, what reading, parsing, printing and
-- writing it answer.
pub record VoiceFile (F : Type 0) : Type 0 where
  pub create_dir : Result String (Unit {0})
  pub exists : Bool
  pub read : Result String Text
  pub parse : Text → Result String (VoiceConfig F)
  pub print : VoiceConfig F → Result String Text
  pub write : Text → Result String (Unit {0})

-- What becomes of the file: it is left alone, it holds a configuration, or a write that failed has left it
-- with some part of it, or none.
pub data Stored (F : Type 0) : Type 0 where
  untouched spoilt : Stored F
  holds : VoiceConfig F → Stored F

-- `write_voice_config`, for a configuration that is then returned.
unfoldable pub written :
    {F : Type 0} → VoiceFile F → VoiceConfig F → Result String (VoiceConfig F) × Stored F
written file c = elim (file.print c) [
  | err e ↦ (err e, untouched)
  | ok text ↦ elim (file.write text) [ err e ↦ (err e, spoilt) | ok _ ↦ (ok c, holds c) ]
]

module _ (fl : Float32) (wide : ℕ → Bool) where
  -- A configuration that was read: migrated, validated, and written back if it was migrated.
  unfoldable pub accept :
      VoiceFile fl.F → VoiceConfig fl.F → Result String (VoiceConfig fl.F) × Stored fl.F
  accept file c =
      let (config, migrated) = migrate wide c in
      elim (validate fl config) [
        | err e ↦ (err e, untouched)
        | ok _ ↦ if migrated then written file config else (ok config, untouched)
      ]

  -- The first start: the default, validated and written.
  unfoldable pub create : VoiceFile fl.F → Result String (VoiceConfig fl.F) × Stored fl.F
  create file =
      let config = default_config fl in
      elim (validate fl config) [ err e ↦ (err e, untouched) | ok _ ↦ written file config ]

  -- `VoiceConfig::load_or_create`: its result, and what becomes of the file.
  unfoldable pub load_or_create : VoiceFile fl.F → Result String (VoiceConfig fl.F) × Stored fl.F
  load_or_create file = elim file.create_dir [
    | err e ↦ (err e, untouched)
    | ok _ ↦
        if file.exists
        then elim (file.read >>= file.parse) [ err e ↦ (err e, untouched) | ok c ↦ accept file c ]
        else create file
  ]
