-- ===== src/ModelConfig/Storing.antt =====
-- `ModelProfiles::load_or_create` and `write_profiles`: models.json, read or written.
use kitt_assistant.Base.{
  Bool, true, Option, none, some, ◌++◌, Text, if◌then◌else◌, Result, ok, err, map_err, codes,
}
use kitt_assistant.ModelConfig.{
  ModelProfiles, Legacy, Vars, first_profiles, migrate_known_broken_stt_default, validate, Net,
}

-- The file models.json, what keeps it from being read or written, and what a write that fails would leave
-- of it. `from_str` and
-- `to_string_pretty` are serde_json's.
pub record Disk : Type 0 where
  pub models_json : Option Text
  pub unreadable : Option Text
  pub unwritable : Option Text
  pub left : Option Text

pub record Codec : Type 0 where
  pub from_str : Text → Result Text ModelProfiles
  pub to_string_pretty : ModelProfiles → Result Text Text

module _ (net : Net) (codec : Codec) where
  -- `write_profiles`
  unfoldable pub write_profiles : ModelProfiles → Disk → Result Text (Unit {0}) × Disk
  write_profiles profiles disk = elim (codec.to_string_pretty profiles) [
    | err e ↦ (err e, disk)
    | ok text ↦ elim disk.unwritable [
      | some e ↦ (err (codes "write models.json: " ++ e), record disk { models_json = disk.left })
      | none ↦ (ok tt, record disk { models_json = some text })
    ]
  ]

  -- Both branches end so: the profiles are checked, and written if they are new.
  unfoldable pub store_valid : ModelProfiles → Bool → Disk → Result Text ModelProfiles × Disk
  store_valid profiles fresh disk = elim (validate net profiles) [
    | err e ↦ (err e, disk)
    | ok _ ↦
        if fresh
        then (let (r, disk') = write_profiles profiles disk in
            elim r [ err e ↦ (err e, disk') | ok _ ↦ (ok profiles, disk') ])
        else (ok profiles, disk)
  ]

  -- The profiles of a file that exists.
  unfoldable pub parsed_profiles : Text → Disk → Result Text ModelProfiles
  parsed_profiles text disk = elim disk.unreadable [
    | some e ↦ err (codes "read models.json: " ++ e)
    | none ↦ map_err (λ e. codes "parse models.json: " ++ e) (codec.from_str text)
  ]

  unfoldable pub load_or_create : Vars → Legacy → Disk → Result Text ModelProfiles × Disk
  load_or_create vars legacy disk = elim disk.models_json [
    | none ↦ store_valid (first_profiles net vars legacy) true disk
    | some text ↦ elim (parsed_profiles text disk) [
      | err e ↦ (err e, disk)
      | ok profiles ↦
          let (moved, migrated) = migrate_known_broken_stt_default profiles in
          store_valid moved migrated disk
    ]
  ]
