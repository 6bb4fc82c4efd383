-- ===== src/SettingsOverlay/Tests.antt =====
-- A change of the locale, merged into an empty overlay and read back.
use kitt_assistant.Base.{refl, ◌≡◌, true, none, [], ℕ, ltb, ok, codes, text_eq}
use kitt_assistant.ControlCenter.Json.{
  Json, unsigned, string, object, Fields, no_fields, field, get_field, insert, Doubles,
}
use kitt_assistant.SettingsOverlay.Reading.{reads, merge_changes-reads}
use kitt_assistant.SettingsOverlay.VoiceSettings.{
  apply_voice, overlaid_voice, set_fields, set_mode, set_fuzzy, set_f32, set_optional_f32,
  set_phrases, set_speaker,
}
use kitt_assistant.SettingsOverlay.{
  Overlay, section, section_of, set_string, set_u64, set_bool, set_optional_string, set_i32, set_u8,
}
use kitt_assistant.ControlCenter.Changes.{merge_changes, merge_sections, merge_values}
use kitt_assistant.ControlCenter.Changes.Merging.{changed, or_else}
use kitt_assistant.Voice.Samples.{thousandths}
use kitt_assistant.Voice.Config.{default_config, VoiceConfig}

abbrev locale_fields : Fields
locale_fields = field (codes "locale") (string (codes "en-US")) no_fields

abbrev root_with : Fields → Json
root_with components = object (
    field (codes "schema_version") (unsigned 1)
      (field (codes "components") (object components) no_fields))

abbrev voice_changes : Fields
voice_changes = field (codes "assistant.voice") (object locale_fields) no_fields

merged_root : merge_changes (root_with no_fields) voice_changes ≡ ok (root_with voice_changes)
unfolding merge_changes merge_sections merge_values insert get_field text_eq
merged_root = refl

read_before : reads (root_with no_fields) (codes "assistant.voice") (codes "locale") ≡ ok none
unfolding section_of get_field text_eq
read_before = refl

merge_changes-reads_example :
    reads (root_with voice_changes) (codes "assistant.voice") (codes "locale")
    ≡ ok (or_else (changed (codes "assistant.voice") (codes "locale") voice_changes) none)
merge_changes-reads_example =
    merge_changes-reads (root_with no_fields) (root_with voice_changes) voice_changes
      (codes "assistant.voice") (codes "locale") none merged_root read_before

abbrev overlay : Overlay
overlay = record {
  exists = true;
  metadata_len = ok 90;
  read = ok [];
  from_slice = λ b. ok (root_with voice_changes);
}

abbrev doubles : Doubles
doubles = record { F = ℕ; of_unsigned = λ n. n; of_negative = λ n. 0; of_bits = λ b. b; lt = ltb }

abbrev english : VoiceConfig ℕ
english = record (default_config thousandths) { locale = codes "en-US" }

applied : apply_voice thousandths doubles (λ x. x) overlay (default_config thousandths) ≡ ok english
unfolding apply_voice overlaid_voice set_fields set_mode set_fuzzy set_i32 set_u8 set_bool
    set_string set_u64 set_optional_string set_phrases set_speaker set_f32 set_optional_f32 section
    section_of get_field text_eq
applied = refl
