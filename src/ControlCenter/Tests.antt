-- ===== src/ControlCenter/Tests.antt =====
-- A catalog with one field, an overlay that sets it, and requests that change it.
use kitt_assistant.Base.{
  refl, ◌≡◌, ◌↔◌, ◌⊎◌, true, false, none, List, [], ◌∷◌, ◌++◌, ℕ, Text, ltb, Result, ok, err, codes,
  text_eq,
}
use kitt_assistant.ControlCenter.Json.{
  Json, null, unsigned, string, array, object, no_items, item, no_fields, field, get_field, insert,
  find, Doubles,
}
use kitt_assistant.ControlCenter.Changes.{
  sort_dedup, needs_restart, merge_values, merge_sections, merge_changes, find_setting,
  check_settings, find_section, check_sections, validate_change_request, revision_of, check_section,
}
use kitt_assistant.ControlCenter.Overlay.{
  put_in_place, write_overlay_atomic, bump_revision, edit_overlay, check_overlay, read_overlay,
  parse_json_body, Disk, put_config, ensure_overlay,
}
use kitt_assistant.ControlCenter.Overlay.Outcome.{PutOutcome, put_config-PutOutcome}
use kitt_assistant.ControlCenter.Requests.{Server, World}
use kitt_assistant.ControlCenter.Start.{
  Site, start, prepare, listen, validate_catalog, validate_sections,
}
use kitt_assistant.ControlCenter.Start.Serving.{Starts, start-Starts}
use kitt_assistant.ControlCenter.Exchange.{Socket, handle_stream}
use kitt_assistant.ControlCenter.Exchange.Admission.{IsAuthorised, handle_stream-IsAuthorised}
use kitt_assistant.ControlCenter.Values.{type_ok, validate_value}
use kitt_assistant.ControlCenter.Values.Laws.{Fits, validate_value_iff}

-- Doubles of which only the non-negative whole ones matter here.
abbrev whole : Doubles
whole = record { F = ℕ; of_unsigned = λ n. n; of_negative = λ n. 0; of_bits = λ b. b; lt = ltb }

abbrev volume : Json
volume = object (
    field (codes "key") (string (codes "volume")) (
      field (codes "type") (string (codes "integer")) (
        field (codes "maximum") (unsigned 100)
          (field (codes "apply_mode") (string (codes "restart")) no_fields))))

abbrev catalog : Json
catalog = object (
    field (codes "sections")
      (array (
        item
          (object (
            field (codes "id") (string (codes "voice"))
              (field (codes "fields") (array (item volume no_items)) no_fields)))
          no_items))
      no_fields)

abbrev stored : ℕ → Json
stored revision = object (
    field (codes "schema_version") (unsigned 1) (
      field (codes "revision") (unsigned revision)
        (field (codes "components") (object no_fields) no_fields)))

abbrev change : ℕ → Json
change level = object (
    field (codes "expected_revision") (unsigned 3) (
      field (codes "changes")
        (object (
          field (codes "voice") (object (field (codes "volume") (unsigned level) no_fields))
            no_fields))
        no_fields))

-- The one byte of a body asks for that volume; any other content is the stored overlay.
abbrev parsed : List ℕ → Result Text Json
parsed (level ∷ []) = ok (change level)
parsed _ = ok (stored 3)

abbrev disk : Disk
disk = record {
  from_slice = parsed;
  to_vec_pretty = λ v. ok (revision_of v ∷ 0 ∷ []);
  has_parent = true;
  ensure_private_dir = ok tt;
  write_private = λ content. ok tt;
  rename = ok tt;
  set_private_file = ok tt;
}

put_config-PutOutcome_example :
    PutOutcome whole disk catalog
      (ok [])
      (80 ∷ [])
      (put_config whole disk catalog (ok []) (80 ∷ []) 9)
put_config-PutOutcome_example = put_config-PutOutcome whole disk catalog (ok []) (80 ∷ []) 9

raises_revision : (put_config whole disk catalog (ok []) (80 ∷ []) 9).1 ≡ ok (4 ∷ 0 ∷ [])
unfolding put_config parse_json_body read_overlay check_overlay get_field text_eq edit_overlay
    validate_change_request check_sections check_section find_section find check_settings
    find_setting validate_value type_ok merge_changes merge_sections merge_values insert
    bump_revision write_overlay_atomic put_in_place needs_restart sort_dedup
raises_revision = refl

refuses_level :
    put_config whole disk catalog (ok []) (101 ∷ []) 9
    ≡ (err (codes "voice.volume: above maximum"), ok [])
unfolding put_config parse_json_body read_overlay check_overlay get_field text_eq edit_overlay
    validate_change_request check_sections check_section find_section find check_settings
    find_setting validate_value type_ok merge_changes merge_sections merge_values insert
    bump_revision write_overlay_atomic put_in_place needs_restart sort_dedup
refuses_level = refl

validate_value_iff_example :
    (validate_value whole volume (unsigned 80) ≡ ok tt)
    ↔ ((kind : Text) × Fits whole volume (unsigned 80) kind)
validate_value_iff_example = validate_value_iff whole volume (unsigned 80)

abbrev server : Server
server = record {
  ds = whole;
  disk = disk;
  catalog = catalog;
  port = 41828;
  bind = codes "127.0.0.1:41828";
  token = codes "t0";
  now = 9;
  answer = λ calls c. ok null;
  restarted = λ calls. null;
  report = λ r calls. null;
}

abbrev world : World
world = record { file = ok []; calls = [] }

abbrev socket : Socket
socket = record {
  to_vec = λ v. ok (codes "{}");
  asset = λ name. codes "page";
  write_all = λ buffer. ok tt;
  flush = ok tt;
}

abbrev site : Site
site = record {
  control_center_addr = none;
  parse_addr = λ s. ok (record { is_loopback = true; port = 41828; shown = s });
  embedded = ok catalog;
  ensure_private_dir = ok tt;
  bind = λ address. ok tt;
  set_blocking = ok tt;
  spawn = ok tt;
}

versioned : validate_catalog catalog ≡ err (codes "catalog schema_version must be 1")
unfolding validate_catalog get_field text_eq
versioned = refl

abbrev first_catalog : Json
first_catalog = object (
    field (codes "schema_version") (unsigned 1) (
      field (codes "sections")
        (array (
          item
            (object (
              field (codes "id") (string (codes "voice"))
                (field (codes "fields") (array no_items) no_fields)))
            no_items))
        no_fields))

first_start :
    start (record site { embedded = ok first_catalog }) disk false (err (codes "not found")) 9 ≡ (
      ok (record {
        bind = record { is_loopback = true; port = 41828; shown = codes "127.0.0.1:41828" };
        catalog = first_catalog;
      }),
      ok (0 ∷ 0 ∷ []),
    )
unfolding start prepare listen validate_catalog validate_sections ensure_overlay get_field text_eq
    write_overlay_atomic put_in_place
first_start = refl

start-Starts_example :
    Starts disk false
      (err (codes "not found"))
      9
      (record site { embedded = ok first_catalog })
      (start (record site { embedded = ok first_catalog }) disk false (err (codes "not found")) 9)
start-Starts_example =
    start-Starts disk false (err (codes "not found")) 9
      (record site { embedded = ok first_catalog })

-- A request of the settings page: the byte of its body asks for volume 80.
abbrev put_bytes : List ℕ
put_bytes =
    codes "PUT /api/v1/config HTTP/1.1\r\nHost: localhost:41828\r\nX-Kitt-Csrf: t0\r\n"
    ++ codes "Origin: http://localhost:41828\r\nContent-Length: 1\r\n\r\nP"

handle_stream-IsAuthorised_example :
    ((handle_stream socket server (ok tt) put_bytes world).2 ≡ world)
    ⊎ IsAuthorised server (ok tt) put_bytes
handle_stream-IsAuthorised_example =
    handle_stream-IsAuthorised socket server (ok tt) put_bytes world
