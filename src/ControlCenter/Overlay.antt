-- ===== src/ControlCenter/Overlay.antt =====
-- The overlay file of settings: reading it, replacing it, and applying a change to it.
pub mod Edits
pub mod Applying
pub mod Outcome
use kitt_assistant.ControlCenter.Changes.{
  merge_changes, revision_of, validate_change_request, no_entries,
}
use kitt_assistant.Base.{
  refl, ◌≡◌, ◌≢◌, ◌↔◌, ◌⊎◌, inl, inr, sym, ap, subst, ◌∙◌, Bool, true, false, not, ◌&&◌, ◌||◌,
  Option, none, some, List, [], ◌∷◌, ◌++◌, map, reverse, ℕ, zero, suc, ◌+◌, ◌-◌, ◌*◌, ◌/◌, ◌%◌, ◌^◌,
  ◌≤◌, ◌<◌, min, max, arith, String, Text, ltb, leb, ◌==◌, if◌then◌else◌, Result, ok, err, ◌>>=◌,
  ◌>>◌, refuse_if, ok_or, map_err, length, take, drop, all, any, All, codes, bytes, text_eq,
  text_eq_iff, is_empty, starts_with, Bool-cases, Option-cases, Result-cases, if-of_true,
  if-of_false, and-true, >>=-eq-ok,
}
use kitt_assistant.ControlCenter.Json.{
  Json, null, boolean, unsigned, negative, double, string, array, object, Items, no_items, item,
  Fields, no_fields, field, as_bool, as_u64, as_str, as_array, as_object, is_some, and_then,
  unwrap_or, get_field, insert, get, any_item, all_items, find, is_text, Doubles, as_f64,
}

-- What `fs::read` answers for the overlay's path.
abbrev pub File : Type 0
File = Result Text (List ℕ)

-- `serde_json` and what the file system answers to the steps of a write.
pub record Disk : Type 0 where
  pub from_slice : List ℕ → Result Text Json
  pub to_vec_pretty : Json → Result Text (List ℕ)
  pub has_parent : Bool
  pub ensure_private_dir : Result Text (Unit {0})
  pub write_private : List ℕ → Result Text (Unit {0})
  pub rename : Result Text (Unit {0})
  pub set_private_file : Result Text (Unit {0})

-- `snapshot`
unfoldable pub snapshot : Json → Json
snapshot overlay = object (
    field (codes "schema_version") (unsigned 1) (
      field (codes "revision") (unsigned (revision_of overlay)) (
        field (codes "values") (unwrap_or no_entries (get (codes "components") overlay))
          no_fields)))

-- `u64::saturating_add(1)`
abbrev pub next_revision : ℕ → ℕ
next_revision revision = min (revision + 1) (2 ^ 64 - 1)

-- `bump_revision`; `now` is the clock in milliseconds.
unfoldable pub bump_revision : Json → ℕ → Result Text Json
bump_revision overlay now = do
  root ← ok_or (as_object overlay) (codes "overlay invalid")
  ok (
      object (
        insert (codes "updated_at_ms") (unsigned now)
          (insert (codes "revision") (unsigned (next_revision (revision_of overlay))) root)))

abbrev pub is_version_one : Option ℕ → Bool
is_version_one none = false
is_version_one (some v) = v == 1

-- The two tests of `read_overlay` on what was parsed.
unfoldable pub check_overlay : Json → Result Text Json
check_overlay value = do
  refuse_if (not (is_version_one (and_then (get (codes "schema_version") value) as_u64)))
      (codes "unsupported overlay schema version")
  refuse_if (not (is_some (and_then (get (codes "components") value) as_object)))
      (codes "overlay components must be object")
  ok value

module _ (disk : Disk) where
  unfoldable pub read_overlay : File → Result Text Json
  read_overlay file = do
    content ← map_err (λ e. codes "read overlay: " ++ e) file
    value ← map_err (λ e. codes "parse overlay: " ++ e) (disk.from_slice content)
    check_overlay value

  -- `write_overlay_atomic` up to the rename: what it has written.
  unfoldable pub put_in_place : Json → Result Text (List ℕ)
  put_in_place value = do
    refuse_if (not disk.has_parent) (codes "overlay has no parent")
    disk.ensure_private_dir
    content ← disk.to_vec_pretty value
    disk.write_private content
    map_err (λ e. codes "replace overlay: " ++ e) disk.rename
    ok content

  -- `write_overlay_atomic`: its answer, and the file after it, which is the new one from the rename on.
  unfoldable pub write_overlay_atomic : File → Json → Result Text (Unit {0}) × File
  write_overlay_atomic file value = elim (put_in_place value) [
    | err e ↦ (err e, file)
    | ok content ↦ (disk.set_private_file, ok content)
  ]

  abbrev pub initial_overlay : ℕ → Json
  initial_overlay now = object (
      field (codes "schema_version") (unsigned 1) (
        field (codes "revision") (unsigned 0) (
          field (codes "updated_at_ms") (unsigned now)
            (field (codes "components") no_entries no_fields))))

  -- `ensure_overlay`
  unfoldable pub ensure_overlay : Bool → File → ℕ → Result Text (Unit {0}) × File
  ensure_overlay exists file now =
      if exists
      then (read_overlay file >>= λ _. ok tt, file)
      else write_overlay_atomic file (initial_overlay now)

  unfoldable pub parse_json_body : List ℕ → Result Text Json
  parse_json_body body = do
    refuse_if (is_empty body) (codes "JSON body required")
    map_err (λ e. codes "invalid JSON: " ++ e) (disk.from_slice body)

abbrev pub items_of : List Text → Items
items_of [] = no_items
items_of (t ∷ ts) = item (string t) (items_of ts)

abbrev pub applied_answer : Json → List Text → Json
applied_answer overlay restart = object (
    field (codes "status") (string (codes "applied")) (
      field (codes "snapshot") (snapshot overlay)
        (field (codes "restart_required") (array (items_of restart)) no_fields)))

module _ (ds : Doubles) (catalog : Json) where
  -- The handler of `PUT /api/v1/config`, up to the write: the new overlay and the sections to restart.
  unfoldable pub edit_overlay : Json → Json → ℕ → Result Text (Json × List Text)
  edit_overlay payload overlay now = do
    (changes, restart) ← validate_change_request ds payload overlay catalog
    merged ← merge_changes overlay changes
    bumped ← bump_revision merged now
    ok (bumped, restart)

module _ (ds : Doubles) (disk : Disk) (catalog : Json) where
  -- The handler of `POST /api/v1/validate`.
  unfoldable pub validate_only : File → List ℕ → Result Text Json
  validate_only file body = do
    payload ← parse_json_body disk body
    overlay ← read_overlay disk file
    (changes, restart) ← validate_change_request ds payload overlay catalog
    ok (
        object (
          field (codes "status") (string (codes "valid"))
            (field (codes "diff") (object changes) no_fields)))

  -- The whole handler: its answer, and the file that it leaves.
  unfoldable pub put_config : File → List ℕ → ℕ → Result Text Json × File
  put_config file body now =
      elim (do
        payload ← parse_json_body disk body
        overlay ← read_overlay disk file
        edit_overlay ds catalog payload overlay now) [
          | err e ↦ (err e, file)
          | ok (overlay, restart) ↦
              let (written, file') = write_overlay_atomic disk file overlay in
              (written >> ok (applied_answer overlay restart), file')
        ]
