-- ===== src/ControlCenter/Changes.antt =====
-- `validate_change_request` and `merge_changes`: what a change of settings may contain, and what it does
-- to the overlay.
pub mod Merging
pub mod Checking
use kitt_assistant.ControlCenter.Values.{validate_value}
use kitt_assistant.Base.{
  decimal, refl, ◌≡◌, ◌≢◌, ◌↔◌, ◌⊎◌, inl, inr, sym, ap, subst, ◌∙◌, Bool, true, false, not, ◌&&◌,
  ◌||◌, Option, none, some, List, [], ◌∷◌, ◌++◌, map, reverse, ℕ, zero, suc, ◌+◌, ◌-◌, ◌*◌, ◌/◌,
  ◌%◌, ◌^◌, ◌≤◌, ◌<◌, min, max, arith, String, Text, ltb, leb, ◌==◌, if◌then◌else◌, Result, ok, err,
  ◌>>=◌, ◌>>◌, refuse_if, ok_or, map_err, length, take, drop, all, any, All, codes, bytes, text_eq,
  text_eq_iff, is_empty, starts_with, Bool-cases, Option-cases, Result-cases, if-of_true,
  if-of_false, and-true, >>=-eq-ok,
}
use kitt_assistant.ControlCenter.Json.{
  Json, null, boolean, unsigned, negative, double, string, array, object, Items, no_items, item,
  Fields, no_fields, field, as_bool, as_u64, as_str, as_array, as_object, is_some, and_then,
  unwrap_or, get_field, insert, get, any_item, all_items, find, is_text, Doubles, as_f64,
}

-- `sort` and `dedup` on texts, which Rust orders by their scalar values.
abbrev text_le : Text → Text → Bool
text_le [] t = true
text_le (a ∷ s) [] = false
text_le (a ∷ s) (b ∷ t) = ltb a b || (a == b && text_le s t)

abbrev insert_text : Text → List Text → List Text
insert_text s [] = s ∷ []
insert_text s (t ∷ ts) =
    let rest = insert_text s ts in
    if text_eq s t then t ∷ ts else if text_le s t then s ∷ t ∷ ts else t ∷ rest

unfoldable pub sort_dedup : List Text → List Text
sort_dedup [] = []
sort_dedup (t ∷ ts) = insert_text t (sort_dedup ts)

-- The catalog's section with an id, and the field of a section with a key.
abbrev pub named : Text → Text → Json → Bool
named attribute name v = is_text name (and_then (get attribute v) as_str)

unfoldable pub find_section : Items → Text → Option Json
find_section sections id = find (named (codes "id") id) sections

unfoldable pub find_setting : Items → Text → Option Json
find_setting settings key = find (named (codes "key") key) settings

abbrev pub revision_of : Json → ℕ
revision_of overlay = unwrap_or 0 (and_then (get (codes "revision") overlay) as_u64)

-- `apply_mode` is there and is not `live`.
unfoldable pub needs_restart : Json → Bool
needs_restart fd = elim (and_then (get (codes "apply_mode") fd) as_str) [
  | none ↦ false
  | some mode ↦ not (text_eq mode (codes "live"))
]

module _ (ds : Doubles) where
  -- The loop over the settings of one section; `restart` is what the loops have collected.
  unfoldable pub check_settings : Items → Text → Fields → List Text → Result Text (List Text)
  check_settings settings section no_fields restart = ok restart
  check_settings settings section (field key value rest) restart = do
    fd ← ok_or (find_setting settings key) (codes "unknown setting " ++ section ++ codes "." ++ key)
    map_err (λ e. section ++ codes "." ++ key ++ codes ": " ++ e) (validate_value ds fd value)
    check_settings settings section rest
        (if needs_restart fd then restart ++ (section ∷ []) else restart)

  -- The body of the loop over the sections.
  unfoldable pub check_section : Items → Text → Json → List Text → Result Text (List Text)
  check_section sections id changes restart = do
    section ← ok_or (find_section sections id) (codes "unknown settings section " ++ id)
    settings ←
        ok_or (and_then (get (codes "fields") section) as_array) (codes "catalog fields missing")
    values ← ok_or (as_object changes) (id ++ codes " changes must be an object")
    check_settings settings id values restart

  -- The loop over the sections.
  unfoldable pub check_sections : Items → Fields → List Text → Result Text (List Text)
  check_sections sections no_fields restart = ok restart
  check_sections sections (field id changes rest) restart = do
    collected ← check_section sections id changes restart
    check_sections sections rest collected

  -- `validate_change_request`: the changes, and the sections that need a restart.
  unfoldable pub validate_change_request : Json → Json → Json → Result Text (Fields × List Text)
  validate_change_request payload overlay catalog = do
    expected ←
        ok_or (and_then (get (codes "expected_revision") payload) as_u64)
          (codes "expected_revision is required")
    refuse_if (not (expected == revision_of overlay)) (
        codes "revision conflict: expected "
        ++ decimal expected
        ++ codes ", current "
        ++ decimal (revision_of overlay))
    changes ←
        ok_or (and_then (get (codes "changes") payload) as_object)
          (codes "changes must be an object")
    sections ←
        ok_or (and_then (get (codes "sections") catalog) as_array)
          (codes "catalog sections missing")
    restart ← check_sections sections changes []
    ok (changes, sort_dedup restart)

-- The inner loop of `merge_changes`.
unfoldable pub merge_values : Fields → Fields → Fields
merge_values target no_fields = target
merge_values target (field key value rest) = merge_values (insert key value target) rest

abbrev pub no_entries : Json
no_entries = object no_fields

-- The outer loop of `merge_changes`, on the overlay's components.
unfoldable pub merge_sections : Fields → Fields → Result Text Fields
merge_sections components no_fields = ok components
merge_sections components (field section values rest) = do
  target ←
      ok_or (as_object (unwrap_or no_entries (get_field section components)))
        (codes "section override invalid")
  changes ← ok_or (as_object values) (codes "section changes invalid")
  merge_sections (insert section (object (merge_values target changes)) components) rest

-- `merge_changes`: the overlay that it leaves.
unfoldable pub merge_changes : Json → Fields → Result Text Json
merge_changes overlay changes = do
  root ← ok_or (as_object overlay) (codes "overlay root invalid")
  components ←
      ok_or (as_object (unwrap_or no_entries (get_field (codes "components") root)))
        (codes "overlay components invalid")
  merged ← merge_sections components changes
  ok (object (insert (codes "components") (object merged) root))
