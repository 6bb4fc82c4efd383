-- ===== src/ControlCenter/Values.antt =====
-- `validate_value`: whether a value may be stored in a field of the catalog.
pub mod Forms
pub mod Laws
use kitt_assistant.Base.{
  is_ascii_alphanumeric, refl, ◌≡◌, ◌≢◌, ◌↔◌, ◌⊎◌, inl, inr, sym, ap, subst, ◌∙◌, Bool, true, false,
  not, ◌&&◌, ◌||◌, Option, none, some, List, [], ◌∷◌, ◌++◌, map, reverse, ℕ, zero, suc, ◌+◌, ◌-◌,
  ◌*◌, ◌/◌, ◌%◌, ◌^◌, ◌≤◌, ◌<◌, min, max, arith, String, Text, ltb, leb, ◌==◌, if◌then◌else◌,
  Result, ok, err, ◌>>=◌, ◌>>◌, refuse_if, ok_or, map_err, length, take, drop, all, any, All, codes,
  bytes, text_eq, text_eq_iff, is_empty, starts_with, Bool-cases, Option-cases, Result-cases,
  if-of_true, if-of_false, and-true, >>=-eq-ok,
}
use kitt_assistant.ControlCenter.Json.{
  Json, null, boolean, unsigned, negative, double, string, array, object, Items, no_items, item,
  Fields, no_fields, field, as_bool, as_u64, as_str, as_array, as_object, is_some, and_then,
  unwrap_or, get_field, insert, get, any_item, all_items, find, is_text, Doubles, as_f64,
}

module _ (ds : Doubles) where
  open ds use {F, lt}

  abbrev pub is_integer : Json → Bool
  is_integer (unsigned _) = true
  is_integer (negative _) = true
  is_integer _ = false

  abbrev pub is_one_of : Text → List Text → Bool
  is_one_of kind kinds = any (text_eq kind) kinds

  abbrev pub is_array_of_strings : Option Items → Bool
  is_array_of_strings none = false
  is_array_of_strings (some xs) = all_items (λ x. is_some (as_str x)) xs

  -- The `match kind` that gives `type_ok`.
  unfoldable pub type_ok : Text → Json → Bool
  type_ok kind value =
      if text_eq kind (codes "boolean")
      then is_some (as_bool value)
      else if text_eq kind (codes "integer")
      then is_integer value
      else if text_eq kind (codes "number")
      then is_some (as_f64 ds value)
      else if is_one_of kind
          (codes "string" ∷ codes "path" ∷ codes "url" ∷ codes "secret_ref" ∷ codes "enum" ∷ [])
      then is_some (as_str value)
      else if text_eq kind (codes "string_list")
      then is_array_of_strings (as_array value)
      else false

  -- `is_some_and(|bound| …)` on the two bounds of a field.
  abbrev pub exceeds : (F → F → Bool) → Option F → Option F → Bool
  exceeds beyond none bound = false
  exceeds beyond (some n) none = false
  exceeds beyond (some n) (some b) = beyond n b

  abbrev pub bound_of : Text → Json → Option F
  bound_of name fd = and_then (get name fd) (as_f64 ds)

  unfoldable pub is_option : Text → Json → Bool
  is_option v fd = elim (and_then (get (codes "options") fd) as_array) [
    | none ↦ false
    | some options ↦ any_item (λ o. is_text v (as_str o)) options
  ]

  -- The tests of an `enum`, a `url` and a `secret_ref`.
  unfoldable pub has_scheme : Text → Bool
  has_scheme v = starts_with v (codes "http://") || starts_with v (codes "https://")

  unfoldable pub is_identifier : Text → Bool
  is_identifier v = is_empty v || all (λ b. is_ascii_alphanumeric b || b == b'_') (bytes v)

  abbrev pub text_of : Json → Text
  text_of value = unwrap_or [] (as_str value)

  unfoldable pub validate_value : Json → Json → Result Text (Unit {0})
  validate_value fd value = do
    kind ← ok_or (and_then (get (codes "type") fd) as_str) (codes "field type missing")
    refuse_if (not (type_ok kind value)) (codes "expected " ++ kind)
    refuse_if (exceeds lt (as_f64 ds value) (bound_of (codes "minimum") fd)) (codes "below minimum")
    refuse_if (exceeds (λ n b. lt b n) (as_f64 ds value) (bound_of (codes "maximum") fd))
        (codes "above maximum")
    refuse_if (text_eq kind (codes "enum") && not (is_option (text_of value) fd))
        (codes "value is not in enum options")
    refuse_if (text_eq kind (codes "url") && not (has_scheme (text_of value)))
        (codes "URL must use http:// or https://")
    refuse_if (text_eq kind (codes "secret_ref") && not (is_identifier (text_of value)))
        (codes "secret_ref must be an environment/credential identifier")
