-- ===== src/ControlCenter/Changes/Checking.antt =====
-- What a change request that passes the checks contains.
use kitt_assistant.ControlCenter.Changes.Merging.{or_else, last_value, changed}
use kitt_assistant.ControlCenter.Changes.{
  check_section, find_setting, find_section, check_sections, check_settings,
}
use kitt_assistant.Base.{
  map_err-eq-ok, ok_or-eq-ok, refl, ◌≡◌, ◌⊎◌, inl, inr, subst, Bool, true, false, Option, none,
  some, List, arith, Text, if◌then◌else◌, ok, codes, text_eq, text_eq_iff, Bool-cases, Option-cases,
  >>=-eq-ok,
}
use kitt_assistant.ControlCenter.Json.{
  Json, Items, Fields, no_fields, field, as_array, as_object, and_then, get, Doubles,
}
use kitt_assistant.ControlCenter.Values.{validate_value}

module _ (ds : Doubles) where
  -- The catalog knows the setting, and its field accepts the value.
  pub record Accepts (sections : Items) (section key : Text) (value : Json) : Type 0 where
    pub entry : Json
    pub settings : Items
    pub fd : Json
    pub known_section : find_section sections section ≡ some entry
    pub has_settings : and_then (get (codes "fields") entry) as_array ≡ some settings
    pub known_setting : find_setting settings key ≡ some fd
    pub accepted : validate_value ds fd value ≡ ok tt

  -- A setting that the checks of a section let through.
  check_settings-Accepts :
      (settings : Items) (section : Text) (changes : Fields) (restart collected : List Text)
      → check_settings ds settings section changes restart ≡ ok collected
      → (key : Text) (value : Json) → last_value key changes ≡ some value
      → (fd : Json) × (find_setting settings key ≡ some fd) × (validate_value ds fd value ≡ ok tt)
  unfolding check_settings last_value
  check_settings-Accepts settings section no_fields restart collected e key value given = cc
  check_settings-Accepts settings section (field k v rest) restart collected e key value given =
      let (fd, known, e₁) = >>=-eq-ok _ _ e in
      let (u, fits, e₂) = >>=-eq-ok _ _ e₁ in
      let found : find_setting settings k ≡ some fd = ok_or-eq-ok _ _ known in
      let fitting : validate_value ds fd v ≡ ok tt = map_err-eq-ok _ _ fits in
      elim (Option-cases (last_value key rest)) [
        | inr (w, later) ↦
            check_settings-Accepts settings section rest _ collected e₂ key value
              (ground (arith, later))
        | inl absent ↦ elim (Bool-cases (text_eq k key)) [
          | inl same ↦
              let k-eq : k ≡ key = (text_eq_iff k key).0 same in
              let v-eq : v ≡ value = ground arith in
              (
                fd,
                subst (λ x. find_setting settings x ≡ some fd) k-eq found,
                subst (λ x. validate_value ds fd x ≡ ok tt) v-eq fitting,
              )
          | inr differs ↦ let impossible : ⊥ = ground arith in absurd impossible
        ]
      ]

  -- Where a setting's new value stands: in later sections, or in this one.
  or_else_cases :
      (o p : Option Json) (value : Json)
      → or_else o p ≡ some value
      → (o ≡ some value) ⊎ (p ≡ some value)
  or_else_cases none p value e = inr e
  or_else_cases (some v) p value e = inl e

  when_true :
      (b : Bool) (o : Option Json) (value : Json)
      → (if b then o else none) ≡ some value
      → (b ≡ true) × (o ≡ some value)
  when_true true o value e = (refl, e)
  when_true false o value e = cc

  check_section-Accepts :
      (sections : Items) (s : Text) (v : Json) (restart collected : List Text)
      → check_section ds sections s v restart ≡ ok collected
      → (key : Text) (value : Json) → and_then (as_object v) (last_value key) ≡ some value
      → Accepts sections s key value
  unfolding check_section
  check_section-Accepts sections s v restart collected e key value given =
      let (entry, known, e₁) = >>=-eq-ok _ _ e in
      let (settings, listed, e₂) = >>=-eq-ok _ _ e₁ in
      let (values, whole, e₃) = >>=-eq-ok _ _ e₂ in
      let object_of : as_object v ≡ some values = ok_or-eq-ok _ _ whole in
      let (fd, found, fits) =
        check_settings-Accepts settings s values restart collected e₃ key value
          (subst (λ o. and_then o (last_value key) ≡ some value) object_of given) in
      record {
        entry = entry;
        settings = settings;
        fd = fd;
        known_section = ok_or-eq-ok _ _ known;
        has_settings = ok_or-eq-ok _ _ listed;
        known_setting = found;
        accepted = fits;
      }

  -- Every setting that a checked change gives a value is known to the catalog, and its field accepts the
  -- value.
  pub check_sections-Accepts :
      (sections : Items) (changes : Fields) (restart collected : List Text)
      → check_sections ds sections changes restart ≡ ok collected
      → (section key : Text) (value : Json) → changed section key changes ≡ some value
      → Accepts sections section key value
  unfolding check_sections changed
  check_sections-Accepts sections no_fields restart collected e section key value given = cc
  check_sections-Accepts sections (field s v rest) restart collected e section key value given =
      let (after, checked, e₁) = >>=-eq-ok (check_section ds sections s v restart) _ e in
      elim (or_else_cases (changed section key rest) _ value given) [
        | inl later ↦
            check_sections-Accepts sections rest after collected e₁ section key value later
        | inr here ↦
            let (same, inside) = when_true (text_eq s section) _ value here in
            let s-eq : s ≡ section = (text_eq_iff s section).0 same in
            subst (λ x. Accepts sections x key value) s-eq
              (check_section-Accepts sections s v restart after checked key value inside)
      ]
