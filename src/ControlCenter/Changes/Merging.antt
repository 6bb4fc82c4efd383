-- ===== src/ControlCenter/Changes/Merging.antt =====
-- Which settings an overlay has after a merge.
use kitt_assistant.ControlCenter.Json.Laws.{get_field-insert}
use kitt_assistant.ControlCenter.Changes.{merge_sections, no_entries, merge_values}
use kitt_assistant.Base.{
  ok_or-eq-ok, refl, ◌≡◌, inl, inr, sym, ap, subst, ◌∙◌, Bool, true, false, Option, none, some,
  arith, Text, if◌then◌else◌, ok, ok_or, codes, text_eq, text_eq_iff, Bool-cases, >>=-eq-ok,
}
use kitt_assistant.ControlCenter.Json.{
  Json, null, boolean, unsigned, negative, double, string, array, object, Fields, no_fields, field,
  as_object, and_then, unwrap_or, get_field, insert,
}

-- The first of two optional values that is there.
abbrev pub or_else : Option Json → Option Json → Option Json
or_else none p = p
or_else (some v) p = some v

-- The value of one setting in the components of an overlay.
abbrev pub setting : Text → Text → Fields → Option Json
setting section key components =
    and_then (and_then (get_field section components) as_object) (get_field key)

-- The last value that a list of entries gives a key, and that changes give a setting.
unfoldable pub last_value : Text → Fields → Option Json
last_value key no_fields = none
last_value key (field k v rest) =
    or_else (last_value key rest) (if text_eq k key then some v else none)

unfoldable pub changed : Text → Text → Fields → Option Json
changed section key no_fields = none
changed section key (field s v rest) =
    or_else (changed section key rest)
      (if text_eq s section then and_then (as_object v) (last_value key) else none)

or_else_assoc : (o p q : Option Json) → or_else (or_else o p) q ≡ or_else o (or_else p q)
or_else_assoc none p q = refl
or_else_assoc (some v) p q = refl

or_else_if :
    (b : Bool) (v : Json) (o : Option Json)
    → (if b then some v else o) ≡ or_else (if b then some v else none) o
or_else_if true v o = refl
or_else_if false v o = refl

get_field-merge_values :
    (target changes : Fields) (key : Text)
    → get_field key (merge_values target changes)
      ≡ or_else (last_value key changes) (get_field key target)
unfolding merge_values last_value
get_field-merge_values target no_fields key = refl
get_field-merge_values target (field k v rest) key =
    get_field-merge_values (insert k v target) rest key
    ∙ ap (or_else (last_value key rest))
        (get_field-insert k key v target ∙ or_else_if (text_eq k key) v (get_field key target))
    ∙ sym (or_else_assoc (last_value key rest) _ _)

setting-insert :
    (s section key : Text) (fs components : Fields)
    → setting section key (insert s (object fs) components)
      ≡ (if text_eq s section then get_field key fs else setting section key components)
setting-insert s section key fs components =
    rw (get_field-insert s section (object fs) components)
      (elim (Bool-cases (text_eq s section)) [ inl e ↦ rw e refl | inr e ↦ rw e refl ])

-- Merging a section that succeeds, in terms of the settings.
target_setting :
    (section key : Text) (components target : Fields)
    → ok_or
        (as_object (unwrap_or no_entries (get_field section components)))
        (codes "section override invalid")
      ≡ ok target
    → get_field key target ≡ setting section key components
unfolding get_field
target_setting section key components target e = go (get_field section components) e
  where
    go :
        (o : Option Json)
        → ok_or (as_object (unwrap_or no_entries o)) (codes "section override invalid") ≡ ok target
        → get_field key target ≡ and_then (and_then o as_object) (get_field key)
    go none p = let same : target ≡ no_fields = ground arith in ap (get_field key) same
    go (some (object fs)) p = ap (get_field key) (ground arith)
    go (some null) p = cc
    go (some (boolean _)) p = cc
    go (some (unsigned _)) p = cc
    go (some (negative _)) p = cc
    go (some (double _)) p = cc
    go (some (string _)) p = cc
    go (some (array _)) p = cc

-- What one section's changes do to any setting.
section_step :
    (components target values : Fields) (v : Json) (s section key : Text)
    → ok_or
        (as_object (unwrap_or no_entries (get_field s components)))
        (codes "section override invalid")
      ≡ ok target
    → as_object v ≡ some values
    → setting section key (insert s (object (merge_values target values)) components)
      ≡ or_else
          (if text_eq s section then and_then (as_object v) (last_value key) else none)
          (setting section key components)
section_step components target values v s section key found given =
    setting-insert s section key (merge_values target values) components
    ∙ elim (Bool-cases (text_eq s section)) [
      | inl e ↦
          let same : s ≡ section = (text_eq_iff s section).0 e in
          rw (e, given)
            (get_field-merge_values target values key
              ∙ ap (or_else (last_value key values)) (
                  target_setting s key components target found
                  ∙ ap (λ x. setting x key components) same))
      | inr e ↦ rw e refl
    ]

-- Where a merge succeeds, every setting has the last value that the changes give it, or else the value
-- that it had.
pub merge_sections-setting :
    (components changes merged : Fields) (section key : Text)
    → merge_sections components changes ≡ ok merged
    → setting section key merged
      ≡ or_else (changed section key changes) (setting section key components)
unfolding merge_sections changed
merge_sections-setting components no_fields merged section key e =
    subst (λ m. setting section key m ≡ setting section key components) (ground arith) refl
merge_sections-setting components (field s v rest) merged section key e =
    let (target, found, e₁) = >>=-eq-ok _ _ e in
    let (values, given, e₂) = >>=-eq-ok _ _ e₁ in
    merge_sections-setting (insert s (object (merge_values target values)) components) rest merged
      section key e₂
    ∙ ap (or_else (changed section key rest))
        (section_step components target values v s section key found (ok_or-eq-ok _ _ given))
    ∙ sym (or_else_assoc (changed section key rest) _ _)
