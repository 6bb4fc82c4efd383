-- ===== src/SettingsOverlay/Reading.antt =====
-- The Control Center's writes and the daemon's reads of the overrides.
use kitt_assistant.ControlCenter.Json.Laws.{get_field-insert}
use kitt_assistant.Base.{
  refl, ◌≡◌, sym, ap, subst, ◌∙◌, Bool, true, Option, none, some, arith, Text, Result, ok, ◌>>=◌,
  ok_or, codes, text_eq, ok_or-eq-ok, >>=-eq-ok,
}
use kitt_assistant.ControlCenter.Json.{
  Json, null, boolean, unsigned, negative, double, string, array, object, Fields, no_fields, as_u64,
  as_object, and_then, unwrap_or, get_field, insert, get,
}
use kitt_assistant.SettingsOverlay.{section_of, is_one, fields_of}
use kitt_assistant.ControlCenter.Changes.{no_entries, merge_changes, merge_sections}
use kitt_assistant.ControlCenter.Changes.Merging.{changed, or_else, setting, merge_sections-setting}

-- What the daemon reads of one setting.
abbrev pub reads : Json → Text → Text → Result Text (Option Json)
reads root id key = section_of root id >>= λ fields. ok (get_field key fields)

some_eq : {A : Type 0} (a b : A) → some a ≡ some b → a ≡ b
some_eq a b e = ground arith

ok_eq : {A : Type 0} (a b : A) → ◌≡◌ {A = Result Text A} (ok a) (ok b) → a ≡ b
ok_eq a b e = ground arith

as_object-eq : (root : Json) (r : Fields) → as_object root ≡ some r → root ≡ object r
as_object-eq null r e = cc
as_object-eq (boolean b) r e = cc
as_object-eq (unsigned n) r e = cc
as_object-eq (negative n) r e = cc
as_object-eq (double b) r e = cc
as_object-eq (string t) r e = cc
as_object-eq (array xs) r e = cc
as_object-eq (object fs) r e = ground arith

get_field-fields_of :
    (o : Option Json) (key : Text)
    → get_field key (fields_of o) ≡ and_then (and_then o as_object) (get_field key)
unfolding get_field
get_field-fields_of o key = ground arith

-- A section is looked up in the components that the Control Center merges into.
section_fields :
    (o : Option Json) (components : Fields) (id key : Text)
    → as_object (unwrap_or no_entries o) ≡ some components
    → get_field key (fields_of (and_then (and_then o as_object) (get_field id)))
      ≡ setting id key components
unfolding get_field
section_fields none components id key e =
    subst (λ c. ◌≡◌ {A = Option Json} none (setting id key c)) (some_eq no_fields components e) refl
section_fields (some v) components id key e =
    rw e (get_field-fields_of (get_field id components) key)

module _ (r merged : Fields) where
  abbrev stored : Json
  stored = object (insert (codes "components") (object merged) r)

  same_version : get (codes "schema_version") stored ≡ get_field (codes "schema_version") r
  unfolding text_eq
  same_version = get_field-insert (codes "components") (codes "schema_version") (object merged) r

  new_components : get (codes "components") stored ≡ some (object merged)
  unfolding text_eq
  new_components = get_field-insert (codes "components") (codes "components") (object merged) r

-- The version that the daemon takes.
abbrev is_version_one : Fields → Bool
is_version_one r = is_one (and_then (get_field (codes "schema_version") r) as_u64)

module _ (id key : Text) where
  reads-eq-ok :
      (r components : Fields)
      → is_version_one r ≡ true
      → as_object (unwrap_or no_entries (get_field (codes "components") r)) ≡ some components
      → reads (object r) id key ≡ ok (setting id key components)
  unfolding section_of
  reads-eq-ok r components one inside =
      rw one (ap ok (section_fields (get_field (codes "components") r) components id key inside))

  reads_version :
      (r : Fields) (before : Option Json)
      → reads (object r) id key ≡ ok before
      → is_version_one r ≡ true
  unfolding section_of
  reads_version r before e = ground arith

-- After the Control Center has merged changes into an overlay of the version that the daemon takes, the daemon
-- reads for each setting of each section the value that the changes gave it, or else the value that
-- it would have read before.
pub merge_changes-reads :
    (root root' : Json) (changes : Fields) (id key : Text) (before : Option Json)
    → merge_changes root changes ≡ ok root'
    → reads root id key ≡ ok before
    → reads root' id key ≡ ok (or_else (changed id key changes) before)
unfolding merge_changes section_of
merge_changes-reads root root' changes id key before e f =
    let (r, is_root, e₁) = >>=-eq-ok (ok_or (as_object root) (codes "overlay root invalid")) _ e in
    let (components, inside, e₂) =
      >>=-eq-ok
        (ok_or (as_object (unwrap_or no_entries (get_field (codes "components") r)))
          (codes "overlay components invalid"))
        _ e₁ in
    let (merged, m, e₃) = >>=-eq-ok (merge_sections components changes) _ e₂ in
    let root-eq = as_object-eq root r (ok_or-eq-ok _ _ is_root) in
    let f' = subst (λ x. reads x id key ≡ ok before) root-eq f in
    let one = reads_version id key r before f' in
    let held = ok_or-eq-ok _ _ inside in
    let old =
      ok_eq (setting id key components) before
        (sym (reads-eq-ok id key r components one held) ∙ f') in
    let new =
      reads-eq-ok id key (insert (codes "components") (object merged) r) merged
        (ap (λ o. is_one (and_then o as_u64)) (same_version r merged) ∙ one)
        (ap (λ o. as_object (unwrap_or no_entries o)) (new_components r merged)) in
    let read = new ∙ ap ok (merge_sections-setting components changes merged id key m) in
    subst (λ x. reads x id key ≡ ok (or_else (changed id key changes) before))
      (ok_eq (stored r merged) root' e₃)
      (subst (λ b. reads (stored r merged) id key ≡ ok (or_else (changed id key changes) b)) old
        read)
