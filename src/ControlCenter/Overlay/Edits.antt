-- ===== src/ControlCenter/Overlay/Edits.antt =====
-- What an accepted change makes of an overlay.
use kitt_assistant.Base.{
  refl, ◌≡◌, sym, ap, subst, ◌∙◌, false, Option, none, some, ℕ, Text, if◌then◌else◌, Result, ok,
  err, ok_or, codes, text_eq, text_eq_iff, >>=-eq-ok,
}
use kitt_assistant.ControlCenter.Json.{
  Json, null, boolean, unsigned, negative, double, string, array, object, Fields, no_fields, as_u64,
  as_object, and_then, unwrap_or, get_field, insert, get,
}
use kitt_assistant.ControlCenter.Json.Laws.{get_field-insert}
use kitt_assistant.ControlCenter.Changes.{merge_changes, merge_sections, no_entries, revision_of}
use kitt_assistant.ControlCenter.Changes.Merging.{or_else, setting, changed, merge_sections-setting}
use kitt_assistant.ControlCenter.Overlay.{bump_revision, next_revision}

abbrev pub components_of : Json → Fields
components_of overlay = unwrap_or no_fields (and_then (get (codes "components") overlay) as_object)

-- The value of a setting in an overlay.
abbrev pub setting_of : Text → Text → Json → Option Json
setting_of section key overlay = setting section key (components_of overlay)

-- The edit of one entry of an object.
get-insert :
    (k k' : Text) (v : Json) (fs : Fields)
    → get k' (object (insert k v fs)) ≡ (if text_eq k k' then some v else get k' (object fs))
get-insert k k' v fs = get_field-insert k k' v fs

get-insert_other :
    (k k' : Text) (v : Json) (fs : Fields)
    → text_eq k k' ≡ false
    → get k' (object (insert k v fs)) ≡ get k' (object fs)
get-insert_other k k' v fs e = rw (get-insert k k' v fs) (rw e refl)

get-insert_same : (k : Text) (v : Json) (fs : Fields) → get k (object (insert k v fs)) ≡ some v
get-insert_same k v fs = rw (get-insert k k v fs) (rw ((text_eq_iff k k).1 refl) refl)

abbrev unwrap_ok : {A : Type 0} → A → Result Text A → A
unwrap_ok d (ok a) = a
unwrap_ok d (err e) = d

pub ok-injective : {A : Type 0} (a b : A) → (let r : Result Text A = ok a in r ≡ ok b) → a ≡ b
ok-injective a b e = ap (unwrap_ok a) e

pub ok_pair-injective :
    {A B : Type 0} (a a' : A) (b b' : B)
    → (let r : Result Text (A × B) = ok (a, b) in r ≡ ok (a', b'))
    → a ≡ a'
ok_pair-injective a a' b b' e = ap (λ p. p.0) (ok-injective (a, b) (a', b') e)

-- An overlay that keeps what another one says besides its revision and its time.
pub record KeepsEntries (old new : Json) : Type 0 where
  pub version : get (codes "schema_version") new ≡ get (codes "schema_version") old
  pub components : get (codes "components") new ≡ get (codes "components") old

pub bump_revision-KeepsEntries :
    (overlay bumped : Json) (now : ℕ)
    → bump_revision overlay now ≡ ok bumped
    → KeepsEntries overlay bumped × (revision_of bumped ≡ next_revision (revision_of overlay))
unfolding bump_revision text_eq
bump_revision-KeepsEntries (object root) bumped now e =
    let revision = unsigned (next_revision (revision_of (object root))) in
    let bumped_once = insert (codes "revision") revision root in
    subst
      (λ b.
        KeepsEntries (object root) b × (revision_of b ≡ next_revision (revision_of (object root))))
      (ok-injective _ _ e)
      (
        record {
          version =
              get-insert_other _ (codes "schema_version") (unsigned now) bumped_once refl
              ∙ get-insert_other _ (codes "schema_version") revision root refl;
          components =
              get-insert_other _ (codes "components") (unsigned now) bumped_once refl
              ∙ get-insert_other _ (codes "components") revision root refl;
        },
        ap (λ o. unwrap_or 0 (and_then o as_u64))
            (get-insert_other _ (codes "revision") (unsigned now) bumped_once refl
              ∙ get-insert_same (codes "revision") revision root),
      )
bump_revision-KeepsEntries null bumped now e = cc
bump_revision-KeepsEntries (boolean _) bumped now e = cc
bump_revision-KeepsEntries (unsigned _) bumped now e = cc
bump_revision-KeepsEntries (negative _) bumped now e = cc
bump_revision-KeepsEntries (double _) bumped now e = cc
bump_revision-KeepsEntries (string _) bumped now e = cc
bump_revision-KeepsEntries (array _) bumped now e = cc

-- What a merge leaves of an overlay: every entry but the components, in which each setting has its last
-- new value, or else the value that it had.
pub record Merges (overlay : Json) (changes : Fields) (merged : Json) : Type 0 where
  pub version : get (codes "schema_version") merged ≡ get (codes "schema_version") overlay
  pub revision : revision_of merged ≡ revision_of overlay
  pub whole : (fs : Fields) × (get (codes "components") merged ≡ some (object fs))
  pub settings :
      (section key : Text)
      → setting_of section key merged
        ≡ or_else (changed section key changes) (setting_of section key overlay)

components_found :
    (o : Option Json) (components : Fields)
    → ok_or (as_object (unwrap_or no_entries o)) (codes "overlay components invalid")
      ≡ ok components
    → unwrap_or no_fields (and_then o as_object) ≡ components
components_found none components e = ok-injective _ _ e
components_found (some (object fs)) components e = ok-injective _ _ e
components_found (some null) components e = cc
components_found (some (boolean _)) components e = cc
components_found (some (unsigned _)) components e = cc
components_found (some (negative _)) components e = cc
components_found (some (double _)) components e = cc
components_found (some (string _)) components e = cc
components_found (some (array _)) components e = cc

merged-Merges :
    (root components changes merged : Fields)
    → components_of (object root) ≡ components
    → merge_sections components changes ≡ ok merged
    → Merges (object root) changes (object (insert (codes "components") (object merged) root))
unfolding text_eq
merged-Merges root components changes merged found e =
    let here = get-insert_same (codes "components") (object merged) root in
    record {
      version = get-insert_other _ (codes "schema_version") (object merged) root refl;
      revision =
          ap (λ o. unwrap_or 0 (and_then o as_u64))
            (get-insert_other _ (codes "revision") (object merged) root refl);
      whole = (merged, here);
      settings = λ section key.
          ap (λ o. setting section key (unwrap_or no_fields (and_then o as_object))) here
          ∙ merge_sections-setting components changes merged section key e
          ∙ ap (λ fs. or_else (changed section key changes) (setting section key fs)) (sym found);
    }

pub merge_changes-Merges :
    (overlay : Json) (changes : Fields) (new : Json)
    → merge_changes overlay changes ≡ ok new
    → Merges overlay changes new
unfolding merge_changes
merge_changes-Merges (object root) changes new e =
    let (components, found, e₁) =
      >>=-eq-ok
        (ok_or (as_object (unwrap_or no_entries (get_field (codes "components") root)))
          (codes "overlay components invalid"))
        _ e in
    let (merged, joined, e₂) = >>=-eq-ok (merge_sections components changes) _ e₁ in
    subst (Merges (object root) changes) (ok-injective _ _ e₂) (
      merged-Merges root components changes merged
        (components_found (get_field (codes "components") root) components found) joined)
merge_changes-Merges null changes new e = cc
merge_changes-Merges (boolean _) changes new e = cc
merge_changes-Merges (unsigned _) changes new e = cc
merge_changes-Merges (negative _) changes new e = cc
merge_changes-Merges (double _) changes new e = cc
merge_changes-Merges (string _) changes new e = cc
merge_changes-Merges (array _) changes new e = cc
