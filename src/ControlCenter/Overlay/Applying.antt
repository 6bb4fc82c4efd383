-- ===== src/ControlCenter/Overlay/Applying.antt =====
-- What `PUT /api/v1/config` does to the overlay file.
use kitt_assistant.Base.{
  refuse_if-not-eq-ok, ok_or-eq-ok, decimal, ==_iff, ◌≡◌, sym, ap, subst, ◌∙◌, not, some, List, [],
  ◌++◌, ℕ, Text, ◌==◌, ok, refuse_if, ok_or, codes, >>=-eq-ok,
}
use kitt_assistant.ControlCenter.Json.{
  Json, object, Items, Fields, no_fields, as_u64, as_array, as_object, and_then, unwrap_or, get,
  Doubles,
}
use kitt_assistant.ControlCenter.Changes.{
  merge_changes, revision_of, check_sections, validate_change_request,
}
use kitt_assistant.ControlCenter.Changes.Merging.{setting, or_else, changed}
use kitt_assistant.ControlCenter.Changes.Checking.{Accepts, check_sections-Accepts}
use kitt_assistant.ControlCenter.Overlay.Edits.{
  ok_pair-injective, setting_of, merge_changes-Merges, bump_revision-KeepsEntries, Merges,
  components_of,
}
use kitt_assistant.ControlCenter.Overlay.{bump_revision, next_revision, edit_overlay}

module _ (ds : Doubles) (catalog : Json) where
  -- A request that the checks let through, with the changes that it asks for.
  pub record Allowed (payload overlay : Json) (changes : Fields) : Type 0 where
    pub same_revision :
        and_then (get (codes "expected_revision") payload) as_u64 ≡ some (revision_of overlay)
    pub asked : and_then (get (codes "changes") payload) as_object ≡ some changes
    pub sections : Items
    pub listed : and_then (get (codes "sections") catalog) as_array ≡ some sections
    pub accepted :
        (section key : Text) (value : Json)
        → changed section key changes ≡ some value
        → Accepts ds sections section key value

  pub validate_change_request-Allowed :
      (payload overlay : Json) (changes : Fields) (restart : List Text)
      → validate_change_request ds payload overlay catalog ≡ ok (changes, restart)
      → Allowed payload overlay changes
  unfolding validate_change_request
  validate_change_request-Allowed payload overlay changes restart e =
      let given = and_then (get (codes "expected_revision") payload) as_u64 in
      let (expected, numbered, e₁) =
        >>=-eq-ok (ok_or given (codes "expected_revision is required")) _ e in
      let conflict =
        codes "revision conflict: expected "
        ++ decimal expected
        ++ codes ", current "
        ++ decimal (revision_of overlay) in
      let (u, current, e₂) =
        >>=-eq-ok (refuse_if (not (expected == revision_of overlay)) conflict) _ e₁ in
      let asked = and_then (get (codes "changes") payload) as_object in
      let (fs, given_changes, e₃) =
        >>=-eq-ok (ok_or asked (codes "changes must be an object")) _ e₂ in
      let listed = and_then (get (codes "sections") catalog) as_array in
      let (sections, in_catalog, e₄) =
        >>=-eq-ok (ok_or listed (codes "catalog sections missing")) _ e₃ in
      let (collected, checked, e₅) = >>=-eq-ok (check_sections ds sections fs []) _ e₄ in
      let same : fs ≡ changes = ok_pair-injective fs changes _ _ e₅ in
      let revision-eq : expected ≡ revision_of overlay =
        (==_iff _ _).0 (refuse_if-not-eq-ok (expected == revision_of overlay) conflict current) in
      record {
        same_revision = subst (λ n. given ≡ some n) revision-eq (ok_or-eq-ok given _ numbered);
        asked = subst (λ c. asked ≡ some c) same (ok_or-eq-ok asked _ given_changes);
        sections = sections;
        listed = ok_or-eq-ok listed _ in_catalog;
        accepted = λ section key value h.
            check_sections-Accepts ds sections fs [] collected checked section key value
              (subst (λ c. changed section key c ≡ some value) (sym same) h);
      }

  -- The overlay that an edit makes of an old one.
  pub record Edited (payload overlay new : Json) : Type 0 where
    pub changes : Fields
    pub allowed : Allowed payload overlay changes
    pub version : get (codes "schema_version") new ≡ get (codes "schema_version") overlay
    pub whole : (fs : Fields) × (get (codes "components") new ≡ some (object fs))
    pub revision : revision_of new ≡ next_revision (revision_of overlay)
    pub settings :
        (section key : Text)
        → setting_of section key new
          ≡ or_else (changed section key changes) (setting_of section key overlay)

  pub edit_overlay-Edited :
      (payload overlay new : Json) (restart : List Text) (now : ℕ)
      → edit_overlay ds catalog payload overlay now ≡ ok (new, restart)
      → Edited payload overlay new
  unfolding edit_overlay
  edit_overlay-Edited payload overlay new restart now e =
      let ((changes, needed), checked, e₁) =
        >>=-eq-ok (validate_change_request ds payload overlay catalog) _ e in
      let (merged, joined, e₂) = >>=-eq-ok (merge_changes overlay changes) _ e₁ in
      let (bumped, raised, e₃) = >>=-eq-ok (bump_revision merged now) _ e₂ in
      let same : bumped ≡ new = ok_pair-injective bumped new _ _ e₃ in
      let m : Merges overlay changes merged = merge_changes-Merges overlay changes merged joined in
      let (kept, revision-eq) = bump_revision-KeepsEntries merged bumped now raised in
      let components-eq : components_of bumped ≡ components_of merged =
        ap (λ o. unwrap_or no_fields (and_then o as_object)) kept.components in
      subst (Edited payload overlay) same (record {
        changes = changes;
        allowed = validate_change_request-Allowed payload overlay changes needed checked;
        version = kept.version ∙ m.version;
        whole = (m.whole.0, kept.components ∙ m.whole.1);
        revision = revision-eq ∙ ap next_revision m.revision;
        settings = λ section key. ap (setting section key) components-eq ∙ m.settings section key;
      })
