-- ===== src/ControlCenter/Start/Catalog.antt =====
-- Which catalogs `validate_catalog` accepts.
use kitt_assistant.Base.{
  refuse_if-not-eq-ok, refuse_if-eq-ok, refl, ◌≡◌, ◌≢◌, ◌↔◌, inl, inr, ap, Bool, true, false, not,
  ◌||◌, Option, none, some, List, [], ◌∷◌, ◌++◌, ℕ, arith, Text, ok, refuse_if, ok_or, any, All,
  codes, text_eq, text_eq_iff, Bool-cases, ok_or-eq-ok, >>=-eq-ok,
}
use kitt_assistant.ControlCenter.Json.{Json, Items, no_items, item, as_u64, as_array, and_then, get}
use kitt_assistant.ControlCenter.Start.{id_of, has_fields, validate_sections, validate_catalog}
use kitt_assistant.ControlCenter.Overlay.{is_version_one}

-- Each section has its id of the list, and a list of fields.
pub Described : Items → List Text → Type 0
Described no_items [] = Unit
Described no_items (id ∷ ids) = ⊥
Described (item section sections) [] = ⊥
Described (item section sections) (id ∷ ids) =
    (id_of section ≡ some id) × (has_fields section ≡ true) × Described sections ids

pub Distinct : List Text → Type 0
Distinct [] = Unit
Distinct (id ∷ ids) = All (λ other. other ≢ id) ids × Distinct ids

abbrev Unseen : List Text → List Text → Type 0
Unseen seen ids = All (λ id. any (text_eq id) seen ≡ false) ids

or-false : (a b : Bool) → (a || b) ≡ false → (a ≡ false) × (b ≡ false)
or-false false b e = (refl, e)
or-false true b e = cc

differs_not : (s t : Text) → s ≡ t → text_eq s t ≡ false → ⊥
differs_not s t same e = let equal : text_eq s t ≡ true = (text_eq_iff s t).1 same in cc

add_first :
    (id other : Text) (seen : List Text)
    → other ≢ id
    → any (text_eq other) seen ≡ false
    → any (text_eq other) (id ∷ seen) ≡ false
add_first id other seen apart new = elim (Bool-cases (text_eq other id)) [
  | inl same ↦ absurd (apart ((text_eq_iff other id).0 same))
  | inr differs ↦ rw (differs, new) refl
]

forget_seen :
    (id : Text) (seen ids : List Text)
    → Unseen (id ∷ seen) ids
    → All (λ other. other ≢ id) ids × Unseen seen ids
forget_seen id seen [] h = (tt, tt)
forget_seen id seen (other ∷ ids) (new, h) =
    let (apart, later) = forget_seen id seen ids h in
    let (differs, missing) = or-false (text_eq other id) (any (text_eq other) seen) new in
    ((λ same. differs_not other id same differs, apart), (missing, later))

add_seen :
    (id : Text) (seen ids : List Text)
    → All (λ other. other ≢ id) ids
    → Unseen seen ids
    → Unseen (id ∷ seen) ids
add_seen id seen [] h k = tt
add_seen id seen (other ∷ ids) (apart, h) (new, k) =
    (add_first id other seen apart new, add_seen id seen ids h k)

pub record Sections (sections : Items) (seen : List Text) : Type 0 where
  pub ids : List Text
  pub described : Described sections ids
  pub distinct : Distinct ids
  pub unseen : Unseen seen ids

validate_sections-Sections :
    (sections : Items) (seen : List Text)
    → validate_sections sections seen ≡ ok tt
    → Sections sections seen
unfolding validate_sections Described Distinct
validate_sections-Sections no_items seen e = record {
  ids = [];
  described = tt;
  distinct = tt;
  unseen = tt;
}
validate_sections-Sections (item section sections) seen e =
    let (id, named, e₁) = >>=-eq-ok (ok_or (id_of section) (codes "section id missing")) _ e in
    let (u, new, e₂) =
      >>=-eq-ok (refuse_if (any (text_eq id) seen) (codes "duplicate section id: " ++ id)) _ e₁ in
    let (v, full, e₃) =
      >>=-eq-ok (refuse_if (not (has_fields section)) (id ++ codes ".fields missing")) _ e₂ in
    let rest = validate_sections-Sections sections (id ∷ seen) e₃ in
    let (apart, unseen) = forget_seen id seen rest.ids rest.unseen in
    record {
      ids = id ∷ rest.ids;
      described =
          (ok_or-eq-ok _ _ named, refuse_if-not-eq-ok (has_fields section) _ full, rest.described);
      distinct = (apart, rest.distinct);
      unseen = (refuse_if-eq-ok _ _ new, unseen);
    }

Sections-validate_sections :
    (sections : Items) (seen ids : List Text)
    → Described sections ids
    → Distinct ids
    → Unseen seen ids
    → validate_sections sections seen ≡ ok tt
unfolding validate_sections Described Distinct
Sections-validate_sections no_items seen [] d n u = refl
Sections-validate_sections no_items seen (id ∷ ids) d n u = absurd d
Sections-validate_sections (item section sections) seen [] d n u = absurd d
Sections-validate_sections (item section sections) seen (id ∷ ids) (named, full, d) (apart, n)
      (new, u) =
    rw (named, new, full)
      (Sections-validate_sections sections (id ∷ seen) ids d n (add_seen id seen ids apart u))

-- A catalog of version 1, with sections whose ids differ, each with a list of fields.
pub record IsCatalog (catalog : Json) : Type 0 where
  pub version : and_then (get (codes "schema_version") catalog) as_u64 ≡ some 1
  pub sections : Items
  pub listed : and_then (get (codes "sections") catalog) as_array ≡ some sections
  pub ids : List Text
  pub described : Described sections ids
  pub distinct : Distinct ids

nothing_seen : (ids : List Text) → Unseen [] ids
nothing_seen [] = tt
nothing_seen (id ∷ ids) = (refl, nothing_seen ids)

is_version_one-eq : (v : Option ℕ) → is_version_one v ≡ true → v ≡ some 1
is_version_one-eq none e = cc
is_version_one-eq (some n) e = ap some (ground arith)

-- The catalogs that are accepted are those of version 1 with sections whose ids differ, each with a list of
-- fields.
pub validate_catalog_iff : (catalog : Json) → (validate_catalog catalog ≡ ok tt) ↔ IsCatalog catalog
unfolding validate_catalog
validate_catalog_iff catalog = (
  λ e.
      let version = and_then (get (codes "schema_version") catalog) as_u64 in
      let listed = and_then (get (codes "sections") catalog) as_array in
      let (u, one, e₁) =
        >>=-eq-ok
          (refuse_if (not (is_version_one version)) (codes "catalog schema_version must be 1")) _
          e in
      let (sections, found, e₂) =
        >>=-eq-ok (ok_or listed (codes "catalog sections missing")) _ e₁ in
      let checked = validate_sections-Sections sections [] e₂ in
      record {
        version = is_version_one-eq version (refuse_if-not-eq-ok _ _ one);
        sections = sections;
        listed = ok_or-eq-ok listed _ found;
        ids = checked.ids;
        described = checked.described;
        distinct = checked.distinct;
      },
  λ c.
      rw (c.version, c.listed)
        (Sections-validate_sections c.sections [] c.ids c.described c.distinct
          (nothing_seen c.ids)),
)
