-- ===== src/ControlCenter/Start.antt =====
-- apps/kittd/src/settings_web.rs: the start of the Control Center, with the check of its embedded catalog.
pub mod Catalog
pub mod Serving
use kitt_assistant.Base.{
  refl, ◌≡◌, ◌≢◌, ◌↔◌, ◌⊎◌, inl, inr, sym, ap, subst, ◌∙◌, Bool, true, false, not, ◌&&◌, ◌||◌,
  Option, none, some, List, [], ◌∷◌, ◌++◌, map, reverse, ℕ, zero, suc, ◌+◌, ◌-◌, ◌*◌, ◌/◌, ◌%◌, ◌^◌,
  ◌≤◌, ◌<◌, min, max, arith, String, Text, ltb, leb, ◌==◌, if◌then◌else◌, Result, ok, err, ◌>>=◌,
  ◌>>◌, refuse_if, ok_or, map_err, length, take, drop, all, any, All, codes, bytes, text_eq,
  text_eq_iff, is_empty, starts_with, Bool-cases, Option-cases, Result-cases, if-of_true,
  if-of_false, and-true, decimal, trim, to_ascii_lowercase, is_blank, join, ok_or-eq-ok, retain,
  strip_prefix, texts_eq, >>=-eq-ok,
}
use kitt_assistant.ControlCenter.Json.{
  Json, null, boolean, unsigned, negative, double, string, array, object, Items, no_items, item,
  Fields, no_fields, field, as_bool, as_u64, as_str, as_array, as_object, is_some, and_then,
  unwrap_or, get_field, insert, get, any_item, all_items, find, is_text, Doubles, as_f64,
}
use kitt_assistant.ControlCenter.Overlay.{Disk, File, ensure_overlay, is_version_one}

abbrev pub id_of : Json → Option Text
id_of section = and_then (get (codes "id") section) as_str

abbrev pub has_fields : Json → Bool
has_fields section = is_some (and_then (get (codes "fields") section) as_array)

-- The loop over the sections; `seen` is the set of their ids.
unfoldable pub validate_sections : Items → List Text → Result Text (Unit {0})
validate_sections no_items seen = ok tt
validate_sections (item section sections) seen = do
  id ← ok_or (id_of section) (codes "section id missing")
  refuse_if (any (text_eq id) seen) (codes "duplicate section id: " ++ id)
  refuse_if (not (has_fields section)) (id ++ codes ".fields missing")
  validate_sections sections (id ∷ seen)

unfoldable pub validate_catalog : Json → Result Text (Unit {0})
validate_catalog catalog = do
  refuse_if (not (is_version_one (and_then (get (codes "schema_version") catalog) as_u64)))
      (codes "catalog schema_version must be 1")
  sections ←
      ok_or (and_then (get (codes "sections") catalog) as_array) (codes "catalog sections missing")
  validate_sections sections []

-- A parsed address, as far as the code looks at it.
pub record SocketAddr : Type 0 where
  pub is_loopback : Bool
  pub port : ℕ
  pub shown : Text

-- The environment variable, the parser of addresses, the catalog as it is parsed, and what the operating
-- system answers to the directory, the listener and the thread.
pub record Site : Type 0 where
  pub control_center_addr : Option Text
  pub parse_addr : Text → Result Text SocketAddr
  pub embedded : Result Text Json
  pub ensure_private_dir : Result Text (Unit {0})
  pub bind : SocketAddr → Result Text (Unit {0})
  pub set_blocking : Result Text (Unit {0})
  pub spawn : Result Text (Unit {0})

-- What the thread serves: the address and the catalog.
pub record Served : Type 0 where
  pub bind : SocketAddr
  pub catalog : Json

module _ (site : Site) where
  -- `start` up to the overlay file.
  unfoldable pub prepare : Result Text Served
  prepare = do
    bind ←
        map_err (λ e. codes "invalid KITT_CONTROL_CENTER_ADDR: " ++ e)
          (site.parse_addr (unwrap_or (codes "127.0.0.1:41828") site.control_center_addr))
    refuse_if (not bind.is_loopback)
        (codes "KITT Control Center only permits loopback bind addresses")
    catalog ← map_err (λ e. codes "embedded Control Center catalog is invalid: " ++ e) site.embedded
    validate_catalog catalog
    site.ensure_private_dir
    ok (record { bind = bind; catalog = catalog })

  -- `start` from the listener on.
  unfoldable pub listen : Served → Result Text Served
  listen served = do
    map_err (λ e. codes "Control Center bind " ++ served.bind.shown ++ codes ": " ++ e)
        (site.bind served.bind)
    map_err (λ e. codes "Control Center listener: " ++ e) site.set_blocking
    map_err (λ e. codes "spawn Control Center: " ++ e) site.spawn
    ok served

  -- `start`: what is served, and the overlay file, of which `exists` tells whether it is there.
  unfoldable pub start : Disk → Bool → File → ℕ → Result Text Served × File
  start disk exists file now = elim prepare [
    | err e ↦ (err e, file)
    | ok served ↦
        let (ensured, file') = ensure_overlay disk exists file now in
        (ensured >>= λ there. listen served, file')
  ]
