-- ===== src/ControlCenter/Json.antt =====
-- What the Control Center uses of `serde_json`: values, and the maps in them.
pub mod Laws
use kitt_assistant.Base.{
  refl, ◌≡◌, ◌≢◌, ◌↔◌, ◌⊎◌, inl, inr, sym, ap, subst, ◌∙◌, Bool, true, false, not, ◌&&◌, ◌||◌,
  Option, none, some, List, [], ◌∷◌, ◌++◌, map, reverse, ℕ, zero, suc, ◌+◌, ◌-◌, ◌*◌, ◌/◌, ◌%◌, ◌^◌,
  ◌≤◌, ◌<◌, min, max, arith, String, Text, ltb, leb, ◌==◌, if◌then◌else◌, Result, ok, err, ◌>>=◌,
  ◌>>◌, refuse_if, ok_or, map_err, length, take, drop, all, any, All, codes, bytes, text_eq,
  text_eq_iff, is_empty, starts_with, Bool-cases, Option-cases, Result-cases, if-of_true,
  if-of_false, and-true, >>=-eq-ok,
}

-- A number is an unsigned one, a negative one (`negative n` is -(n + 1)) or a double, by its bits.
mutual
  pub data Json : Type 0 where
    null : Json
    boolean : Bool → Json
    unsigned : ℕ → Json
    negative : ℕ → Json
    double : ℕ → Json
    string : Text → Json
    array : Items → Json
    object : Fields → Json

  pub data Items : Type 0 where
    no_items : Items
    item : Json → Items → Items

  pub data Fields : Type 0 where
    no_fields : Fields
    field : Text → Json → Fields → Fields

abbrev pub as_bool : Json → Option Bool
as_bool (boolean b) = some b
as_bool _ = none

abbrev pub as_u64 : Json → Option ℕ
as_u64 (unsigned n) = some n
as_u64 _ = none

abbrev pub as_str : Json → Option Text
as_str (string s) = some s
as_str _ = none

abbrev pub as_array : Json → Option Items
as_array (array xs) = some xs
as_array _ = none

abbrev pub as_object : Json → Option Fields
as_object (object fs) = some fs
as_object _ = none

abbrev pub is_some {ℓ} : {A : Type ℓ} → Option A → Bool
is_some none = false
is_some (some _) = true

-- `Option::and_then`
abbrev pub and_then {ℓ κ} : {A : Type ℓ} {B : Type κ} → Option A → (A → Option B) → Option B
and_then none f = none
and_then (some a) f = f a

abbrev pub unwrap_or {ℓ} : {A : Type ℓ} → A → Option A → A
unwrap_or d none = d
unwrap_or d (some a) = a

-- `Map::get`
unfoldable pub get_field : Text → Fields → Option Json
get_field k no_fields = none
get_field k (field k' v fs) = let rest = get_field k fs in if text_eq k k' then some v else rest

-- `Map::insert`
unfoldable pub insert : Text → Json → Fields → Fields
insert k v no_fields = field k v no_fields
insert k v (field k' v' fs) =
    let rest = insert k v fs in if text_eq k k' then field k' v fs else field k' v' rest

-- `Value::get` with a key.
abbrev pub get : Text → Json → Option Json
get k v = and_then (as_object v) (get_field k)

-- `Iterator::any`, `all` and `find` on the values of an array.
unfoldable pub any_item : (Json → Bool) → Items → Bool
any_item p no_items = false
any_item p (item x xs) = p x || any_item p xs

unfoldable pub all_items : (Json → Bool) → Items → Bool
all_items p no_items = true
all_items p (item x xs) = p x && all_items p xs

unfoldable pub find : (Json → Bool) → Items → Option Json
find p no_items = none
find p (item x xs) = let rest = find p xs in if p x then some x else rest

-- `value == Some(text)` for an optional text.
abbrev pub is_text : Text → Option Text → Bool
is_text s none = false
is_text s (some t) = text_eq t s

-- The doubles of the machine.
pub record Doubles : Type 1 where
  pub F : Type 0
  pub of_unsigned : ℕ → F
  pub of_negative : ℕ → F
  pub of_bits : ℕ → F
  pub lt : F → F → Bool

module _ (ds : Doubles) where
  abbrev pub as_f64 : Json → Option ds.F
  as_f64 (unsigned n) = some (ds.of_unsigned n)
  as_f64 (negative n) = some (ds.of_negative n)
  as_f64 (double b) = some (ds.of_bits b)
  as_f64 _ = none
