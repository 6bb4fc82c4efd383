-- ===== src/ControlCenter/Values/Forms.antt =====
-- What the tests of `validate_value` say of a value: its form, its place in a list, its characters.
use kitt_assistant.Base.{
  is_ascii_alphabetic, is_ascii_alphanumeric, refl, ◌≡◌, ◌↔◌, ◌⊎◌, inl, inr, sym, subst, Bool, true,
  ◌||◌, Option, none, some, List, [], ◌∷◌, ◌++◌, ℕ, ◌≤◌, arith, Text, ◌==◌, all, All, codes, bytes,
  text_eq, text_eq_iff, starts_with, Bool-cases, Option-cases,
}
use kitt_assistant.ControlCenter.Json.{
  Json, null, boolean, unsigned, negative, double, string, array, object, Items, no_items, item,
  as_bool, as_str, as_array, is_some, and_then, get, any_item, all_items, is_text, Doubles, as_f64,
}
use kitt_assistant.Base.{starts_with_sound, starts_with_complete}
use kitt_assistant.ControlCenter.Values.{
  is_array_of_strings, is_integer, is_one_of, is_identifier, has_scheme, is_option, type_ok,
}

-- Every value of an array is a string.
abbrev pub AllStrings : Items → Type 0
AllStrings no_items = Unit
AllStrings (item x xs) = ((s : Text) × (x ≡ string s)) × AllStrings xs

-- A text is among the values of an array.
abbrev pub HasText : Text → Items → Type 0
HasText v no_items = ⊥
HasText v (item x xs) = (x ≡ string v) ⊎ HasText v xs

abbrev pub IsOneOf : Text → List Text → Type 0
IsOneOf kind [] = ⊥
IsOneOf kind (k ∷ ks) = (kind ≡ k) ⊎ IsOneOf kind ks

abbrev pub IsInteger : Json → Type 0
IsInteger value = (n : ℕ) × ((value ≡ unsigned n) ⊎ (value ≡ negative n))

-- The kinds whose values are texts.
abbrev pub text_kinds : List Text
text_kinds = codes "string" ∷ codes "path" ∷ codes "url" ∷ codes "secret_ref" ∷ codes "enum" ∷ []

-- A value has the type that a kind names.
abbrev pub HasType : Text → Json → Type 0
HasType kind value =
    ((kind ≡ codes "boolean") × ((b : Bool) × (value ≡ boolean b)))
    ⊎ ((kind ≡ codes "integer") × IsInteger value)
    ⊎ ((kind ≡ codes "number") × (IsInteger value ⊎ ((b : ℕ) × (value ≡ double b))))
    ⊎ (IsOneOf kind text_kinds × ((s : Text) × (value ≡ string s)))
    ⊎ ((kind ≡ codes "string_list") × ((xs : Items) × (value ≡ array xs) × AllStrings xs))

-- The text is one of the options of a field.
abbrev pub IsListed : Text → Json → Type 0
IsListed v fd =
    (options : Items) × (get (codes "options") fd ≡ some (array options)) × HasText v options

abbrev pub IsUrl : Text → Type 0
IsUrl v = (rest : Text) × ((v ≡ codes "http://" ++ rest) ⊎ (v ≡ codes "https://" ++ rest))

-- Only the letters A to Z and a to z, digits and underscores.
abbrev pub IsName : Text → Type 0
IsName v =
    All (λ b. ((48 ≤ b) × (b ≤ 57)) ⊎ ((65 ≤ b) × (b ≤ 90)) ⊎ ((97 ≤ b) × (b ≤ 122)) ⊎ (b ≡ 95))
      (bytes v)

text_here : (v : Text) (x : Json) → (is_text v (as_str x) ≡ true) ↔ (x ≡ string v)
text_here v (string s) = ground (arith, text_eq_iff s v)
text_here v null = (λ e. absurd (cc), λ e. absurd (cc))
text_here v (boolean b) = (λ e. absurd (cc), λ e. absurd (cc))
text_here v (unsigned n) = (λ e. absurd (cc), λ e. absurd (cc))
text_here v (negative n) = (λ e. absurd (cc), λ e. absurd (cc))
text_here v (double b) = (λ e. absurd (cc), λ e. absurd (cc))
text_here v (array xs) = (λ e. absurd (cc), λ e. absurd (cc))
text_here v (object fs) = (λ e. absurd (cc), λ e. absurd (cc))

in_ranges_iff :
    (b : ℕ)
    → ((is_ascii_alphanumeric b || b == b'_') ≡ true)
      ↔ (((48 ≤ b) × (b ≤ 57)) ⊎ ((65 ≤ b) × (b ≤ 90)) ⊎ ((97 ≤ b) × (b ≤ 122)) ⊎ (b ≡ 95))
unfolding is_ascii_alphanumeric is_ascii_alphabetic
in_ranges_iff b = ground arith

all_ranges_iff :
    (bs : List ℕ)
    → (all (λ b. is_ascii_alphanumeric b || b == b'_') bs ≡ true)
      ↔ All
          (λ b. ((48 ≤ b) × (b ≤ 57)) ⊎ ((65 ≤ b) × (b ≤ 90)) ⊎ ((97 ≤ b) × (b ≤ 122)) ⊎ (b ≡ 95))
          bs
all_ranges_iff [] = (λ e. tt, λ t. refl)
all_ranges_iff (b ∷ bs) =
    let here = in_ranges_iff b in
    let later = all_ranges_iff bs in
    (λ e. (here.0 (ground arith), later.0 (ground arith)), λ (h, t). rw (here.1 h) (later.1 t))

module _ (ds : Doubles) where
  kinds_iff : (kind : Text) (ks : List Text) → (is_one_of ds kind ks ≡ true) ↔ IsOneOf kind ks
  kinds_iff kind [] = (λ e. cc, λ f. absurd f)
  kinds_iff kind (k ∷ ks) = ground (arith, text_eq_iff kind k, kinds_iff kind ks)

  strings_iff : (xs : Items) → (all_items (λ x. is_some (as_str x)) xs ≡ true) ↔ AllStrings xs
  unfolding all_items
  strings_iff no_items = (λ e. tt, λ t. refl)
  strings_iff (item (string s) xs) =
      (λ e. ((s, refl), (strings_iff xs).0 e), λ (h, t). (strings_iff xs).1 t)
  strings_iff (item null xs) = (λ e. absurd (cc), λ ((s, e), t). absurd (cc))
  strings_iff (item (boolean b) xs) = (λ e. absurd (cc), λ ((s, e), t). absurd (cc))
  strings_iff (item (unsigned n) xs) = (λ e. absurd (cc), λ ((s, e), t). absurd (cc))
  strings_iff (item (negative n) xs) = (λ e. absurd (cc), λ ((s, e), t). absurd (cc))
  strings_iff (item (double n) xs) = (λ e. absurd (cc), λ ((s, e), t). absurd (cc))
  strings_iff (item (array ys) xs) = (λ e. absurd (cc), λ ((s, e), t). absurd (cc))
  strings_iff (item (object fs) xs) = (λ e. absurd (cc), λ ((s, e), t). absurd (cc))

  as_str-some : (value : Json) → is_some (as_str value) ≡ true → (s : Text) × (value ≡ string s)
  as_str-some (string s) e = (s, refl)
  as_str-some null e = absurd (cc)
  as_str-some (boolean b) e = absurd (cc)
  as_str-some (unsigned n) e = absurd (cc)
  as_str-some (negative n) e = absurd (cc)
  as_str-some (double n) e = absurd (cc)
  as_str-some (array ys) e = absurd (cc)
  as_str-some (object fs) e = absurd (cc)

  as_bool-some : (value : Json) → is_some (as_bool value) ≡ true → (b : Bool) × (value ≡ boolean b)
  as_bool-some (boolean b) e = (b, refl)
  as_bool-some null e = absurd (cc)
  as_bool-some (string s) e = absurd (cc)
  as_bool-some (unsigned n) e = absurd (cc)
  as_bool-some (negative n) e = absurd (cc)
  as_bool-some (double n) e = absurd (cc)
  as_bool-some (array ys) e = absurd (cc)
  as_bool-some (object fs) e = absurd (cc)

  array_strings :
      (value : Json)
      → is_array_of_strings ds (as_array value) ≡ true
      → (xs : Items) × (value ≡ array xs) × AllStrings xs
  array_strings (array xs) e = (xs, refl, (strings_iff xs).0 e)
  array_strings null e = absurd (cc)
  array_strings (boolean b) e = absurd (cc)
  array_strings (string s) e = absurd (cc)
  array_strings (unsigned n) e = absurd (cc)
  array_strings (negative n) e = absurd (cc)
  array_strings (double n) e = absurd (cc)
  array_strings (object fs) e = absurd (cc)

  as_f64-some :
      (value : Json)
      → is_some (as_f64 ds value) ≡ true
      → IsInteger value ⊎ ((b : ℕ) × (value ≡ double b))
  as_f64-some (unsigned n) e = inl (n, inl refl)
  as_f64-some (negative n) e = inl (n, inr refl)
  as_f64-some (double b) e = inr (b, refl)
  as_f64-some null e = absurd (cc)
  as_f64-some (boolean b) e = absurd (cc)
  as_f64-some (string s) e = absurd (cc)
  as_f64-some (array xs) e = absurd (cc)
  as_f64-some (object fs) e = absurd (cc)

  number_form : (value : Json) → is_integer ds value ≡ true → IsInteger value
  number_form (unsigned n) e = (n, inl refl)
  number_form (negative n) e = (n, inr refl)
  number_form (double b) e = absurd (cc)
  number_form null e = absurd (cc)
  number_form (boolean b) e = absurd (cc)
  number_form (string s) e = absurd (cc)
  number_form (array xs) e = absurd (cc)
  number_form (object fs) e = absurd (cc)

  pub type_ok-HasType :
      (kind : Text) (value : Json) → type_ok ds kind value ≡ true → HasType kind value
  unfolding type_ok
  type_ok-HasType kind value e = elim (Bool-cases (text_eq kind (codes "boolean"))) [
    | inl b ↦ inl ((text_eq_iff kind (codes "boolean")).0 b, as_bool-some value (ground arith))
    | inr not_b ↦ elim (Bool-cases (text_eq kind (codes "integer"))) [
      | inl i ↦
          inr (inl ((text_eq_iff kind (codes "integer")).0 i, number_form value (ground arith)))
      | inr not_i ↦ elim (Bool-cases (text_eq kind (codes "number"))) [
        | inl n ↦
            inr (
              inr (inl ((text_eq_iff kind (codes "number")).0 n, as_f64-some value (ground arith))))
        | inr not_n ↦ elim (Bool-cases (is_one_of ds kind text_kinds)) [
          | inl t ↦
              inr (
                inr (inr (inl ((kinds_iff kind text_kinds).0 t, as_str-some value (ground arith)))))
          | inr not_t ↦ elim (Bool-cases (text_eq kind (codes "string_list"))) [
            | inl l ↦ inr (
                inr (
                  inr (
                    inr (
                      (text_eq_iff kind (codes "string_list")).0 l,
                      array_strings value (ground arith),
                    ))))
            | inr not_l ↦ absurd (ground arith)
          ]
        ]
      ]
    ]
  ]

  text_kind : (kind : Text) (s : Text) → IsOneOf kind text_kinds → type_ok ds kind (string s) ≡ true
  unfolding type_ok text_eq
  text_kind kind s (inl e) = rw e refl
  text_kind kind s (inr (inl e)) = rw e refl
  text_kind kind s (inr (inr (inl e))) = rw e refl
  text_kind kind s (inr (inr (inr (inl e)))) = rw e refl
  text_kind kind s (inr (inr (inr (inr (inl e))))) = rw e refl
  text_kind kind s (inr (inr (inr (inr (inr e))))) = absurd e

  pub HasType-type_ok :
      (kind : Text) (value : Json) → HasType kind value → type_ok ds kind value ≡ true
  unfolding type_ok text_eq
  HasType-type_ok kind value (inl (k, (b, e))) = rw (k, e) refl
  HasType-type_ok kind value (inr (inl (k, (n, inl e)))) = rw (k, e) refl
  HasType-type_ok kind value (inr (inl (k, (n, inr e)))) = rw (k, e) refl
  HasType-type_ok kind value (inr (inr (inl (k, inl (n, inl e))))) = rw (k, e) refl
  HasType-type_ok kind value (inr (inr (inl (k, inl (n, inr e))))) = rw (k, e) refl
  HasType-type_ok kind value (inr (inr (inl (k, inr (b, e))))) = rw (k, e) refl
  HasType-type_ok kind value (inr (inr (inr (inl (k, (s, e)))))) =
      subst (λ v. type_ok ds kind v ≡ true) (sym e) (text_kind kind s k)
  HasType-type_ok kind value (inr (inr (inr (inr (k, (xs, e, t)))))) =
      rw (k, e) ((strings_iff xs).1 t)

  any_text_iff :
      (v : Text) (xs : Items) → (any_item (λ o. is_text v (as_str o)) xs ≡ true) ↔ HasText v xs
  unfolding any_item
  any_text_iff v no_items = (λ e. absurd (cc), λ f. absurd f)
  any_text_iff v (item x xs) =
      let here = text_here v x in
      let later = any_text_iff v xs in
      (
        λ e. elim (Bool-cases (is_text v (as_str x))) [
          | inl on ↦ inl (here.0 on)
          | inr off ↦ inr (later.0 (ground arith))
        ],
        λ h. elim h [ inl on ↦ rw (here.1 on) refl | inr on ↦ ground (arith, later.1 on) ],
      )

  options_of-array :
      (o : Option Json) (xs : Items) → and_then o as_array ≡ some xs → o ≡ some (array xs)
  options_of-array none xs e = absurd (cc)
  options_of-array (some (array ys)) xs e = ground arith
  options_of-array (some null) xs e = absurd (cc)
  options_of-array (some (boolean b)) xs e = absurd (cc)
  options_of-array (some (string s)) xs e = absurd (cc)
  options_of-array (some (unsigned n)) xs e = absurd (cc)
  options_of-array (some (negative n)) xs e = absurd (cc)
  options_of-array (some (double b)) xs e = absurd (cc)
  options_of-array (some (object fs)) xs e = absurd (cc)

  pub is_option_iff : (v : Text) (fd : Json) → (is_option ds v fd ≡ true) ↔ IsListed v fd
  unfolding is_option
  is_option_iff v fd = (
    λ e. elim (Option-cases (and_then (get (codes "options") fd) as_array)) [
      | inl none_given ↦ absurd (ground arith)
      | inr (xs, given) ↦ (xs, options_of-array _ xs given, (any_text_iff v xs).0 (ground arith))
    ],
    λ (xs, given, has). rw (given, is_option) ((any_text_iff v xs).1 has),
  )

  pub has_scheme_iff : (v : Text) → (has_scheme ds v ≡ true) ↔ IsUrl v
  unfolding has_scheme
  has_scheme_iff v = (
    λ e. elim (Bool-cases (starts_with v (codes "http://"))) [
      | inl on ↦ let (rest, cut) = starts_with_sound v (codes "http://") on in (rest, inl cut)
      | inr off ↦
          let (rest, cut) = starts_with_sound v (codes "https://") (ground arith) in (rest, inr cut)
    ],
    λ (rest, h). elim h [
      | inl cut ↦ rw (starts_with_complete v (codes "http://") rest cut) refl
      | inr cut ↦ ground (arith, starts_with_complete v (codes "https://") rest cut)
    ],
  )

  pub is_identifier_iff : (v : Text) → (is_identifier ds v ≡ true) ↔ IsName v
  unfolding is_identifier bytes
  is_identifier_iff [] = (λ e. tt, λ t. refl)
  is_identifier_iff (c ∷ v) = all_ranges_iff (bytes (c ∷ v))
