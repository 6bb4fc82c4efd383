-- ===== src/ControlCenter/Values/Laws.antt =====
-- Which values a field of the catalog accepts.
use kitt_assistant.Base.{
  ok_or-eq-ok, refl, ◌≡◌, ◌↔◌, Bool, true, false, not, ◌&&◌, Option, none, some, arith, Text, ok,
  codes, text_eq, text_eq_iff, >>=-eq-ok,
}
use kitt_assistant.ControlCenter.Values.Forms.{
  HasType, IsListed, IsUrl, IsName, type_ok-HasType, HasType-type_ok, is_option_iff, has_scheme_iff,
  is_identifier_iff,
}
use kitt_assistant.ControlCenter.Json.{Json, as_str, and_then, get, Doubles, as_f64}
use kitt_assistant.ControlCenter.Values.{
  is_identifier, has_scheme, text_of, is_option, bound_of, exceeds, validate_value,
}

module _ (ds : Doubles) where
  open ds use {F, lt}

  -- A value that fits a field.
  pub record Fits (fd value : Json) (kind : Text) : Type 0 where
    pub kind_given : and_then (get (codes "type") fd) as_str ≡ some kind
    pub typed : HasType kind value
    pub above_minimum :
        (n b : F)
        → as_f64 ds value ≡ some n
        → bound_of ds (codes "minimum") fd ≡ some b
        → lt n b ≡ false
    pub below_maximum :
        (n b : F)
        → as_f64 ds value ≡ some n
        → bound_of ds (codes "maximum") fd ≡ some b
        → lt b n ≡ false
    pub among_options : kind ≡ codes "enum" → IsListed (text_of ds value) fd
    pub with_scheme : kind ≡ codes "url" → IsUrl (text_of ds value)
    pub identifier : kind ≡ codes "secret_ref" → IsName (text_of ds value)

  -- `exceeds` is false exactly when no two numbers that are there are in that order.
  exceeds_iff :
      (beyond : F → F → Bool) (o p : Option F)
      → (exceeds ds beyond o p ≡ false) ↔ ((n b : F) → o ≡ some n → p ≡ some b → beyond n b ≡ false)
  exceeds_iff beyond none p = (λ _ n b e f. cc, λ _. refl)
  exceeds_iff beyond (some m) none = (λ _ n b e f. cc, λ _. refl)
  exceeds_iff beyond (some m) (some c) = (λ h n b e f. ground arith, λ h. h m c refl refl)

  -- A test that applies to one kind only.
  only_for_iff :
      (kind wanted : Text) (b : Bool)
      → ((text_eq kind wanted && not b) ≡ false) ↔ (kind ≡ wanted → b ≡ true)
  only_for_iff kind wanted b = ground (arith, text_eq_iff kind wanted)

  -- A field accepts exactly the values that fit it: its kind is a known one and the value has the form of
  -- that kind; a number is within the bounds that the field gives; the text of an `enum` is one of
  -- the field's options, that of a `url` begins with `http://` or `https://`, and that of a
  -- `secret_ref` has only the letters A to Z and a to z, digits and underscores.
  pub validate_value_iff :
      (fd value : Json)
      → (validate_value ds fd value ≡ ok tt) ↔ ((kind : Text) × Fits fd value kind)
  unfolding validate_value
  validate_value_iff fd value =
      let below = exceeds_iff lt (as_f64 ds value) (bound_of ds (codes "minimum") fd) in
      let above =
        exceeds_iff (λ n b. lt b n) (as_f64 ds value) (bound_of ds (codes "maximum") fd) in
      (
        λ e.
            let (kind, given, rest) = >>=-eq-ok _ _ e in
            let options = only_for_iff kind (codes "enum") (is_option ds (text_of ds value) fd) in
            let scheme = only_for_iff kind (codes "url") (has_scheme ds (text_of ds value)) in
            let name =
              only_for_iff kind (codes "secret_ref") (is_identifier ds (text_of ds value)) in
            (
              kind,
              record {
                kind_given = ok_or-eq-ok _ _ given;
                typed = type_ok-HasType ds kind value (ground arith);
                above_minimum = below.0 (ground arith);
                below_maximum = above.0 (ground arith);
                among_options =
                    λ k. (is_option_iff ds (text_of ds value) fd).0 (options.0 (ground arith) k);
                with_scheme =
                    λ k. (has_scheme_iff ds (text_of ds value)).0 (scheme.0 (ground arith) k);
                identifier =
                    λ k. (is_identifier_iff ds (text_of ds value)).0 (name.0 (ground arith) k);
              },
            ),
        λ (kind, fits).
            let options =
              (only_for_iff kind (codes "enum") (is_option ds (text_of ds value) fd)).1
                (λ k. (is_option_iff ds (text_of ds value) fd).1 (fits.among_options k)) in
            let scheme =
              (only_for_iff kind (codes "url") (has_scheme ds (text_of ds value))).1
                (λ k. (has_scheme_iff ds (text_of ds value)).1 (fits.with_scheme k)) in
            let name =
              (only_for_iff kind (codes "secret_ref") (is_identifier ds (text_of ds value))).1
                (λ k. (is_identifier_iff ds (text_of ds value)).1 (fits.identifier k)) in
            let low = below.1 fits.above_minimum in
            let high = above.1 fits.below_maximum in
            let typed = HasType-type_ok ds kind value fits.typed in
            rw (fits.kind_given, validate_value)
              (rw typed (rw (low, high, options, scheme, name) refl)),
      )
