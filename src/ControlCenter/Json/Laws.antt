-- ===== src/ControlCenter/Json/Laws.antt =====
-- Looking up in a map after an insertion.
use kitt_assistant.Base.{refl, ◌≡◌, some, [], ◌∷◌, arith, Text, if◌then◌else◌, text_eq, text_eq_iff}
use kitt_assistant.ControlCenter.Json.{Json, Fields, no_fields, field, get_field, insert}

text_eq-sym : (s t : Text) → text_eq s t ≡ text_eq t s
unfolding text_eq
text_eq-sym [] [] = refl
text_eq-sym [] (b ∷ t) = refl
text_eq-sym (a ∷ s) [] = refl
text_eq-sym (a ∷ s) (b ∷ t) = ground (arith, text_eq-sym s t)

pub get_field-insert :
    (k k' : Text) (v : Json) (fs : Fields)
    → get_field k' (insert k v fs) ≡ (if text_eq k k' then some v else get_field k' fs)
unfolding get_field insert
get_field-insert k k' v no_fields = ground (arith, text_eq-sym k k')
get_field-insert k k' v (field j w fs) = ground (
  arith,
  text_eq-sym k k',
  text_eq_iff k j,
  text_eq_iff k k',
  text_eq_iff k' j,
  get_field-insert k k' v fs,
)
