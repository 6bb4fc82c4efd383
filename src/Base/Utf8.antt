-- ===== src/Base/Utf8.antt =====
-- `String::from_utf8`, as a machine over the bytes.
use Prim.Native.Nat.{ℕ, zero, suc, ◌+◌, ◌-◌, ◌*◌, ◌<◌}
use mathlib.Core.Path.{◌≡◌, refl}
use mathlib.Core.Bool.{Bool, not, ◌&&◌}
use mathlib.Core.List.{List, [], ◌∷◌, ◌++◌}
use mathlib.Core.Option.{Option, none, some}
use native.Mathlib.Omega.{arith}
use kitt_assistant.Base.Tests.{leb, if◌then◌else◌}
use kitt_assistant.Base.Lists.{Text, All}

-- The bytes that a scalar value still lacks, its bits so far, and the least value of its length.
record Partial : Type 0 where
  missing : ℕ
  value : ℕ
  least : ℕ

abbrev between_chars : Partial
between_chars = record { missing = 0; value = 0; least = 0 }

abbrev is_scalar : ℕ → Bool
is_scalar c = leb c 1114111 && not (leb 55296 c && leb c 57343)

-- The first byte of a scalar value.
first_byte : ℕ → Option (Partial × Text)
first_byte b =
    if leb b 127
    then some (between_chars, b ∷ [])
    else if leb 194 b && leb b 223
    then some (record { missing = 1; value = b - 192; least = 128 }, [])
    else if leb 224 b && leb b 239
    then some (record { missing = 2; value = b - 224; least = 2048 }, [])
    else if leb 240 b && leb b 244
    then some (record { missing = 3; value = b - 240; least = 65536 }, [])
    else none

-- The last byte of a scalar value, and one before it.
last_or_middle : ℕ → ℕ → ℕ → Option (Partial × Text)
last_or_middle zero value least =
    if leb least value && is_scalar value then some (between_chars, value ∷ []) else none
last_or_middle (suc missing) value least =
    some (record { missing = suc missing; value = value; least = least }, [])

next_byte : Partial → ℕ → Option (Partial × Text)
unfolding first_byte last_or_middle
next_byte p b = elim p.missing [
  | zero ↦ first_byte b
  | suc missing ↦
      if leb 128 b && leb b 191
      then last_or_middle missing (p.value * 64 + (b - 128)) p.least
      else none
]

abbrev put_before : Text → Option Text → Option Text
put_before seen none = none
put_before seen (some s) = some (seen ++ s)

decode_from : Partial → List ℕ → Option Text
unfolding next_byte
decode_from p [] = elim p.missing [ zero ↦ some [] | suc missing ↦ none ]
decode_from p (b ∷ bs) = elim (next_byte p b) [
  | none ↦ none
  | some step ↦ put_before step.1 (decode_from step.0 bs)
]

unfoldable pub from_utf8 : List ℕ → Option Text
unfolding decode_from
from_utf8 bs = decode_from between_chars bs

-- Bytes below 128 are their own text.
pub from_utf8-ascii : (s : List ℕ) → All (λ b. b < 128) s → from_utf8 s ≡ some s
unfolding from_utf8 next_byte first_byte
from_utf8-ascii [] h = refl
from_utf8-ascii (b ∷ s) (small, h) = ground (arith, from_utf8-ascii s h)

reads_accents :
    from_utf8 (99 ∷ 195 ∷ 169 ∷ 240 ∷ 159 ∷ 154 ∷ 151 ∷ []) ≡ some (99 ∷ 233 ∷ 128663 ∷ [])
unfolding from_utf8
reads_accents = refl

refuses_overlong : from_utf8 (224 ∷ 128 ∷ 128 ∷ []) ≡ none
unfolding from_utf8
refuses_overlong = refl
