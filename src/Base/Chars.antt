-- ===== src/Base/Chars.antt =====
-- What the source uses of Rust's `char` and `str`, over Unicode scalar values.
use Prim.Native.Nat.{ℕ, zero, suc, ◌+◌, ◌/◌, ◌%◌}
use Prim.Native.Char.{code}
use Prim.Native.String.{String}
use mathlib.Core.Path.{◌≡◌}
use mathlib.Core.Bool.{Bool, true, false, not, ◌&&◌, ◌||◌}
use mathlib.Core.List.{List, [], ◌∷◌, ◌++◌, reverse}
use mathlib.Core.Option.{Option, none, some}
use native.Mathlib.Omega.{arith}
use kitt_assistant.Base.Tests.{leb, ◌==◌, if◌then◌else◌}
use kitt_assistant.Base.Lists.{Text, all, retain}

-- The scalar values of a native string.
abbrev pub codes : String → Text
codes String.[] = []
codes (String.◌∷◌ c s) = code c ∷ codes s

abbrev in_range : ℕ → ℕ → ℕ → Bool
in_range lo hi c = leb lo c && leb c hi

-- `char::to_ascii_lowercase`
unfoldable pub to_ascii_lowercase : ℕ → ℕ
to_ascii_lowercase c = if in_range 65 90 c then c + 32 else c

pub to_ascii_lowercase_idem :
    (c : ℕ) → to_ascii_lowercase (to_ascii_lowercase c) ≡ to_ascii_lowercase c
unfolding to_ascii_lowercase
to_ascii_lowercase_idem c = ground arith

unfoldable pub is_ascii_alphabetic : ℕ → Bool
is_ascii_alphabetic c = in_range 65 90 c || in_range 97 122 c

unfoldable pub is_ascii_alphanumeric : ℕ → Bool
unfolding is_ascii_alphabetic
is_ascii_alphanumeric c = is_ascii_alphabetic c || in_range 48 57 c

-- `u8::is_ascii_hexdigit`
unfoldable pub is_ascii_hexdigit : ℕ → Bool
is_ascii_hexdigit c = in_range 48 57 c || in_range 65 70 c || in_range 97 102 c

-- `char::is_whitespace`: the Unicode property White_Space.
unfoldable pub is_whitespace : ℕ → Bool
is_whitespace c =
    in_range 9 13 c
    || c == 32
    || c == 133
    || c == 160
    || c == 5760
    || in_range 8192 8202 c
    || c == 8232
    || c == 8233
    || c == 8239
    || c == 8287
    || c == 12288

-- The bytes of a scalar value in UTF-8.
unfoldable pub utf8 : ℕ → List ℕ
utf8 c =
    if leb c 127
    then c ∷ []
    else if leb c 2047
    then (192 + c / 64) ∷ (128 + c % 64) ∷ []
    else if leb c 65535
    then (224 + c / 4096) ∷ (128 + c / 64 % 64) ∷ (128 + c % 64) ∷ []
    else (240 + c / 262144) ∷ (128 + c / 4096 % 64) ∷ (128 + c / 64 % 64) ∷ (128 + c % 64) ∷ []

-- `str::as_bytes`
unfoldable pub bytes : Text → List ℕ
unfolding utf8
bytes [] = []
bytes (c ∷ s) = utf8 c ++ bytes s

unfoldable pub trim_start : Text → Text
unfolding is_whitespace
trim_start [] = []
trim_start (c ∷ s) = let rest = trim_start s in if is_whitespace c then rest else c ∷ s

unfoldable pub trim_end : Text → Text
unfolding trim_start
trim_end s = reverse (trim_start (reverse s))

-- `str::trim`
unfoldable pub trim : Text → Text
unfolding trim_start trim_end
trim s = trim_end (trim_start s)

abbrev pub is_empty {ℓ} : {A : Type ℓ} → List A → Bool
is_empty [] = true
is_empty (_ ∷ _) = false

-- `str::trim().is_empty()`: nothing but white space.
unfoldable pub is_blank : Text → Bool
unfolding is_whitespace
is_blank s = all is_whitespace s

-- `str::starts_with`, as a cut: what follows the prefix.
unfoldable pub strip_prefix : Text → Text → Option Text
strip_prefix [] s = some s
strip_prefix (p ∷ ps) [] = none
strip_prefix (p ∷ ps) (c ∷ s) = let rest = strip_prefix ps s in if p == c then rest else none

unfoldable pub starts_with : Text → Text → Bool
starts_with s [] = true
starts_with [] (p ∷ ps) = false
starts_with (c ∷ s) (p ∷ ps) = p == c && starts_with s ps

-- `str::contains`
unfoldable pub contains : Text → Text → Bool
unfolding starts_with
contains [] m = starts_with [] m
contains (c ∷ s) m = starts_with (c ∷ s) m || contains s m

-- `[T]::join` for texts.
unfoldable pub join : Text → List Text → Text
join sep [] = []
join sep (t ∷ []) = t
join sep (t ∷ u ∷ ts) = t ++ sep ++ join sep (u ∷ ts)

-- `str::lines().count()`: a line feed ends a line, and an empty rest after the last is no line.
unfoldable pub count_lines : Text → ℕ
count_lines [] = 0
count_lines (c ∷ []) = 1
count_lines (c ∷ d ∷ s) = if c == 10 then 1 + count_lines (d ∷ s) else count_lines (d ∷ s)

-- `str::split` at the characters that pass a test, and `str::split_whitespace`.
abbrev cons_head : ℕ → List Text → List Text
cons_head c [] = (c ∷ []) ∷ []
cons_head c (t ∷ ts) = (c ∷ t) ∷ ts

unfoldable pub split_by : (ℕ → Bool) → Text → List Text
split_by p [] = [] ∷ []
split_by p (c ∷ s) = let parts = split_by p s in if p c then [] ∷ parts else cons_head c parts

unfoldable pub split_whitespace : Text → List Text
unfolding split_by is_whitespace retain
split_whitespace s = retain (λ t. not (is_empty t)) (split_by is_whitespace s)

-- `u64`'s `Display`: at most twenty decimal digits.
digits : ℕ → ℕ → Text → Text
digits zero n shown = shown
digits (suc fuel) n shown =
    let longer = digits fuel (n / 10) ((48 + n % 10) ∷ shown) in
    if leb n 9 then (48 + n) ∷ shown else longer

unfoldable pub decimal : ℕ → Text
unfolding digits
decimal n = digits 20 n []
