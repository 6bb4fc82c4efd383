-- ===== src/Daemon/Access.antt =====
-- apps/kittd/src/main.rs: who may talk to the daemon. The frame that a client sends, the comparison of its
-- token with the daemon's, the file that keeps that token, and the addresses that a start accepts.
pub mod Comparison
pub mod Framing
pub mod Token
mod Tests
use kitt_assistant.Base.{
  refl, ◌≡◌, ◌≢◌, ◌↔◌, ◌⊎◌, inl, inr, sym, ap, subst, ◌∙◌, Bool, true, false, not, ◌&&◌, ◌||◌,
  Option, none, some, List, [], ◌∷◌, ◌++◌, map, reverse, ℕ, zero, suc, ◌+◌, ◌-◌, ◌*◌, ◌/◌, ◌%◌, ◌^◌,
  ◌≤◌, ◌<◌, min, max, arith, String, Text, ltb, leb, ◌==◌, if◌then◌else◌, Result, ok, err, ◌>>=◌,
  ◌>>◌, refuse_if, ok_or, map_err, length, take, drop, all, any, All, codes, bytes, text_eq,
  text_eq_iff, is_empty, starts_with, Bool-cases, Option-cases, Result-cases, if-of_true,
  if-of_false, and-true, decimal, trim, to_ascii_lowercase, is_blank, join, ok_or-eq-ok, retain,
  strip_prefix, texts_eq, >>=-eq-ok,
}
use kitt_assistant.Url.{Net, eq_ignore_ascii_case}

-- An operation on the bits of two numbers, of which it reads the lowest `width`.
unfoldable pub bitwise : (ℕ → ℕ → ℕ) → (width : ℕ) → ℕ → ℕ → ℕ
bitwise op zero a b = 0
bitwise op (suc width) a b = op (a % 2) (b % 2) + 2 * bitwise op width (a / 2) (b / 2)

abbrev pub xor_bit : ℕ → ℕ → ℕ
xor_bit x y = (x + y) % 2

abbrev pub or_bit : ℕ → ℕ → ℕ
or_bit x y = max x y

-- `|` and `^` of `u8`.
abbrev pub or_u8 : ℕ → ℕ → ℕ
or_u8 = bitwise or_bit 8

abbrev pub xor_u8 : ℕ → ℕ → ℕ
xor_u8 = bitwise xor_bit 8

-- The `fold` over the zipped bytes.
unfoldable pub differences : ℕ → List ℕ → List ℕ → ℕ
differences acc [] right = acc
differences acc (a ∷ left) [] = acc
differences acc (a ∷ left) (b ∷ right) = differences (or_u8 acc (xor_u8 a b)) left right

unfoldable pub secure_eq : List ℕ → List ℕ → Bool
secure_eq left right =
    if not (length left == length right) then false else differences 0 left right == 0

-- The bytes that end a line.
abbrev pub is_line_end : ℕ → Bool
is_line_end b = b == b'\n' || b == b'\r'

-- `while bytes.last()…  { bytes.pop(); }`, on the bytes backwards.
unfoldable pub pop_line_ends : List ℕ → List ℕ
pop_line_ends [] = []
pop_line_ends (b ∷ rest) =
    let popped = pop_line_ends rest in if is_line_end b then popped else b ∷ rest

abbrev pub starts_with_newline : List ℕ → Bool
starts_with_newline [] = false
starts_with_newline (b ∷ rest) = b == b'\n'

-- `read_frame`; `read_until` is what the reader gives up to the first newline, of at most
-- `max_frame_bytes + 1` bytes.
unfoldable pub read_frame :
    (max_frame_bytes : ℕ) → (can_clone : Bool) → Option (List ℕ) → Result Text (List ℕ)
read_frame max_frame_bytes can_clone read_until = do
  refuse_if (not can_clone) (codes "stream_clone_failed")
  received ← ok_or read_until (codes "frame_read_failed")
  refuse_if (ltb max_frame_bytes (length received)) (codes "request_too_large")
  refuse_if (is_empty received) (codes "empty_request")
  refuse_if (not (starts_with_newline (reverse received))) (codes "frame_not_terminated")
  ok (reverse (pop_line_ends (reverse received)))
