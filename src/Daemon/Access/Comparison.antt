-- ===== src/Daemon/Access/Comparison.antt =====
-- `secure_eq`, bit by bit, against equality.
use kitt_assistant.Base.{
  refl, ◌≡◌, ◌↔◌, inl, inr, ap, subst, true, List, [], ◌∷◌, ℕ, zero, suc, ◌/◌, ◌%◌, ◌<◌, arith,
  ◌==◌, length, All, Bool-cases,
}
use kitt_assistant.Daemon.Access.{bitwise, xor_bit, or_bit, or_u8, xor_u8, differences, secure_eq}

-- A number has no more bits than the width.
abbrev Fits : ℕ → ℕ → Type 0
Fits zero a = a ≡ 0
Fits (suc width) a = Fits width (a / 2)

byte-Fits : (a : ℕ) → a < 256 → Fits 8 a
byte-Fits a h = omega arith

xor-eq-0 : (width a b : ℕ) → Fits width a → Fits width b → (bitwise xor_bit width a b ≡ 0) ↔ (a ≡ b)
unfolding bitwise
xor-eq-0 zero a b f g = ground arith
xor-eq-0 (suc width) a b f g =
    let (to, from) = xor-eq-0 width (a / 2) (b / 2) f g in
    (λ e. omega (arith, to (omega arith)), λ e. omega (arith, from (omega arith)))

or-eq-0 :
    (width a b : ℕ)
    → Fits width a
    → Fits width b
    → (bitwise or_bit width a b ≡ 0) ↔ ((a ≡ 0) × (b ≡ 0))
unfolding bitwise
or-eq-0 zero a b f g = ground arith
or-eq-0 (suc width) a b f g =
    let (to, from) = or-eq-0 width (a / 2) (b / 2) f g in
    (
      λ e. let (x, y) = to (omega arith) in (omega arith, omega arith),
      λ (x, y). omega (arith, from (omega arith, omega arith)),
    )

bitwise-Fits :
    (op : ℕ → ℕ → ℕ)
    → ((x y : ℕ) → x < 2 → y < 2 → op x y < 2)
    → (width a b : ℕ) → Fits width (bitwise op width a b)
unfolding bitwise
bitwise-Fits op bit zero a b = refl
bitwise-Fits op bit (suc width) a b =
    subst (Fits width) (omega (arith, bit (a % 2) (b % 2) (omega arith) (omega arith)))
      (bitwise-Fits op bit width (a / 2) (b / 2))

abbrev pub IsByte : ℕ → Type 0
IsByte b = b < 256

-- The differences add up to nothing exactly if there were none so far and the texts agree.
differences-eq-0 :
    (acc : ℕ) (left right : List ℕ)
    → Fits 8 acc
    → length left ≡ length right
    → All IsByte left
    → All IsByte right
    → (differences acc left right ≡ 0) ↔ ((acc ≡ 0) × (left ≡ right))
unfolding differences
differences-eq-0 acc [] [] f n l r = ground arith
differences-eq-0 acc [] (b ∷ right) f n l r = absurd (omega arith)
differences-eq-0 acc (a ∷ left) [] f n l r = absurd (omega arith)
differences-eq-0 acc (a ∷ left) (b ∷ right) f n (la, l) (rb, r) =
    let x = xor_u8 a b in
    let x-Fits = bitwise-Fits xor_bit (λ u v p q. omega arith) 8 a b in
    let (rest_to, rest_from) =
      differences-eq-0 (or_u8 acc x) left right
        (bitwise-Fits or_bit (λ u v p q. omega arith) 8 acc x) (omega arith) l r in
    let (or_to, or_from) = or-eq-0 8 acc x f x-Fits in
    let (xor_to, xor_from) = xor-eq-0 8 a b (byte-Fits a la) (byte-Fits b rb) in
    (
      λ e.
          let (o, same) = rest_to e in
          let (none_yet, x_zero) = or_to o in (none_yet, cong2 (xor_to x_zero) same),
      λ (none_yet, same).
          let (ab, lr) = cons_eq same in rest_from (or_from (none_yet, xor_from ab), lr),
    )
  where
    cong2 : {a b : ℕ} {l r : List ℕ} → a ≡ b → l ≡ r → (a ∷ l) ≡ (b ∷ r)
    cong2 e f = cc

    cons_eq : {a b : ℕ} {l r : List ℕ} → (a ∷ l) ≡ (b ∷ r) → (a ≡ b) × (l ≡ r)
    cons_eq e = ground arith

-- Comparing two texts of bytes without an early exit finds whether they are equal: the or of the xors of all
-- bytes is zero exactly then.
pub secure_eq_iff :
    (left right : List ℕ)
    → All IsByte left
    → All IsByte right
    → (secure_eq left right ≡ true) ↔ (left ≡ right)
unfolding secure_eq
secure_eq_iff left right l r = elim (Bool-cases (length left == length right)) [
  | inl same ↦
      let n : length left ≡ length right = ground arith in
      let (to, from) = differences-eq-0 0 left right (omega arith) n l r in
      (λ e. (to (ground arith)).1, λ e. ground (arith, from (refl, e)))
  | inr different ↦ (λ e. absurd (ground arith), λ e. let n = ap length e in absurd (ground arith))
]
