-- ===== src/Base/Numbers.antt =====
-- Signed integers over the native numbers, and the interface through which the program uses `f32`.
use Prim.Native.Nat.{ℕ, suc, ◌+◌}
use mathlib.Core.Bool.{Bool}
use kitt_assistant.Base.Tests.{leb}

-- `negsuc n` is -(n + 1).
pub data ℤ : Type 0 where
  pos : ℕ → ℤ
  negsuc : ℕ → ℤ

abbrev pub pos_part : ℤ → ℕ
pos_part (pos n) = n
pos_part (negsuc n) = 0

abbrev pub neg_part : ℤ → ℕ
neg_part (pos n) = 0
neg_part (negsuc n) = suc n

abbrev pub leb_ℤ : ℤ → ℤ → Bool
leb_ℤ a b = leb (pos_part a + neg_part b) (pos_part b + neg_part a)

-- IEEE arithmetic is the machine's: `lit n d` is the constant nearest to n / d.
pub record Float32 : Type 1 where
  pub F : Type 0
  pub lit : ℕ → ℕ → F
  pub neg : F → F
  pub add : F → F → F
  pub mul : F → F → F
  pub div : F → F → F
  pub sqrt : F → F
  pub max : F → F → F
  pub min : F → F → F
  pub le : F → F → Bool
  pub of_usize : ℕ → F
