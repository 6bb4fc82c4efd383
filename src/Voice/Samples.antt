-- ===== src/Voice/Samples.antt =====
-- Concrete parameters on which the tests of the voice modules run.
use kitt_assistant.Base.{ℕ, ◌+◌, ◌*◌, ◌/◌, Float32, Bool, false, leb, min, max}

-- Thousandths, without negative numbers: enough for energies and thresholds.
abbrev pub thousandths : Float32
thousandths = record {
  F = ℕ;
  lit = λ n d. n * 1000 / d;
  neg = λ x. 0;
  add = λ x y. x + y;
  mul = λ x y. x * y / 1000;
  div = λ x y. x * 1000 / max y 1;
  sqrt = λ x. x;
  max = max;
  min = min;
  le = leb;
  of_usize = λ n. n * 1000;
}

-- No letter beyond ASCII survives unfolded.
abbrev pub no_wide : ℕ → Bool
no_wide c = false
