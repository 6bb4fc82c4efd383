-- ===== src/Voice/EditDistance.antt =====
-- apps/kittd/src/voice.rs, `bounded_edit_distance`: the two-row table over the bytes of two keys.
pub mod Scripts
mod Rows
pub mod Laws
mod Tests
use kitt_assistant.Base.{
  ℕ, ◌+◌, ◌-◌, min, Bool, true, false, Option, none, some, List, [], ◌∷◌, length, ltb, leb, ◌==◌,
  if◌then◌else◌,
}

-- `usize::from(left_byte != right_byte)`
abbrev pub cost_of : ℕ → ℕ → ℕ
cost_of a b = if a == b then 0 else 1

-- The inner loop: `left` is the cell just written, the first two of `previous` stand above it.
pub cells : ℕ → ℕ → List ℕ → List ℕ → List ℕ
cells a left previous [] = []
cells a left (diagonal ∷ above ∷ previous) (b ∷ right) =
    let cell = min (min (diagonal + cost_of a b) (left + 1)) (above + 1) in
    cell ∷ cells a cell (above ∷ previous) right
cells a left _ (b ∷ right) = []

-- The outer loop; `row` counts the rows done.
pub rows : ℕ → List ℕ → List ℕ → List ℕ → List ℕ
rows row previous [] right = previous
rows row previous (a ∷ left) right =
    rows (row + 1) ((row + 1) ∷ cells a (row + 1) previous right) left right

-- `(0..=right.len()).collect()`
pub first_row : ℕ → List ℕ → List ℕ
first_row n [] = n ∷ []
first_row n (b ∷ right) = n ∷ first_row (n + 1) right

-- The last cell of a row, 0 of none.
pub last_cell : List ℕ → ℕ
last_cell [] = 0
last_cell (n ∷ []) = n
last_cell (n ∷ m ∷ ns) = last_cell (m ∷ ns)

abbrev pub abs_diff : ℕ → ℕ → ℕ
abs_diff a b = if leb a b then b - a else a - b

unfoldable pub bounded_edit_distance : List ℕ → List ℕ → ℕ → Option ℕ
unfolding cells rows first_row last_cell
bounded_edit_distance left right max_distance =
    if ltb max_distance (abs_diff (length left) (length right))
    then none
    else let distance = last_cell (rows 0 (first_row 0 right) left right) in
      if leb distance max_distance then some distance else none
