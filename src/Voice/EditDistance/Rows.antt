-- ===== src/Voice/EditDistance/Rows.antt =====
-- Every row of the table holds the distances of a prefix of the left text to the prefixes of the right.
use mathlib.Core.Path.{ap₂}
use mathlib.Core.List.{reverse-cons}
use kitt_assistant.Base.{
  append_assoc, append-nil, ℕ, ◌+◌, ◌≡◌, refl, ap, List, [], ◌∷◌, ◌++◌, reverse, length, arith, sym,
  ◌∙◌,
}
use kitt_assistant.Voice.EditDistance.{cells, rows, first_row, last_cell}
use kitt_assistant.Voice.EditDistance.Scripts.{lev, lev-nil, lev-reverse}

-- Prefixes are kept backwards: `rp` is the left prefix, `rq` the right one read so far.
row_of : List ℕ → List ℕ → List ℕ → List ℕ
row_of rp rq [] = lev rp rq ∷ []
row_of rp rq (b ∷ right) = lev rp rq ∷ row_of rp (b ∷ rq) right

cells_lem :
    (a : ℕ) (rp rq right : List ℕ)
    → lev (a ∷ rp) rq ∷ cells a (lev (a ∷ rp) rq) (row_of rp rq right) right
      ≡ row_of (a ∷ rp) rq right
unfolding cells row_of lev
cells_lem a rp rq [] = refl
cells_lem a rp rq (b ∷ []) = refl
cells_lem a rp rq (b ∷ c ∷ right) = ap (◌∷◌ (lev (a ∷ rp) rq)) (cells_lem a rp (b ∷ rq) (c ∷ right))

first_row_lem : (rq right : List ℕ) → first_row (length rq) right ≡ row_of [] rq right
unfolding first_row row_of lev
first_row_lem rq [] = refl
first_row_lem rq (b ∷ right) =
    let next : length rq + 1 ≡ length (b ∷ rq) = omega arith in
    ap (◌∷◌ (length rq)) (ap (λ n. first_row n right) next ∙ first_row_lem (b ∷ rq) right)

rows_lem :
    (rp left right : List ℕ)
    → rows (length rp) (row_of rp [] right) left right ≡ row_of (reverse left ++ rp) [] right
unfolding rows
rows_lem rp [] right = refl
rows_lem rp (a ∷ left) right =
    let width : length rp + 1 ≡ lev (a ∷ rp) [] = omega (arith, lev-nil (a ∷ rp)) in
    let next : length rp + 1 ≡ length (a ∷ rp) = omega arith in
    ap₂ (λ n row. rows n row left right) next
      (ap (λ n. n ∷ cells a n (row_of rp [] right) right) width ∙ cells_lem a rp [] right)
    ∙ rows_lem (a ∷ rp) left right
    ∙ ap (λ t. row_of t [] right)
        (sym (rw (reverse-cons a left) (append_assoc (reverse left) (a ∷ []) rp)))

last_cell_lem :
    (rp rq right : List ℕ) → last_cell (row_of rp rq right) ≡ lev rp (reverse right ++ rq)
unfolding last_cell row_of
last_cell_lem rp rq [] = refl
last_cell_lem rp rq (b ∷ []) = refl
last_cell_lem rp rq (b ∷ c ∷ right) =
    last_cell_lem rp (b ∷ rq) (c ∷ right)
    ∙ ap (lev rp)
        (sym (rw (reverse-cons b (c ∷ right)) (append_assoc (reverse (c ∷ right)) (b ∷ []) rq)))

-- The last cell of the last row is the distance of the two texts.
pub rows-eq-lev :
    (left right : List ℕ) → last_cell (rows 0 (first_row 0 right) left right) ≡ lev left right
rows-eq-lev left right =
    ap (λ r. last_cell (rows 0 r left right)) (first_row_lem [] right)
    ∙ ap last_cell (rows_lem [] left right)
    ∙ last_cell_lem (reverse left ++ []) [] right
    ∙ ap₂ lev (append-nil (reverse left)) (append-nil (reverse right))
    ∙ lev-reverse left right
