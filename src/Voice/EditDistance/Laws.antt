-- ===== src/Voice/EditDistance/Laws.antt =====
-- The bounded distance is the least cost of an edit script, up to the bound.
use mathlib.Core.Path.{subst₂}
use kitt_assistant.Base.{◌↔◌, ℕ, ◌≤◌, ◌<◌, ◌≡◌, Option, none, some, List, arith, leb, if◌then◌else◌}
use kitt_assistant.Voice.EditDistance.{bounded_edit_distance}
use kitt_assistant.Voice.EditDistance.Scripts.{
  Script, source, target, cost, lev, lev-le-cost, lev-Edits, length-le-lev, Edits,
}
use kitt_assistant.Voice.EditDistance.Rows.{rows-eq-lev}

bounded_edit_distance-eq-lev :
    (left right : List ℕ) (k : ℕ)
    → bounded_edit_distance left right k
      ≡ (if leb (lev left right) k then some (lev left right) else none)
unfolding bounded_edit_distance
bounded_edit_distance-eq-lev left right k =
    rw (rows-eq-lev left right) (ground (arith, length-le-lev left right))

-- What an answer under the bound `k` says of a script `s` between the two texts.
abbrev pub Judges : Script → ℕ → Option ℕ → Type 0
Judges s k none = k < cost s
Judges s k (some d) = (d ≤ k) × (d ≤ cost s) × Edits (source s) (target s) d

-- For every edit script `s` (keeping, inserting, deleting or replacing single bytes) and every bound
-- `k`: where the distance of the two ends of `s` is answered by `some d`, `d` is at most `k` and at
-- most the cost of `s`, and some script between the same ends costs exactly `d`; where it is
-- answered by `none`, `s` costs more than `k`.
pub bounded_edit_distance-Judges :
    (s : Script) (k : ℕ) → Judges s k (bounded_edit_distance (source s) (target s) k)
bounded_edit_distance-Judges s k =
    rw (bounded_edit_distance-eq-lev (source s) (target s) k)
      (ground (arith, lev-le-cost s, lev-Edits (source s) (target s)))

-- The bounded distance is within its bound exactly when some script is.
pub bounded_edit_distance-close_iff :
    (p q : List ℕ) (k : ℕ)
    → ((d : ℕ) × (bounded_edit_distance p q k ≡ some d) × (d ≤ k))
      ↔ ((s : Script) × (source s ≡ p) × (target s ≡ q) × (cost s ≤ k))
bounded_edit_distance-close_iff p q k = (
  λ (d, e, h).
      let (s, a, b, c) = lev-Edits p q in
      (s, a, b, ground (arith, bounded_edit_distance-eq-lev p q k)),
  λ (s, a, b, h).
      let least : lev p q ≤ cost s = subst₂ (λ x y. lev x y ≤ cost s) a b (lev-le-cost s) in
      (lev p q, ground (arith, bounded_edit_distance-eq-lev p q k), omega arith),
)
