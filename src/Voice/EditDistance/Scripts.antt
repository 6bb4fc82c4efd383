-- ===== src/Voice/EditDistance/Scripts.antt =====
-- Edit scripts, and the recursive distance that is the least cost of a script.
use kitt_assistant.Base.{
  append-nil, ℕ, suc, ◌+◌, ◌≤◌, min, ◌≡◌, refl, ap, List, [], ◌∷◌, ◌++◌, reverse, length, arith,
  ◌==◌, sym, subst, Bool-cases, inl, inr, ◌⊎◌, ◌∙◌, append-nil,
}
use mathlib.Core.Path.{ap₂}
use mathlib.Core.List.{reverse-cons, reverse-reverse}
use kitt_assistant.Voice.EditDistance.{cost_of}

pub data Op : Type 0 where
  keep insert delete : ℕ → Op
  replace : ℕ → ℕ → Op

abbrev pub Script : Type 0
Script = List Op

-- The text that a script starts from, the text that it makes, and what it costs.
abbrev pub source : Script → List ℕ
source [] = []
source (keep a ∷ s) = a ∷ source s
source (insert b ∷ s) = source s
source (delete a ∷ s) = a ∷ source s
source (replace a b ∷ s) = a ∷ source s

abbrev pub target : Script → List ℕ
target [] = []
target (keep a ∷ s) = a ∷ target s
target (insert b ∷ s) = b ∷ target s
target (delete a ∷ s) = target s
target (replace a b ∷ s) = b ∷ target s

abbrev pub cost : Script → ℕ
cost [] = 0
cost (keep a ∷ s) = cost s
cost (insert b ∷ s) = cost s + 1
cost (delete a ∷ s) = cost s + 1
cost (replace a b ∷ s) = cost s + 1

-- The recursive distance.
unfoldable pub lev : List ℕ → List ℕ → ℕ
lev [] q = length q
lev (a ∷ p) [] = suc (length p)
lev (a ∷ p) (b ∷ q) = min (min (lev p q + cost_of a b) (lev (a ∷ p) q + 1)) (lev p (b ∷ q) + 1)

pub lev-nil : (p : List ℕ) → lev p [] ≡ length p
unfolding lev
lev-nil [] = refl
lev-nil (a ∷ p) = refl

lev-insert-le : (p q : List ℕ) (b : ℕ) → lev p (b ∷ q) ≤ lev p q + 1
unfolding lev
lev-insert-le [] q b = omega arith
lev-insert-le (a ∷ p) q b = omega arith

lev-delete-le : (p q : List ℕ) (a : ℕ) → lev (a ∷ p) q ≤ lev p q + 1
unfolding lev
lev-delete-le p [] a = omega (arith, lev-nil p)
lev-delete-le p (b ∷ q) a = omega arith

lev-replace-le : (p q : List ℕ) (a b : ℕ) → lev (a ∷ p) (b ∷ q) ≤ lev p q + cost_of a b
unfolding lev
lev-replace-le p q a b = omega arith

-- No script is cheaper than the distance of its ends.
pub lev-le-cost : (s : Script) → lev (source s) (target s) ≤ cost s
lev-le-cost [] = omega (arith, lev-nil [])
lev-le-cost (keep a ∷ s) = ground (arith, lev-replace-le (source s) (target s) a a, lev-le-cost s)
lev-le-cost (insert b ∷ s) = omega (arith, lev-insert-le (source s) (target s) b, lev-le-cost s)
lev-le-cost (delete a ∷ s) = omega (arith, lev-delete-le (source s) (target s) a, lev-le-cost s)
lev-le-cost (replace a b ∷ s) =
    ground (arith, lev-replace-le (source s) (target s) a b, lev-le-cost s)

-- A script between two texts with a given cost.
abbrev pub Edits : List ℕ → List ℕ → ℕ → Type 0
Edits p q n = (s : Script) × (source s ≡ p) × (target s ≡ q) × (cost s ≡ n)

inserts : (q : List ℕ) → Edits [] q (length q)
inserts [] = ([], refl, refl, refl)
inserts (b ∷ q) = let (s, e, f, g) = inserts q in (insert b ∷ s, e, ap (◌∷◌ b) f, omega arith)

deletes : (p : List ℕ) → Edits p [] (length p)
deletes [] = ([], refl, refl, refl)
deletes (a ∷ p) = let (s, e, f, g) = deletes p in (delete a ∷ s, ap (◌∷◌ a) e, f, omega arith)

replaced : (p q : List ℕ) (a b n : ℕ) → Edits p q n → Edits (a ∷ p) (b ∷ q) (n + cost_of a b)
replaced p q a b n (s, e, f, g) = elim (Bool-cases (a == b)) [
  | inl same ↦ (keep a ∷ s, ap (◌∷◌ a) e, ground arith, ground arith)
  | inr other ↦ (replace a b ∷ s, ap (◌∷◌ a) e, ap (◌∷◌ b) f, ground arith)
]

min_cases : (a b c : ℕ) → (min (min a b) c ≡ a) ⊎ (min (min a b) c ≡ b) ⊎ (min (min a b) c ≡ c)
min_cases a b c = omega arith

inserted : (p q : List ℕ) (b n : ℕ) → Edits p q n → Edits p (b ∷ q) (n + 1)
inserted p q b n (s, e, f, g) = (insert b ∷ s, e, ap (◌∷◌ b) f, omega arith)

deleted : (p q : List ℕ) (a n : ℕ) → Edits p q n → Edits (a ∷ p) q (n + 1)
deleted p q a n (s, e, f, g) = (delete a ∷ s, ap (◌∷◌ a) e, f, omega arith)

-- The distance is the cost of a script.
pub lev-Edits : (p q : List ℕ) → Edits p q (lev p q)
unfolding lev
lev-Edits [] q = inserts q
lev-Edits (a ∷ p) [] = deletes (a ∷ p)
lev-Edits (a ∷ p) (b ∷ q) =
    let by_replace = replaced p q a b (lev p q) (lev-Edits p q) in
    let by_insert = inserted (a ∷ p) q b (lev (a ∷ p) q) (lev-Edits (a ∷ p) q) in
    let by_delete = deleted p (b ∷ q) a (lev p (b ∷ q)) (lev-Edits p (b ∷ q)) in
    elim (min_cases (lev p q + cost_of a b) (lev (a ∷ p) q + 1) (lev p (b ∷ q) + 1)) [
      | inl e ↦ subst (Edits (a ∷ p) (b ∷ q)) (sym e) by_replace
      | inr (inl e) ↦ subst (Edits (a ∷ p) (b ∷ q)) (sym e) by_insert
      | inr (inr e) ↦ subst (Edits (a ∷ p) (b ∷ q)) (sym e) by_delete
    ]

source-append : (s t : Script) → source (s ++ t) ≡ source s ++ source t
source-append [] t = refl
source-append (keep a ∷ s) t = ap (◌∷◌ a) (source-append s t)
source-append (insert b ∷ s) t = source-append s t
source-append (delete a ∷ s) t = ap (◌∷◌ a) (source-append s t)
source-append (replace a b ∷ s) t = ap (◌∷◌ a) (source-append s t)

target-append : (s t : Script) → target (s ++ t) ≡ target s ++ target t
target-append [] t = refl
target-append (keep a ∷ s) t = ap (◌∷◌ a) (target-append s t)
target-append (insert b ∷ s) t = ap (◌∷◌ b) (target-append s t)
target-append (delete a ∷ s) t = target-append s t
target-append (replace a b ∷ s) t = ap (◌∷◌ b) (target-append s t)

cost-append : (s t : Script) → cost (s ++ t) ≡ cost s + cost t
cost-append [] t = omega arith
cost-append (keep a ∷ s) t = cost-append s t
cost-append (insert b ∷ s) t = omega (arith, cost-append s t)
cost-append (delete a ∷ s) t = omega (arith, cost-append s t)
cost-append (replace a b ∷ s) t = omega (arith, cost-append s t)

source-reverse : (s : Script) → source (reverse s) ≡ reverse (source s)
source-reverse [] = refl
source-reverse (keep a ∷ s) = simp (reverse-cons, source-append, source-reverse s)
source-reverse (insert b ∷ s) = simp (reverse-cons, source-append, source-reverse s, append-nil)
source-reverse (delete a ∷ s) = simp (reverse-cons, source-append, source-reverse s)
source-reverse (replace a b ∷ s) = simp (reverse-cons, source-append, source-reverse s)

target-reverse : (s : Script) → target (reverse s) ≡ reverse (target s)
target-reverse [] = refl
target-reverse (keep a ∷ s) = simp (reverse-cons, target-append, target-reverse s)
target-reverse (insert b ∷ s) = simp (reverse-cons, target-append, target-reverse s)
target-reverse (delete a ∷ s) = simp (reverse-cons, target-append, target-reverse s, append-nil)
target-reverse (replace a b ∷ s) = simp (reverse-cons, target-append, target-reverse s)

cost-reverse : (s : Script) → cost (reverse s) ≡ cost s
cost-reverse [] = refl
cost-reverse (keep a ∷ s) =
    rw reverse-cons (omega (arith, cost-append (reverse s) (keep a ∷ []), cost-reverse s))
cost-reverse (insert b ∷ s) =
    rw reverse-cons (omega (arith, cost-append (reverse s) (insert b ∷ []), cost-reverse s))
cost-reverse (delete a ∷ s) =
    rw reverse-cons (omega (arith, cost-append (reverse s) (delete a ∷ []), cost-reverse s))
cost-reverse (replace a b ∷ s) =
    rw reverse-cons (omega (arith, cost-append (reverse s) (replace a b ∷ []), cost-reverse s))

lev-reverse-le : (p q : List ℕ) → lev (reverse p) (reverse q) ≤ lev p q
lev-reverse-le p q =
    let (s, e, f, g) = lev-Edits p q in
    let ends : lev (reverse p) (reverse q) ≡ lev (source (reverse s)) (target (reverse s)) =
      ap₂ lev (ap reverse (sym e) ∙ sym (source-reverse s))
        (ap reverse (sym f) ∙ sym (target-reverse s)) in
    omega (arith, ends, lev-le-cost (reverse s), cost-reverse s, g)

-- Reading both texts backwards leaves the distance as it is.
pub lev-reverse : (p q : List ℕ) → lev (reverse p) (reverse q) ≡ lev p q
lev-reverse p q =
    let back : lev (reverse (reverse p)) (reverse (reverse q)) ≡ lev p q =
      ap₂ lev (reverse-reverse p) (reverse-reverse q) in
    omega (arith, lev-reverse-le p q, lev-reverse-le (reverse p) (reverse q), back)

-- The lengths differ by no more than the distance.
pub length-le-lev :
    (p q : List ℕ) → (length p ≤ length q + lev p q) × (length q ≤ length p + lev p q)
unfolding lev
length-le-lev [] q = omega arith
length-le-lev (a ∷ p) [] = omega arith
length-le-lev (a ∷ p) (b ∷ q) =
    omega (arith, length-le-lev p q, length-le-lev (a ∷ p) q, length-le-lev p (b ∷ q))
