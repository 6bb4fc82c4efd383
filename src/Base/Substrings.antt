-- ===== src/Base/Substrings.antt =====
-- What `starts_with` and `contains` decide: the text can be cut around the part.
use mathlib.Core.Path.{◌≡◌, refl, ap}
use mathlib.Core.Logic.{◌↔◌}
use mathlib.Core.Logic.{inl, inr}
use mathlib.Core.Bool.{Bool, true, false}
use mathlib.Core.List.{List, [], ◌∷◌, ◌++◌}
use native.Mathlib.Omega.{arith}
use kitt_assistant.Base.Tests.{Bool-cases}
use kitt_assistant.Base.Lists.{Text, any, All}
use kitt_assistant.Base.Chars.{starts_with, contains}

-- The part `m` stands somewhere in the text `s`.
abbrev pub Occurs : Text → Text → Type 0
Occurs m s = (a : Text) × (b : Text) × (s ≡ a ++ (m ++ b))

pub starts_with_sound : (s m : Text) → starts_with s m ≡ true → (b : Text) × (s ≡ m ++ b)
unfolding starts_with
starts_with_sound s [] h = (s, refl)
starts_with_sound [] (p ∷ m) h = cc
starts_with_sound (c ∷ s) (p ∷ m) h =
    let (b, e) = starts_with_sound s m (ground arith) in (b, ground arith)

pub starts_with_complete : (s m b : Text) → s ≡ m ++ b → starts_with s m ≡ true
unfolding starts_with
starts_with_complete s [] b e = ground arith
starts_with_complete [] (p ∷ m) b e = cc
starts_with_complete (c ∷ s) (p ∷ m) b e = ground (arith, starts_with_complete s m b)

contains_sound : (s m : Text) → contains s m ≡ true → Occurs m s
unfolding contains
contains_sound [] m h = let (b, e) = starts_with_sound [] m h in ([], b, e)
contains_sound (c ∷ s) m h = elim (Bool-cases (starts_with (c ∷ s) m)) [
  | inl here ↦ let (b, e) = starts_with_sound (c ∷ s) m here in ([], b, e)
  | inr later ↦ let (a, b, e) = contains_sound s m (ground arith) in (c ∷ a, b, ap (◌∷◌ c) e)
]

contains_complete : (s m a b : Text) → s ≡ a ++ (m ++ b) → contains s m ≡ true
unfolding contains
contains_complete [] m [] b e = starts_with_complete [] m b e
contains_complete [] m (x ∷ a) b e = cc
contains_complete (c ∷ s) m [] b e = ground (arith, starts_with_complete (c ∷ s) m b e)
contains_complete (c ∷ s) m (x ∷ a) b e = ground (arith, contains_complete s m a b)

pub contains_iff : (s m : Text) → (contains s m ≡ true) ↔ Occurs m s
contains_iff s m = (contains_sound s m, λ (a, b, e). contains_complete s m a b e)

-- No test of the list passes exactly when each of them fails.
pub any-false_iff {ℓ κ} :
    {A : Type ℓ} (p : A → Bool) (P : A → Type κ) (xs : List A)
    → ((x : A) → (p x ≡ true) ↔ P x)
    → (any p xs ≡ false) ↔ All (λ x. ¬ P x) xs
any-false_iff p P [] h = (λ _. tt, λ _. refl)
any-false_iff p P (x ∷ xs) h = (
  λ e. (λ q. cc ((h x).1 q), (any-false_iff p P xs h).0 (ground arith)),
  λ (no_x, rest). elim (Bool-cases (p x)) [
    | inl yes_x ↦ absurd (no_x ((h x).0 yes_x))
    | inr e ↦ rw e ((any-false_iff p P xs h).1 rest)
  ],
)
