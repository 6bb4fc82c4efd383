-- ===== src/Providers/Listing.antt =====
-- `Vec::sort` and `Vec::dedup` on texts, which model discovery applies to the names that it finds.
-- `str` is ordered as its scalar values are.
use kitt_assistant.Base.{
  refl, ◌≡◌, ◌≢◌, inl, inr, sym, ap, ◌∙◌, Bool, true, false, ◌&&◌, ◌||◌, List, [], ◌∷◌, arith, Text,
  ltb, ◌==◌, if◌then◌else◌, any, text_eq, text_eq_iff, Bool-cases, if-of_true, if-of_false,
}

unfoldable pub text_le : Text → Text → Bool
text_le [] t = true
text_le (a ∷ s) [] = false
text_le (a ∷ s) (b ∷ t) = ltb a b || (a == b && text_le s t)

unfoldable pub insert_sorted : Text → List Text → List Text
insert_sorted t [] = t ∷ []
insert_sorted t (u ∷ us) =
    let rest = insert_sorted t us in if text_le t u then t ∷ u ∷ us else u ∷ rest

unfoldable pub sort : List Text → List Text
sort [] = []
sort (t ∷ ts) = insert_sorted t (sort ts)

-- A text before others of which no two neighbours are equal.
unfoldable pub cons_new : Text → List Text → List Text
cons_new t [] = t ∷ []
cons_new t (u ∷ us) = if text_eq t u then u ∷ us else t ∷ u ∷ us

unfoldable pub dedup : List Text → List Text
dedup [] = []
dedup (t ∷ ts) = cons_new t (dedup ts)

-- `t` may stand before the texts of a sorted list.
abbrev Leads : Text → List Text → Type 0
Leads t [] = Unit
Leads t (u ∷ us) = text_le t u ≡ true

abbrev pub IsSorted : List Text → Type 0
IsSorted [] = Unit
IsSorted (t ∷ ts) = Leads t ts × IsSorted ts

abbrev Differs : Text → List Text → Type 0
Differs t [] = Unit
Differs t (u ∷ us) = t ≢ u

-- Sorted, and no text occurs twice.
abbrev pub IsAscending : List Text → Type 0
IsAscending [] = Unit
IsAscending (t ∷ ts) = Leads t ts × Differs t ts × IsAscending ts

abbrev pub has : Text → List Text → Bool
has t ts = any (text_eq t) ts

text_le_total : (s t : Text) → text_le s t ≡ false → text_le t s ≡ true
unfolding text_le
text_le_total [] t h = ground arith
text_le_total (a ∷ s) [] h = refl
text_le_total (a ∷ s) (b ∷ t) h = ground (arith, text_le_total s t)

insert_sorted-Leads :
    (u t : Text) (ts : List Text) → text_le u t ≡ true → Leads u ts → Leads u (insert_sorted t ts)
unfolding insert_sorted
insert_sorted-Leads u t [] h k = h
insert_sorted-Leads u t (v ∷ vs) h k = elim (Bool-cases (text_le t v)) [
  | inl e ↦ if-of_true (Leads u) _ e h
  | inr e ↦ if-of_false (Leads u) _ e k
]

insert_sorted-IsSorted : (t : Text) (ts : List Text) → IsSorted ts → IsSorted (insert_sorted t ts)
unfolding insert_sorted
insert_sorted-IsSorted t [] h = (tt, tt)
insert_sorted-IsSorted t (u ∷ us) (leads, h) = elim (Bool-cases (text_le t u)) [
  | inl e ↦ if-of_true IsSorted _ e (e, (leads, h))
  | inr e ↦
      if-of_false IsSorted _ e
        (insert_sorted-Leads u t us (text_le_total t u e) leads, insert_sorted-IsSorted t us h)
]

sort-IsSorted : (ts : List Text) → IsSorted (sort ts)
unfolding sort
sort-IsSorted [] = tt
sort-IsSorted (t ∷ ts) = insert_sorted-IsSorted t (sort ts) (sort-IsSorted ts)

cons_new-Leads : (u t : Text) (ts : List Text) → text_le u t ≡ true → Leads u (cons_new t ts)
unfolding cons_new
cons_new-Leads u t [] h = h
cons_new-Leads u t (v ∷ vs) h = elim (Bool-cases (text_eq t v)) [
  | inl e ↦ if-of_true (Leads u) _ e (rw (sym ((text_eq_iff t v).0 e)) h)
  | inr e ↦ if-of_false (Leads u) _ e h
]

dedup-Leads : (u : Text) (ts : List Text) → Leads u ts → Leads u (dedup ts)
unfolding dedup
dedup-Leads u [] h = tt
dedup-Leads u (t ∷ ts) h = cons_new-Leads u t (dedup ts) h

cons_new-IsAscending :
    (t : Text) (ts : List Text) → Leads t ts → IsAscending ts → IsAscending (cons_new t ts)
unfolding cons_new
cons_new-IsAscending t [] h k = (tt, tt, tt)
cons_new-IsAscending t (u ∷ us) h k = elim (Bool-cases (text_eq t u)) [
  | inl e ↦ if-of_true IsAscending _ e k
  | inr e ↦ if-of_false IsAscending _ e (h, (λ same. ground (arith, text_eq_iff t u)), k)
]

dedup-IsAscending : (ts : List Text) → IsSorted ts → IsAscending (dedup ts)
unfolding dedup
dedup-IsAscending [] h = tt
dedup-IsAscending (t ∷ ts) (leads, h) =
    cons_new-IsAscending t (dedup ts) (dedup-Leads t ts leads) (dedup-IsAscending ts h)

has-insert_sorted : (s t : Text) (ts : List Text) → has s (insert_sorted t ts) ≡ has s (t ∷ ts)
unfolding insert_sorted
has-insert_sorted s t [] = refl
has-insert_sorted s t (u ∷ us) = ground (arith, has-insert_sorted s t us)

has-sort : (s : Text) (ts : List Text) → has s (sort ts) ≡ has s ts
unfolding sort
has-sort s [] = refl
has-sort s (t ∷ ts) = has-insert_sorted s t (sort ts) ∙ ap (λ b. text_eq s t || b) (has-sort s ts)

has-cons_new : (s t : Text) (ts : List Text) → has s (cons_new t ts) ≡ has s (t ∷ ts)
unfolding cons_new
has-cons_new s t [] = refl
has-cons_new s t (u ∷ us) = elim (Bool-cases (text_eq t u)) [
  | inl e ↦
      if-of_true (λ ts. has s ts ≡ has s (t ∷ u ∷ us)) _ e
        (rw ((text_eq_iff t u).0 e) (ground arith))
  | inr e ↦ if-of_false (λ ts. has s ts ≡ has s (t ∷ u ∷ us)) _ e refl
]

has-dedup : (s : Text) (ts : List Text) → has s (dedup ts) ≡ has s ts
unfolding dedup
has-dedup s [] = refl
has-dedup s (t ∷ ts) = has-cons_new s t (dedup ts) ∙ ap (λ b. text_eq s t || b) (has-dedup s ts)

-- The texts of a list, each once, in ascending order.
abbrev pub IsListing : List Text → List Text → Type 0
IsListing listed names = IsAscending listed × ((t : Text) → has t listed ≡ has t names)

pub dedup-sort-IsListing : (names : List Text) → IsListing (dedup (sort names)) names
dedup-sort-IsListing names = (
  dedup-IsAscending (sort names) (sort-IsSorted names),
  λ t. has-dedup t (sort names) ∙ has-sort t names,
)
