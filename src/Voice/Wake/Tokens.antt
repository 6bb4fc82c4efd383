-- ===== src/Voice/Wake/Tokens.antt =====
-- When one token is taken for another, and that normalising a token twice changes nothing.
use kitt_assistant.Base.{
  to_ascii_lowercase_idem, to_ascii_lowercase, ℕ, ◌≤◌, ◌≡◌, ◌↔◌, ◌⊎◌, inl, inr, refl, Bool, true,
  false, List, map, Text, length, arith, bytes, codes, text_eq_iff, retain, [], ◌∷◌, Option-cases,
}
use kitt_assistant.Voice.EditDistance.{bounded_edit_distance}
use kitt_assistant.Voice.EditDistance.Scripts.{Script, source, target, cost}
use kitt_assistant.Voice.EditDistance.Laws.{bounded_edit_distance-close_iff}
use kitt_assistant.Voice.Wake.{
  is_cedilla, is_accented_u, is_accented_o, is_accented_i, is_accented_e, is_accented_a,
  wake_token_matches, wake_phonetic_key, starts_k_or_q, is_excluded, within, is_alphanumeric,
  fold_char, normalize_token,
}

-- An edit script of at most `k` single-byte edits leads from the one text to the other.
abbrev pub IsClose : ℕ → List ℕ → List ℕ → Type 0
IsClose k p q = (s : Script) × (source s ≡ p) × (target s ≡ q) × (cost s ≤ k)

within_iff :
    (p q : List ℕ) (k : ℕ) → (within k (bounded_edit_distance p q k) ≡ true) ↔ IsClose k p q
within_iff p q k =
    let (to, from) = bounded_edit_distance-close_iff p q k in
    (
      λ h. elim (Option-cases (bounded_edit_distance p q k)) [
        | inl e ↦ cc (rw e at h)
        | inr (d, e) ↦ to (d, e, ground arith)
      ],
      λ close. let (d, e, h) = from close in ground arith,
    )

abbrev pub IsExcluded : Text → Type 0
IsExcluded t = (t ≡ codes "quit") ⊎ (t ≡ codes "quitt") ⊎ (t ≡ codes "kite")

is_excluded-eq-false_iff : (t : Text) → (is_excluded t ≡ false) ↔ (¬ IsExcluded t)
unfolding is_excluded
is_excluded-eq-false_iff t = ground (
  arith,
  text_eq_iff t (codes "quit"),
  text_eq_iff t (codes "quitt"),
  text_eq_iff t (codes "kite"),
)

-- The candidate passes for the expected token by sound.
abbrev pub SoundsLike : (ℕ → Bool) → Text → Text → ℕ → Type 0
SoundsLike wide candidate expected k =
    (¬ IsExcluded candidate)
    × (2 ≤ length (bytes candidate))
    × (length (bytes candidate) ≤ 6)
    × (starts_k_or_q candidate ≡ true)
    × IsClose k (bytes (wake_phonetic_key wide candidate)) (bytes (wake_phonetic_key wide expected))

-- A token matches exactly when it is the expected one, or it is none of "quit", "quitt" and "kite",
-- has two to six bytes, starts with k or q, and at most `k` single-byte edits lead from
-- its phonetic key to the expected token's.
pub wake_token_matches_iff :
    (wide : ℕ → Bool) (candidate expected : Text) (k : ℕ)
    → (wake_token_matches wide candidate expected k ≡ true)
      ↔ ((candidate ≡ expected) ⊎ SoundsLike wide candidate expected k)
unfolding wake_token_matches
wake_token_matches_iff wide candidate expected k = ground (
  arith,
  text_eq_iff candidate expected,
  is_excluded-eq-false_iff candidate,
  within_iff (bytes (wake_phonetic_key wide candidate)) (bytes (wake_phonetic_key wide expected)) k,
)

-- Lowering an ASCII letter changes none of the accent tests.
accents-lowered :
    (c : ℕ)
    → (is_accented_a (to_ascii_lowercase c) ≡ is_accented_a c)
      × (is_accented_e (to_ascii_lowercase c) ≡ is_accented_e c)
      × (is_accented_i (to_ascii_lowercase c) ≡ is_accented_i c)
      × (is_accented_o (to_ascii_lowercase c) ≡ is_accented_o c)
      × (is_accented_u (to_ascii_lowercase c) ≡ is_accented_u c)
      × (is_cedilla (to_ascii_lowercase c) ≡ is_cedilla c)
unfolding to_ascii_lowercase is_accented_a is_accented_e is_accented_i is_accented_o is_accented_u
    is_cedilla
accents-lowered c =
    (ground arith, ground arith, ground arith, ground arith, ground arith, ground arith)

letters_fixed :
    (fold_char b'a' ≡ b'a')
    × (fold_char b'e' ≡ b'e')
    × (fold_char b'i' ≡ b'i')
    × (fold_char b'o' ≡ b'o')
    × (fold_char b'u' ≡ b'u')
    × (fold_char b'c' ≡ b'c')
unfolding fold_char to_ascii_lowercase is_accented_a is_accented_e is_accented_i is_accented_o
    is_accented_u is_cedilla
letters_fixed = (refl, refl, refl, refl, refl, refl)

fold_char_idem : (c : ℕ) → fold_char (fold_char c) ≡ fold_char c
unfolding fold_char
fold_char_idem c = ground (arith, accents-lowered c, to_ascii_lowercase_idem c, letters_fixed)

retain-map_idem :
    (p : ℕ → Bool) (f : ℕ → ℕ) (t : Text)
    → ((c : ℕ) → f (f c) ≡ f c)
    → retain p (map f (retain p (map f t))) ≡ retain p (map f t)
unfolding retain
retain-map_idem p f [] idem = refl
retain-map_idem p f (c ∷ t) idem = ground (arith, retain-map_idem p f t idem, idem c)

-- Normalising a normalised token changes nothing, whatever the Unicode table says, so the key of a
-- token is the key of its normal form.
normalize_token_idem :
    (wide : ℕ → Bool) (t : Text)
    → (normalize_token wide (normalize_token wide t) ≡ normalize_token wide t)
      × (wake_phonetic_key wide (normalize_token wide t) ≡ wake_phonetic_key wide t)
unfolding normalize_token wake_phonetic_key
normalize_token_idem wide t =
    let again = retain-map_idem (is_alphanumeric wide) fold_char t fold_char_idem in
    (again, rw again)
