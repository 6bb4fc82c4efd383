-- ===== src/Voice/Wake/Matcher.antt =====
-- Which wake phrase a transcript starts with, and what is left of it.
use kitt_assistant.Base.{
  is_empty, length-append, sym, ℕ, suc, ◌≤◌, ◌≡◌, ◌↔◌, ◌⊎◌, inl, inr, refl, Bool, true, false,
  Option, none, some, List, [], ◌∷◌, ◌++◌, map, Text, length, take, drop, arith, codes, join,
  texts_eq_iff, Bool-cases, All, split_whitespace, ap,
}
use kitt_assistant.Voice.Wake.{
  WakePhraseMatcher, wake_token_matches, wake_phrase_matches, accepts, strip_first, strip_wake,
  normalize_token, init, last_text,
}
use kitt_assistant.Voice.Wake.Tokens.{SoundsLike, wake_token_matches_iff}

init-last_text : (t : Text) (ts : List Text) → init (t ∷ ts) ++ last_text (t ∷ ts) ∷ [] ≡ t ∷ ts
unfolding init last_text
init-last_text t [] = refl
init-last_text t (u ∷ ts) = ap (◌∷◌ t) (init-last_text u ts)

length-init : (t : Text) (ts : List Text) → length (init (t ∷ ts)) ≡ length ts
unfolding init
length-init t [] = refl
length-init t (u ∷ ts) = ap suc (length-init u ts)

-- Same number of tokens, not zero, the same before the last, and the last ones match.
abbrev pub IsNear : (ℕ → Bool) → List Text → List Text → ℕ → Type 0
IsNear wide candidate phrase k =
    (shared : List Text) × (heard : Text) × (expected : Text) × (candidate ≡ shared ++ heard ∷ [])
    × (phrase ≡ shared ++ expected ∷ [])
    × ((heard ≡ expected) ⊎ SoundsLike wide heard expected k)

last_text-append : (ts : List Text) (t : Text) → last_text (ts ++ t ∷ []) ≡ t
unfolding last_text
last_text-append [] t = refl
last_text-append (u ∷ []) t = refl
last_text-append (u ∷ v ∷ ts) t = last_text-append (v ∷ ts) t

filled : (ts : List Text) (t : Text) → is_empty (ts ++ t ∷ []) ≡ false
filled [] t = refl
filled (u ∷ ts) t = refl

init-append : (ts : List Text) (t : Text) → init (ts ++ t ∷ []) ≡ ts
unfolding init
init-append [] t = refl
init-append (u ∷ []) t = refl
init-append (u ∷ v ∷ ts) t = ap (◌∷◌ u) (init-append (v ∷ ts) t)

short_inits :
    (c p : Text) (cs ps : List Text)
    → length (c ∷ cs) ≤ 1
    → length cs ≡ length ps
    → init (c ∷ cs) ≡ init (p ∷ ps)
unfolding init
short_inits c p [] [] h e = refl
short_inits c p [] (q ∷ ps) h e = absurd (omega arith)
short_inits c p (d ∷ cs) ps h e = absurd (omega arith)

phrase_parts :
    (wide : ℕ → Bool) (candidate phrase : List Text) (k : ℕ)
    → wake_phrase_matches wide candidate phrase k ≡ true
    → (length candidate ≡ length phrase)
      × (is_empty candidate ≡ false)
      × ((length candidate ≤ 1) ⊎ (init candidate ≡ init phrase))
      × (wake_token_matches wide (last_text candidate) (last_text phrase) k ≡ true)
unfolding wake_phrase_matches
phrase_parts wide candidate phrase k h = ground (arith, texts_eq_iff (init candidate) (init phrase))

wake_phrase_matches_sound :
    (wide : ℕ → Bool) (candidate phrase : List Text) (k : ℕ)
    → wake_phrase_matches wide candidate phrase k ≡ true
    → IsNear wide candidate phrase k
wake_phrase_matches_sound wide [] phrase k h =
    let (_, filled, _, _) = phrase_parts wide [] phrase k h in absurd (ground arith)
wake_phrase_matches_sound wide (c ∷ cs) [] k h =
    let (same, _, _, _) = phrase_parts wide (c ∷ cs) [] k h in absurd (omega arith)
wake_phrase_matches_sound wide (c ∷ cs) (p ∷ ps) k h =
    let (same, _, inits, token) = phrase_parts wide (c ∷ cs) (p ∷ ps) k h in
    let shared : init (c ∷ cs) ≡ init (p ∷ ps) = elim inits [
      | inl short ↦ short_inits c p cs ps short (omega arith)
      | inr e ↦ e
    ] in
    (
      init (c ∷ cs),
      last_text (c ∷ cs),
      last_text (p ∷ ps),
      sym (init-last_text c cs),
      sym (rw shared (init-last_text p ps)),
      (wake_token_matches_iff wide (last_text (c ∷ cs)) (last_text (p ∷ ps)) k).0 token,
    )

wake_phrase_matches-concat :
    (wide : ℕ → Bool) (shared : List Text) (heard expected : Text) (k : ℕ)
    → wake_token_matches wide heard expected k ≡ true
    → wake_phrase_matches wide (shared ++ heard ∷ []) (shared ++ expected ∷ []) k ≡ true
unfolding wake_phrase_matches
wake_phrase_matches-concat wide shared heard expected k h = ground (
  arith,
  init-append shared heard,
  init-append shared expected,
  last_text-append shared heard,
  last_text-append shared expected,
  length-append shared (heard ∷ []),
  length-append shared (expected ∷ []),
  texts_eq_iff (init (shared ++ heard ∷ [])) (init (shared ++ expected ∷ [])),
  filled shared heard,
)

wake_phrase_matches_iff :
    (wide : ℕ → Bool) (candidate phrase : List Text) (k : ℕ)
    → (wake_phrase_matches wide candidate phrase k ≡ true) ↔ IsNear wide candidate phrase k
wake_phrase_matches_iff wide candidate phrase k = (
  wake_phrase_matches_sound wide candidate phrase k,
  λ (shared, heard, expected, e, f, near).
      rw (e, f)
        (wake_phrase_matches-concat wide shared heard expected k
          ((wake_token_matches_iff wide heard expected k).1 near)),
)

-- A phrase whose tokens stand at the start of the words: exactly, or nearly where that is enabled.
abbrev pub IsHeard : (ℕ → Bool) → WakePhraseMatcher → List Text → List Text → Type 0
IsHeard wide m words phrase =
    (length phrase ≤ length words)
    × ((take (length phrase) words ≡ phrase)
        ⊎ ((m.fuzzy_enabled ≡ true)
            × IsNear wide (take (length phrase) words) phrase m.max_distance))

accepts_iff :
    (wide : ℕ → Bool) (m : WakePhraseMatcher) (words phrase : List Text)
    → (accepts wide m words phrase ≡ true) ↔ IsHeard wide m words phrase
unfolding accepts
accepts_iff wide m words phrase = ground (
  arith,
  texts_eq_iff (take (length phrase) words) phrase,
  wake_phrase_matches_iff wide (take (length phrase) words) phrase m.max_distance,
)

-- What an answer says of the phrases that were tried, given the transcript's words.
abbrev pub Strips :
    (ℕ → Bool) → WakePhraseMatcher → List Text → List (List Text) → Option Text → Type 0
Strips wide m original phrases none =
    All (λ p. ¬ IsHeard wide m (map (normalize_token wide) original) p) phrases
Strips wide m original phrases (some rest) =
    (before : List (List Text)) × (phrase : List Text) × (after : List (List Text)) × (phrases
      ≡ before ++ phrase ∷ after)
    × All (λ p. ¬ IsHeard wide m (map (normalize_token wide) original) p) before
    × IsHeard wide m (map (normalize_token wide) original) phrase
    × (rest ≡ join (codes " ") (drop (length phrase) original))

later :
    (wide : ℕ → Bool) (m : WakePhraseMatcher) (original p : List Text) (ps : List (List Text))
    (answer : Option Text)
    → ¬ IsHeard wide m (map (normalize_token wide) original) p
    → Strips wide m original ps answer
    → Strips wide m original (p ∷ ps) answer
later wide m original p ps none missed rest = (missed, rest)
later wide m original p ps (some t) missed (before, phrase, after, e, skipped, heard, left) =
    (p ∷ before, phrase, after, ap (◌∷◌ p) e, (missed, skipped), heard, left)

strip_first-Strips :
    (wide : ℕ → Bool) (m : WakePhraseMatcher) (original : List Text) (ps : List (List Text))
    → Strips wide m original ps (strip_first wide m original ps)
unfolding strip_first
strip_first-Strips wide m original [] = tt
strip_first-Strips wide m original (p ∷ ps) =
    let (to, from) = accepts_iff wide m (map (normalize_token wide) original) p in
    elim (Bool-cases (accepts wide m (map (normalize_token wide) original) p)) [
      | inl hit ↦ rw hit ([], p, ps, refl, tt, to hit, refl)
      | inr miss ↦ rw miss (
          later wide m original p ps _ (λ heard. cc (from heard))
            (strip_first-Strips wide m original ps))
    ]

-- The answer for a transcript is the rest of its words behind the first phrase of the list that is
-- heard at its start (token by token, or up to the last token's sound where the matcher is fuzzy),
-- joined by blanks; there is no answer exactly when none of the phrases is heard.
pub strip_wake-Strips :
    (wide : ℕ → Bool) (m : WakePhraseMatcher) (text : Text)
    → Strips wide m (split_whitespace text) m.phrases (strip_wake wide m text)
unfolding strip_wake
strip_wake-Strips wide m text = strip_first-Strips wide m (split_whitespace text) m.phrases
