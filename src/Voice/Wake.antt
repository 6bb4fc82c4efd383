-- ===== src/Voice/Wake.antt =====
-- apps/kittd/src/voice.rs: how a transcript is matched against the wake phrases.
pub mod Matcher
pub mod Tokens
mod Tests
use kitt_assistant.Base.{
  ℕ, ◌≤◌, Bool, true, false, not, ◌&&◌, ◌||◌, Option, none, some, List, [], ◌∷◌, ◌++◌, map, reverse,
  Text, length, take, drop, ltb, leb, ◌==◌, if◌then◌else◌, text_eq, texts_eq, codes, bytes,
  strip_prefix, to_ascii_lowercase, is_ascii_alphanumeric, split_whitespace, retain, is_empty, join,
  trim, any,
}
use kitt_assistant.Voice.EditDistance.{bounded_edit_distance}

-- `char::is_alphanumeric`: its table beyond ASCII is Unicode's, and stands as a parameter `wide`.
unfoldable pub is_alphanumeric : (ℕ → Bool) → ℕ → Bool
unfolding is_ascii_alphanumeric
is_alphanumeric wide c = if ltb c 128 then is_ascii_alphanumeric c else wide c

abbrev between : ℕ → ℕ → ℕ → Bool
between lo hi c = leb lo c && leb c hi

-- The arms of the `match` of `normalize_token` on one character: the accented forms of each letter.
unfoldable pub is_accented_a : ℕ → Bool
is_accented_a c = between 224 228 c || between 192 196 c

unfoldable pub is_accented_e : ℕ → Bool
is_accented_e c = between 232 235 c || between 200 203 c

unfoldable pub is_accented_i : ℕ → Bool
is_accented_i c = between 236 239 c || between 204 207 c

unfoldable pub is_accented_o : ℕ → Bool
is_accented_o c = between 242 246 c || between 210 214 c

unfoldable pub is_accented_u : ℕ → Bool
is_accented_u c = between 249 252 c || between 217 220 c

unfoldable pub is_cedilla : ℕ → Bool
is_cedilla c = c == 231 || c == 199

unfoldable pub fold_char : ℕ → ℕ
fold_char c =
    if is_accented_a c
    then b'a'
    else if is_accented_e c
    then b'e'
    else if is_accented_i c
    then b'i'
    else if is_accented_o c
    then b'o'
    else if is_accented_u c
    then b'u'
    else if is_cedilla c
    then b'c'
    else to_ascii_lowercase c

-- `str::strip_prefix("qu")` and the `k` in its place.
unfoldable pub respell_qu : Text → Text
unfolding strip_prefix
respell_qu s = elim (strip_prefix (codes "qu") s) [ none ↦ s | some stripped ↦ b'k' ∷ stripped ]

-- The loop that drops a character equal to the one before it.
unfoldable pub collapse : Option ℕ → Text → Text
collapse previous [] = []
collapse none (c ∷ s) = c ∷ collapse (some c) s
collapse (some p) (c ∷ s) = let rest = collapse (some c) s in if p == c then rest else c ∷ rest

-- `if value.len() >= 4 && last is 'e' or 'i' { value.pop() }`, with the text backwards.
abbrev pop_back : Text → Text
pop_back [] = []
pop_back (c ∷ s) = if c == b'e' || c == b'i' then s else c ∷ s

unfoldable pub drop_final_vowel : Text → Text
unfolding bytes
drop_final_vowel s = if leb 4 (length (bytes s)) then reverse (pop_back (reverse s)) else s

-- `candidate.as_bytes().first()` is `k` or `q`.
abbrev pub starts_k_or_q : Text → Bool
starts_k_or_q [] = false
starts_k_or_q (c ∷ s) = c == b'k' || c == b'q'

-- All but the last, and the last.
unfoldable pub init : List Text → List Text
init [] = []
init (t ∷ []) = []
init (t ∷ u ∷ ts) = t ∷ init (u ∷ ts)

unfoldable pub last_text : List Text → Text
last_text [] = []
last_text (t ∷ []) = t
last_text (t ∷ u ∷ ts) = last_text (u ∷ ts)

abbrev pub within : ℕ → Option ℕ → Bool
within k none = false
within k (some d) = leb d k

-- Names that sound like the wake word and are refused.
unfoldable pub is_excluded : Text → Bool
is_excluded t = text_eq t (codes "quit") || text_eq t (codes "quitt") || text_eq t (codes "kite")

pub record WakePhraseMatcher : Type 0 where
  pub phrases : List (List Text)
  pub prompt_hint : Text
  pub fuzzy_enabled : Bool
  pub max_distance : ℕ

module _ (wide : ℕ → Bool) where
  unfoldable pub normalize_token : Text → Text
  unfolding fold_char is_alphanumeric
  normalize_token token = retain (is_alphanumeric wide) (map fold_char token)

  unfoldable pub normalize_tokens : Text → List Text
  unfolding split_whitespace normalize_token
  normalize_tokens text =
      retain (λ t. not (is_empty t)) (map normalize_token (split_whitespace text))

  unfoldable pub wake_phonetic_key : Text → Text
  unfolding normalize_token respell_qu collapse drop_final_vowel
  wake_phonetic_key token = drop_final_vowel (collapse none (respell_qu (normalize_token token)))

  unfoldable pub wake_token_matches : Text → Text → ℕ → Bool
  wake_token_matches candidate expected max_distance =
      if text_eq candidate expected
      then true
      else if is_excluded candidate
      then false
      else if ltb (length (bytes candidate)) 2 || ltb 6 (length (bytes candidate))
      then false
      else if not (starts_k_or_q candidate)
      then false
      else within max_distance (
          bounded_edit_distance (bytes (wake_phonetic_key candidate))
            (bytes (wake_phonetic_key expected)) max_distance)

  unfoldable pub wake_phrase_matches : List Text → List Text → ℕ → Bool
  wake_phrase_matches candidate phrase max_distance =
      if not (length candidate == length phrase) || is_empty candidate
      then false
      else if ltb 1 (length candidate) && not (texts_eq (init candidate) (init phrase))
      then false
      else wake_token_matches (last_text candidate) (last_text phrase) max_distance

  -- `WakePhraseMatcher::new`
  unfoldable pub new_matcher : List Text → Bool → ℕ → WakePhraseMatcher
  unfolding normalize_tokens trim
  new_matcher phrases fuzzy_enabled max_distance = record {
    phrases = retain (λ tokens. not (is_empty tokens)) (map normalize_tokens phrases);
    prompt_hint = join (codes ". ") (retain (λ p. not (is_empty p)) (map trim phrases));
    fuzzy_enabled = fuzzy_enabled;
    max_distance = max_distance;
  }

  -- The test that the loop of `strip_prefix` makes of one phrase.
  unfoldable pub accepts : WakePhraseMatcher → List Text → List Text → Bool
  accepts m normalized phrase =
      if ltb (length normalized) (length phrase)
      then false
      else let candidate = take (length phrase) normalized in
        texts_eq candidate phrase
        || (m.fuzzy_enabled && wake_phrase_matches candidate phrase m.max_distance)

  -- The loop over the phrases.
  unfoldable pub strip_first : WakePhraseMatcher → List Text → List (List Text) → Option Text
  strip_first m original [] = none
  strip_first m original (phrase ∷ phrases) =
      let rest = strip_first m original phrases in
      if accepts m (map normalize_token original) phrase
      then some (join (codes " ") (drop (length phrase) original))
      else rest

  -- `WakePhraseMatcher::strip_prefix`
  unfoldable pub strip_wake : WakePhraseMatcher → Text → Option Text
  strip_wake m text = strip_first m (split_whitespace text) m.phrases
