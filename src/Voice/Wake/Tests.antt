-- ===== src/Voice/Wake/Tests.antt =====
-- The matcher of the default phrases on the transcripts of the source's tests.
use kitt_assistant.Voice.EditDistance.{bounded_edit_distance}
use kitt_assistant.Voice.Wake.Matcher.{strip_wake-Strips, Strips}
use kitt_assistant.Voice.Wake.{
  init, is_excluded, last_text, is_cedilla, is_accented_u, is_accented_o, is_accented_i,
  is_accented_e, is_accented_a, fold_char, is_alphanumeric, normalize_tokens, wake_phrase_matches,
  wake_phonetic_key, accepts, strip_first, new_matcher, wake_token_matches, normalize_token,
  strip_wake, WakePhraseMatcher,
}
use kitt_assistant.Base.{
  bytes, join, some, none, is_whitespace, texts_eq, text_eq, to_ascii_lowercase,
  is_ascii_alphanumeric, [], ◌∷◌, true, map, ◌≡◌, split_whitespace, codes, refl,
}
use kitt_assistant.Voice.Samples.{no_wide}

abbrev matcher : WakePhraseMatcher
matcher = new_matcher no_wide (map codes ("kitt" ∷ "ei kitt" ∷ [])) true 1

asks_the_time :
    strip_wake no_wide matcher (codes "KITT, que horas são?") ≡ some (codes "que horas são?")
unfolding strip_wake new_matcher strip_first accepts wake_phrase_matches wake_token_matches
    normalize_tokens normalize_token is_alphanumeric is_ascii_alphanumeric fold_char
    to_ascii_lowercase text_eq texts_eq split_whitespace is_whitespace is_accented_a is_accented_e
    is_accented_i is_accented_o is_accented_u is_cedilla join
asks_the_time = refl

hears_the_key : strip_wake no_wide matcher (codes "Quite, qual") ≡ some (codes "qual")
unfolding strip_wake new_matcher strip_first accepts wake_phrase_matches wake_token_matches
    normalize_tokens normalize_token is_alphanumeric is_ascii_alphanumeric fold_char
    to_ascii_lowercase text_eq texts_eq split_whitespace is_whitespace is_accented_a is_accented_e
    is_accented_i is_accented_o is_accented_u is_cedilla last_text is_excluded bytes
    bounded_edit_distance wake_phonetic_key join
hears_the_key = refl

refuses_quit : strip_wake no_wide matcher (codes "quit now") ≡ none
unfolding strip_wake new_matcher strip_first accepts wake_phrase_matches wake_token_matches
    normalize_tokens normalize_token is_alphanumeric is_ascii_alphanumeric fold_char
    to_ascii_lowercase text_eq texts_eq split_whitespace is_whitespace is_accented_a is_accented_e
    is_accented_i is_accented_o is_accented_u is_cedilla last_text is_excluded init
refuses_quit = refl

strip_wake-Strips_example :
    Strips no_wide matcher
      (split_whitespace (codes "quit now"))
      matcher.phrases
      (strip_wake no_wide matcher (codes "quit now"))
strip_wake-Strips_example = strip_wake-Strips no_wide matcher (codes "quit now")
