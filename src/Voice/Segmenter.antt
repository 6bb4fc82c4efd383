-- ===== src/Voice/Segmenter.antt =====
-- apps/kittd/src/voice.rs, `Segmenter`: from a stream of samples to utterances. Sample counters are
-- plain numbers: they stay below the length of the captured audio.
pub mod Step
pub mod Keeping
pub mod Stream
mod Tests
use kitt_assistant.Base.{
  ℕ, ◌+◌, ◌*◌, ◌/◌, ◌%◌, ◌^◌, max, Bool, true, false, not, ◌&&◌, Option, none, some, List, [], ◌∷◌,
  ◌++◌, Float32, length, ltb, leb, if◌then◌else◌,
}
use kitt_assistant.Voice.Config.{VoiceConfig}

-- `as usize` keeps 64 bits.
unfoldable pub ms_to_samples : ℕ → ℕ → ℕ
ms_to_samples sample_rate millis = max (sample_rate * millis / 1000) 1 % 2 ^ 64

pub record Segmenter (F : Type 0) : Type 0 where
  pub sample_rate : ℕ
  pub config : VoiceConfig F
  pub noise_floor : F
  pub pre_roll : List F
  pub current : List F
  pub speaking : Bool
  pub candidate_voiced_samples : ℕ
  pub speech_samples : ℕ
  pub silence_samples : ℕ

module _ (fl : Float32) where
  open fl use {F, lit, neg, add, mul, div, sqrt, le, of_usize}

  -- `<` is false on NaN, as `<=` is.
  abbrev below : F → F → Bool
  below a b = le a b && not (le b a)

  -- `f32::clamp(-1.0, 1.0)`
  abbrev pub clamp : F → F
  clamp x =
      let low = if below x (neg (lit 1 1)) then neg (lit 1 1) else x in
      if below (lit 1 1) low then lit 1 1 else low

  sum_squares : F → List F → F
  sum_squares acc [] = acc
  sum_squares acc (x ∷ xs) = sum_squares (add acc (mul (clamp x) (clamp x))) xs

  unfoldable pub rms : List F → F
  unfolding sum_squares
  rms samples = sqrt (div (sum_squares (lit 0 1) samples) (of_usize (length samples)))

  -- `Segmenter::new`
  unfoldable pub new_segmenter : ℕ → VoiceConfig F → Segmenter F
  new_segmenter sample_rate config = record {
    sample_rate = sample_rate;
    config = config;
    noise_floor = lit 5 1000;
    pre_roll = [];
    current = [];
    speaking = false;
    candidate_voiced_samples = 0;
    speech_samples = 0;
    silence_samples = 0;
  }

-- `while self.pre_roll.len() > limit { self.pre_roll.pop_front(); }`
unfoldable pub trim_front {ℓ} : {A : Type ℓ} → ℕ → List A → List A
trim_front limit [] = []
trim_front limit (x ∷ xs) =
    let rest = trim_front limit xs in if ltb limit (length (x ∷ xs)) then rest else x ∷ xs

module _ {F : Type 0} (s : Segmenter F) where
  abbrev pub limit_of : ℕ → ℕ
  limit_of millis = ms_to_samples s.sample_rate millis

  unfoldable pub extend_pre_roll : List F → Segmenter F
  extend_pre_roll samples = record s {
    pre_roll = trim_front (limit_of s.config.pre_roll_ms) (s.pre_roll ++ samples);
  }

  -- `Segmenter::reset`, and the resets at the end of `push`, which clear the same fields.
  unfoldable pub reset : Segmenter F
  reset = record s {
    pre_roll = [];
    current = [];
    speaking = false;
    candidate_voiced_samples = 0;
    speech_samples = 0;
    silence_samples = 0;
  }

  -- `push` from the two limits on: the utterance goes on, or it ends and is kept if it is long enough.
  unfoldable pub finish : Segmenter F × Option (List F)
  unfolding reset
  finish =
      if ltb s.silence_samples (limit_of s.config.silence_ms)
        && ltb (length s.current) (limit_of s.config.max_utterance_ms)
      then (s, none)
      else (
        reset,
        if leb (limit_of s.config.min_speech_ms) s.speech_samples then some s.current else none,
      )

-- The branch of `push` outside speech; `noise` is the new noise floor of an unvoiced chunk.
unfoldable pub push_idle :
    {F : Type 0} → Segmenter F → List F → F → Bool → Segmenter F × Option (List F)
unfolding extend_pre_roll
push_idle s samples noise voiced =
    let t = extend_pre_roll s samples in
    let candidate = t.candidate_voiced_samples + length samples in
    if not voiced
    then (record t { candidate_voiced_samples = 0; noise_floor = noise }, none)
    else if ltb candidate (limit_of t t.config.speech_start_ms)
    then (record t { candidate_voiced_samples = candidate }, none)
    else finish (record t {
      speaking = true;
      current = t.current ++ t.pre_roll;
      pre_roll = [];
      speech_samples = candidate;
      candidate_voiced_samples = 0;
      silence_samples = 0;
    })

-- The branch of `push` within speech.
unfoldable pub push_speaking :
    {F : Type 0} → Segmenter F → List F → Bool → Segmenter F × Option (List F)
push_speaking s samples voiced =
    let longer = s.current ++ samples in
    finish (
      if voiced
      then record s {
        current = longer;
        speech_samples = s.speech_samples + length samples;
        silence_samples = 0;
      }
      else record s { current = longer; silence_samples = s.silence_samples + length samples })

module _ (fl : Float32) where
  open fl use {F, lit, add, mul, le}

  -- The level from which a chunk counts as voiced, lower within speech.
  unfoldable pub start_threshold : Segmenter F → F
  start_threshold s = fl.max s.config.min_rms (mul s.noise_floor s.config.noise_multiplier)

  unfoldable pub is_voiced : Segmenter F → F → Bool
  unfolding start_threshold
  is_voiced s level =
      if s.speaking
      then le (mul (start_threshold s) s.config.vad_release_ratio) level
      else le (start_threshold s) level

  unfoldable pub next_noise_floor : Segmenter F → F → F
  next_noise_floor s level =
      add (mul s.noise_floor (lit 985 1000))
        (mul (fl.min level (mul s.config.min_rms (lit 4 1))) (lit 15 1000))

  -- `Segmenter::push`
  unfoldable pub push : Segmenter F → List F → Segmenter F × Option (List F)
  push s [] = (s, none)
  push s (x ∷ xs) =
      let samples = x ∷ xs in
      let level = rms fl samples in
      if s.speaking
      then push_speaking s samples (is_voiced s level)
      else push_idle s samples (next_noise_floor s level) (is_voiced s level)
