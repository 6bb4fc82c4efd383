-- ===== src/Speech.antt =====
-- crates/kitt-infrastructure/src/lib.rs: speech over the programs of the system. The profile of a voice
-- and the arguments that it gives to the programs of Linux, macOS and Windows. Durations are
-- in milliseconds.
pub mod Bounds
pub mod Piper
pub mod Playing
pub mod Leftovers
pub mod Processes
mod Tests
pub mod Backends
use kitt_assistant.Base.{
  neg_part, pos_part, leb_ℤ, pos, ℤ, negsuc, refl, ◌≡◌, ◌≢◌, ◌↔◌, ◌⊎◌, inl, inr, sym, ap, subst,
  ◌∙◌, Bool, true, false, not, ◌&&◌, ◌||◌, Option, none, some, List, [], ◌∷◌, ◌++◌, map, reverse, ℕ,
  zero, suc, ◌+◌, ◌-◌, ◌*◌, ◌/◌, ◌%◌, ◌^◌, ◌≤◌, ◌<◌, min, max, arith, String, Text, ltb, leb, ◌==◌,
  if◌then◌else◌, Result, ok, err, ◌>>=◌, ◌>>◌, refuse_if, ok_or, map_err, length, take, drop, all,
  any, All, codes, bytes, text_eq, text_eq_iff, is_empty, starts_with, Bool-cases, Option-cases,
  Result-cases, if-of_true, if-of_false, and-true, decimal, trim, to_ascii_lowercase, is_blank,
  join, ok_or-eq-ok, retain, strip_prefix, texts_eq, >>=-eq-ok,
}
use kitt_assistant.SettingsOverlay.VoiceSettings.{wrap_i32}

-- a - b
abbrev pub difference : ℕ → ℕ → ℤ
difference a b = if leb b a then pos (a - b) else negsuc (b - a - 1)

abbrev pub plus : ℤ → ℤ → ℤ
plus a b = difference (pos_part a + pos_part b) (neg_part a + neg_part b)

abbrev pub times : ℤ → ℕ → ℤ
times a k = difference (pos_part a * k) (neg_part a * k)

-- `i32::clamp`
abbrev pub clamp_ℤ : ℤ → ℤ → ℤ → ℤ
clamp_ℤ low high a = if not (leb_ℤ low a) then low else if not (leb_ℤ a high) then high else a

-- `i32`'s `Display`
abbrev pub signed : ℤ → Text
signed (pos n) = decimal n
signed (negsuc n) = b'-' ∷ decimal (suc n)

pub record SystemVoiceProfile : Type 0 where
  pub voice_name : Option Text
  pub prefer_male : Bool
  pub rate : ℤ
  pub pitch : ℤ
  pub volume : ℕ
  pub timeout : ℕ

-- `SystemVoiceProfile::default`
abbrev pub default_profile : SystemVoiceProfile
default_profile = record {
  voice_name = none;
  prefer_male = true;
  rate = negsuc 0;
  pitch = negsuc 1;
  volume = 95;
  timeout = 30000;
}

abbrev pub ten : ℤ
ten = pos 10

abbrev pub minus_ten : ℤ
minus_ten = negsuc 9

-- `.map(str::trim).filter(…)`
abbrev named_voice : Option Text → Option Text
named_voice none = none
named_voice (some name) = if is_empty (trim name) then none else some (trim name)

abbrev clamp : ℕ → ℕ → ℕ → ℕ
clamp low high n = if ltb n low then low else if ltb high n then high else n

unfoldable pub normalized : SystemVoiceProfile → SystemVoiceProfile
unfolding trim
normalized p = record {
  voice_name = named_voice p.voice_name;
  prefer_male = p.prefer_male;
  rate = clamp_ℤ minus_ten ten p.rate;
  pitch = clamp_ℤ minus_ten ten p.pitch;
  volume = min p.volume 100;
  timeout = clamp 500 120000 p.timeout;
}

unfoldable pub macos_speech_rate : ℤ → ℤ
macos_speech_rate rate =
    clamp_ℤ (pos 95) (pos 255) (plus (pos 175) (times (clamp_ℤ minus_ten ten rate) 8))

unfoldable pub espeak_pitch : ℤ → ℤ
espeak_pitch pitch =
    clamp_ℤ (pos 0) (pos 99) (plus (pos 50) (times (clamp_ℤ minus_ten ten pitch) 4))

abbrev hyphen_for_underscore : ℕ → ℕ
hyphen_for_underscore c = if c == b'_' then b'-' else c

unfoldable pub normalized_tts_locale : Option Text → Option Text
unfolding trim
normalized_tts_locale none = none
normalized_tts_locale (some locale) =
    let value = trim locale in
    if is_empty value then none else some (map to_ascii_lowercase (map hyphen_for_underscore value))

-- A program with its arguments and the variables that are set for it.
pub record Command : Type 0 where
  pub program : Text
  pub args : List Text
  pub env : List (Text × Text)

abbrev pub option_args : Text → Option Text → List Text
option_args flag none = []
option_args flag (some value) = flag ∷ value ∷ []

-- The arguments of `spd-say` for a rate, a pitch and a volume.
unfoldable pub spd_rate : SystemVoiceProfile → ℤ
spd_rate p = wrap_i32 (times p.rate 10)

unfoldable pub spd_pitch : SystemVoiceProfile → ℤ
spd_pitch p = wrap_i32 (times p.pitch 10)

unfoldable pub spd_volume : SystemVoiceProfile → ℤ
spd_volume p = difference (p.volume * 2) 100

abbrev spd_voice : SystemVoiceProfile → List Text
spd_voice p = elim p.voice_name [
  | some voice ↦ codes "-y" ∷ voice ∷ []
  | none ↦ if p.prefer_male then codes "-t" ∷ codes "male1" ∷ [] else []
]

unfoldable pub spd_say : SystemVoiceProfile → Option Text → Text → Command
spd_say p locale text = record {
  program = codes "spd-say";
  args =
      (codes "-w"
        ∷ codes "-r"
        ∷ signed (spd_rate p)
        ∷ codes "-p"
        ∷ signed (spd_pitch p)
        ∷ codes "-i"
        ∷ signed (spd_volume p)
        ∷ [])
      ++ option_args (codes "-l") (normalized_tts_locale locale)
      ++ spd_voice p
      ++ (codes "--" ∷ text ∷ []);
  env = [];
}

abbrev pub espeak_volume : SystemVoiceProfile → ℕ
espeak_volume p = min (p.volume * 2) 200

-- The voice of the fallback programs.
abbrev pub fallback_voice : SystemVoiceProfile → Option Text → Option Text
fallback_voice p locale = elim p.voice_name [
  | some voice ↦ some voice
  | none ↦ normalized_tts_locale locale
]

unfoldable pub espeak : Text → SystemVoiceProfile → Option Text → Text → Command
espeak program p locale path = record {
  program = program;
  args =
      option_args (codes "-v") (fallback_voice p locale)
      ++ (codes "-s"
          ∷ signed (macos_speech_rate p.rate)
          ∷ codes "-p"
          ∷ signed (espeak_pitch p.pitch)
          ∷ codes "-a"
          ∷ decimal (espeak_volume p)
          ∷ codes "-f"
          ∷ path
          ∷ []);
  env = [];
}

-- `say` of macOS.
unfoldable pub say : SystemVoiceProfile → Text → Command
say p text = record {
  program = codes "say";
  args =
      option_args (codes "-v") p.voice_name
      ++ (codes "-r" ∷ signed (macos_speech_rate p.rate) ∷ text ∷ []);
  env = [];
}

abbrev script : Text
script =
    codes
      "$text=[Console]::In.ReadToEnd();Add-Type -AssemblyName System.Speech;$speaker=New-Object System.Speech.Synthesis.SpeechSynthesizer;$voice=$env:KITT_TTS_VOICE_NAME;$preferMale=$env:KITT_TTS_PREFER_MALE -eq '1';if($voice){try{$speaker.SelectVoice($voice)}catch{}}elseif($preferMale){try{$culture=[System.Globalization.CultureInfo]::GetCultureInfo($env:KITT_TTS_LOCALE);$speaker.SelectVoiceByHints([System.Speech.Synthesis.VoiceGender]::Male,[System.Speech.Synthesis.VoiceAge]::Adult,0,$culture)}catch{try{$speaker.SelectVoiceByHints([System.Speech.Synthesis.VoiceGender]::Male)}catch{}}};$speaker.Rate=[int]$env:KITT_TTS_RATE;$speaker.Volume=[int]$env:KITT_TTS_VOLUME;$speaker.Speak($text);"

abbrev unwrap_text : Text → Option Text → Text
unwrap_text other none = other
unwrap_text other (some t) = t

-- PowerShell of Windows.
unfoldable pub powershell : SystemVoiceProfile → Option Text → Command
powershell p locale = record {
  program = codes "powershell.exe";
  args = codes "-NoProfile" ∷ codes "-NonInteractive" ∷ codes "-Command" ∷ script ∷ [];
  env =
      (codes "KITT_TTS_VOICE_NAME", unwrap_text [] p.voice_name)
      ∷ (codes "KITT_TTS_PREFER_MALE", (if p.prefer_male then codes "1" else codes "0"))
      ∷ (codes "KITT_TTS_LOCALE", unwrap_text (codes "pt-BR") locale)
      ∷ (codes "KITT_TTS_RATE", signed p.rate)
      ∷ (codes "KITT_TTS_VOLUME", decimal p.volume)
      ∷ [];
}
