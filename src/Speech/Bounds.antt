-- ===== src/Speech/Bounds.antt =====
-- The numbers that the programs of the system are given.
use kitt_assistant.Speech.Backends.{new_speaker}
use kitt_assistant.Base.{leb_ℤ, pos, negsuc, ℤ, refl, ◌≡◌, true, ◌≤◌, arith}
use kitt_assistant.SettingsOverlay.VoiceSettings.{wrap_i32}
use kitt_assistant.Speech.{
  SystemVoiceProfile, clamp_ℤ, plus, times, ten, minus_ten, normalized, macos_speech_rate,
  espeak_pitch, espeak_volume, spd_rate, spd_pitch, spd_volume,
}

abbrev pub IsBetween : ℤ → ℤ → ℤ → Type 0
IsBetween low high a = (leb_ℤ low a ≡ true) × (leb_ℤ a high ≡ true)

clamp_ℤ-IsBetween :
    (low high a : ℤ) → leb_ℤ low high ≡ true → IsBetween low high (clamp_ℤ low high a)
clamp_ℤ-IsBetween (pos l) (pos h) (pos a) e = ground arith
clamp_ℤ-IsBetween (pos l) (pos h) (negsuc a) e = ground arith
clamp_ℤ-IsBetween (pos l) (negsuc h) a e = ground arith
clamp_ℤ-IsBetween (negsuc l) (pos h) (pos a) e = ground arith
clamp_ℤ-IsBetween (negsuc l) (pos h) (negsuc a) e = ground arith
clamp_ℤ-IsBetween (negsuc l) (negsuc h) (pos a) e = ground arith
clamp_ℤ-IsBetween (negsuc l) (negsuc h) (negsuc a) e = ground arith

-- Ten times a number between -10 and 10 is between -100 and 100, and an `i32` holds it.
times_ten :
    (a : ℤ) → IsBetween minus_ten ten a → IsBetween (negsuc 99) (pos 100) (wrap_i32 (times a 10))
unfolding wrap_i32
times_ten (pos n) (l, h) = ground arith
times_ten (negsuc n) (l, h) = ground arith

macos_speech_rate-IsBetween : (rate : ℤ) → IsBetween (pos 95) (pos 255) (macos_speech_rate rate)
unfolding macos_speech_rate
macos_speech_rate-IsBetween rate =
    clamp_ℤ-IsBetween (pos 95) (pos 255) (plus (pos 175) (times (clamp_ℤ minus_ten ten rate) 8))
      refl

espeak_pitch-IsBetween : (pitch : ℤ) → IsBetween (pos 0) (pos 99) (espeak_pitch pitch)
unfolding espeak_pitch
espeak_pitch-IsBetween pitch =
    clamp_ℤ-IsBetween (pos 0) (pos 99) (plus (pos 50) (times (clamp_ℤ minus_ten ten pitch) 4)) refl

-- The rate, the pitch and the volume for each program, and the time that it has.
abbrev pub IsBounded : SystemVoiceProfile → Type 0
IsBounded p =
    IsBetween (negsuc 99) (pos 100) (spd_rate p)
    × IsBetween (negsuc 99) (pos 100) (spd_pitch p)
    × IsBetween (negsuc 99) (pos 100) (spd_volume p)
    × IsBetween (pos 95) (pos 255) (macos_speech_rate p.rate)
    × IsBetween (pos 0) (pos 99) (espeak_pitch p.pitch)
    × (espeak_volume p ≤ 200)
    × (500 ≤ p.timeout)
    × (p.timeout ≤ 120000)

-- Whatever rate, pitch, volume and timeout a profile asks for, the voice that is made from it gives
-- `spd-say` numbers between -100 and 100, `say` and `espeak` a rate between 95 and 255, `espeak` a pitch
-- between 0 and 99 and a volume of at most 200, and each program between half a second and two minutes.
pub new_speaker-IsBounded : (p : SystemVoiceProfile) → IsBounded (new_speaker p).profile
unfolding normalized spd_rate spd_pitch spd_volume
new_speaker-IsBounded p = (
  times_ten _ (clamp_ℤ-IsBetween minus_ten ten p.rate refl),
  times_ten _ (clamp_ℤ-IsBetween minus_ten ten p.pitch refl),
  ground arith,
  macos_speech_rate-IsBetween (normalized p).rate,
  espeak_pitch-IsBetween (normalized p).pitch,
  omega arith,
  ground arith,
  ground arith,
)
