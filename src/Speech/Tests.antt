-- ===== src/Speech/Tests.antt =====
-- A system without `spd-say`, and the properties of speaking applied to it.
use kitt_assistant.SettingsOverlay.VoiceSettings.{wrap_i32}
use kitt_assistant.Base.{
  pos, negsuc, refl, ◌≡◌, ◌≢◌, true, none, some, [], ◌∷◌, ℕ, Text, ltb, ◌==◌, if◌then◌else◌, ok,
  err, codes, is_blank,
}
use kitt_assistant.ControlCenter.Json.{unsigned}
use kitt_assistant.Providers.{Http}
use kitt_assistant.Speech.{spd_rate, normalized, SystemVoiceProfile, default_profile}
use kitt_assistant.Speech.Bounds.{IsBounded, new_speaker-IsBounded}
use kitt_assistant.Speech.Backends.{
  wait_rounds, wait_child_with_timeout, try_programs, fill_private_text, write_private_tts_text,
  speak_from_file, run, speak_linux, speak_system, Sound, Platform, linux, windows, new_speaker,
  speak, speak_windows,
}
use kitt_assistant.Speech.Backends as Backends
use kitt_assistant.Speech.Leftovers.{LeavesNothing, speak-LeavesNothing}
use kitt_assistant.Speech.Piper.{Player, PiperTextToSpeech, speak_piper}
use kitt_assistant.Speech.Playing.{EndsReaped, speak_piper-EndsReaped}

abbrev loud : SystemVoiceProfile
loud = record default_profile { rate = negsuc 98; pitch = pos 99; volume = 255; timeout = 0 }

new_speaker-IsBounded_example : IsBounded (new_speaker loud).profile
new_speaker-IsBounded_example = new_speaker-IsBounded loud

-- `spd-say` is missing; `espeak-ng` runs for one poll and succeeds.
abbrev desktop : Backends.Machine
desktop = record {
  spawn = λ tick command. if tick == 0 then err "not found" else ok 7;
  try_wait = λ tick pid. if ltb tick 8 then ok none else ok (some (true, "exit status: 0"));
  write_stdin = λ tick text. err "broken pipe";
  create_new = λ tick path. ok tt;
  write_all = λ tick content. ok tt;
  flush = λ tick. ok tt;
  temporary_text_path = λ tick. codes "/tmp/kitt-tts-1-2.txt";
  remove = λ tick path. true;
  takes = λ tick. 1;
}

abbrev silence : Sound
silence = record { tick = 0; now = 0; started = []; ended = []; files = []; commands = [] }

abbrev hello : Text
hello = codes "hello"

spoken_by_espeak :
    (speak desktop linux (new_speaker default_profile) hello none silence).0 ≡ some (ok tt)
unfolding speak is_blank speak_system speak_linux run speak_from_file write_private_tts_text
    fill_private_text try_programs wait_child_with_timeout wait_rounds normalized
spoken_by_espeak = refl

linux_windows : linux ≢ windows
linux_windows e = cc

speak-LeavesNothing_example :
    LeavesNothing desktop silence
      (speak desktop linux (new_speaker default_profile) hello none silence)
speak-LeavesNothing_example =
    speak-LeavesNothing desktop linux (new_speaker default_profile) hello none silence linux_windows
      refl

-- On Windows, a program whose input cannot be written is left running.
left_running :
    ((speak_windows desktop hello none default_profile (record silence { tick = 1 })).1.started
      ≡ 7 ∷ [])
    × ((speak_windows desktop hello none default_profile (record silence { tick = 1 })).1.ended
        ≡ [])
unfolding speak_windows
left_running = (refl, refl)

abbrev offline : Http
offline = record {
  build = λ client. ok tt;
  send = λ h sent request. err "connection refused";
  from_slice = λ content. err "no JSON";
  show_json = λ v. "";
  parse = λ url. err "no URL";
  display = λ url. [];
}

abbrev player : Player
player = record {
  create = λ tick path. ok tt;
  write_all = λ tick content. ok tt;
  ends = λ tick pid. true;
  temporary_path = codes "/tmp/kitt-piper-1.wav";
}

abbrev piper : PiperTextToSpeech ℕ
piper = record {
  profile = record {
    base_url = codes "http://127.0.0.1:5000";
    voice = none;
    speaker = none;
    length_scale = none;
    noise_scale = none;
    noise_w_scale = none;
    timeout = 1000;
    fallback_system = some loud;
  };
  client = record { connect_timeout = none; timeout = 1000; follows_redirects = true };
}

speak_piper-EndsReaped_example :
    EndsReaped (speak_piper unsigned offline player desktop linux piper [] hello none silence)
speak_piper-EndsReaped_example =
    speak_piper-EndsReaped unsigned offline player desktop linux piper (λ tick pid. refl) [] hello
      none silence linux_windows refl

-- The voice that takes over is not held to the ranges that others are.
out_of_range : spd_rate loud ≡ negsuc 989
unfolding spd_rate wrap_i32
out_of_range = refl
