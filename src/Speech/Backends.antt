-- ===== src/Speech/Backends.antt =====
-- The programs of the system at work: `speak_system` on each platform, with the wait for a program and
-- the private file that holds the text. What the operating system answers is a `Machine`, asked at a
-- tick that every question advances; `kill` and `wait` end a program that was started.
use kitt_assistant.Speech.{
  normalized, say, espeak, powershell, spd_say, SystemVoiceProfile, Command,
}
use kitt_assistant.Base.{
  Bool, Option, none, some, List, [], ◌∷◌, ℕ, zero, suc, ◌+◌, ◌/◌, String, Text, leb, if◌then◌else◌,
  Result, ok, err, map_err, codes, text_eq, bytes, is_blank,
}
use kitt_assistant.Providers.{◌<>◌}
use kitt_assistant.Domain.{AssistantError}

pub record Machine : Type 0 where
  pub spawn : ℕ → Command → Result String ℕ
  pub try_wait : ℕ → ℕ → Result String (Option (Bool × String))
  pub write_stdin : ℕ → Text → Result String (Unit {0})
  pub create_new : ℕ → Text → Result String (Unit {0})
  pub write_all : ℕ → List ℕ → Result String (Unit {0})
  pub flush : ℕ → Result String (Unit {0})
  pub temporary_text_path : ℕ → Text
  pub remove : ℕ → Text → Bool
  pub takes : ℕ → ℕ

-- The clock, in milliseconds; the programs that were started and that were reaped or killed, newest
-- first; the files that were created and not removed; and the commands that were tried.
pub record Sound : Type 0 where
  pub tick : ℕ
  pub now : ℕ
  pub started : List ℕ
  pub ended : List ℕ
  pub files : List Text
  pub commands : List Command

-- `none` means that the fuel ran out.
abbrev pub Outcome : Type 0
Outcome = Option (Result AssistantError (Unit {0})) × Sound

-- `poll_interval`
abbrev pub poll_interval : ℕ
poll_interval = 25

abbrev pub reaped : ℕ → Sound → Sound
reaped pid w = record w { ended = pid ∷ w.ended }

-- The files without one of them.
unfoldable pub without : Text → List Text → List Text
without path [] = []
without path (file ∷ files) =
    let rest = without path files in if text_eq file path then files else file ∷ rest

-- A round for each interval of the timeout, and two more.
abbrev pub wait_fuel : ℕ → ℕ
wait_fuel timeout = suc (timeout / poll_interval + 1)

module _ (m : Machine) where
  abbrev pub asked : Sound → Sound
  asked w = record w { tick = suc w.tick; now = w.now + m.takes w.tick }

  -- `thread::sleep` sleeps for at least the interval.
  abbrev pub slept : Sound → Sound
  slept w = record w { tick = suc w.tick; now = w.now + poll_interval + m.takes w.tick }

  -- `TempFileGuard::drop`; the result of `fs::remove_file` is dropped.
  unfoldable pub remove_file : Text → Sound → Sound
  remove_file path w =
      if m.remove w.tick path then record (asked w) { files = without path w.files } else asked w

  -- The loop of `wait_child_with_timeout`.
  unfoldable pub wait_rounds : ℕ → (start timeout pid : ℕ) → Sound → Outcome
  wait_rounds zero start timeout pid w = (none, w)
  wait_rounds (suc fuel) start timeout pid w = elim (m.try_wait w.tick pid) [
    | ok (some (success, status)) ↦ (
      some (
          if success
          then ok tt
          else err (AssistantError.speech_output ("TTS process exited with status " <> status))),
      reaped pid (asked w),
    )
    | ok none ↦
        let polled = wait_rounds fuel start timeout pid (slept (asked w)) in
        if leb (start + timeout) (asked w).now
        then (
          some (err (AssistantError.speech_output "TTS process timed out")),
          reaped pid (asked w),
        )
        else polled
    | err e ↦ (
      some (err (AssistantError.speech_output ("wait TTS process: " <> e))),
      reaped pid (asked w),
    )
  ]

  unfoldable pub wait_child_with_timeout : (pid timeout : ℕ) → Sound → Outcome
  wait_child_with_timeout pid timeout w = wait_rounds (wait_fuel timeout) w.now timeout pid w

  -- A program that is started and waited for.
  unfoldable pub run : String → Command → ℕ → Sound → Outcome
  run failure command timeout w =
      let tried = record (asked w) { commands = command ∷ w.commands } in
      elim (m.spawn w.tick command) [
        | err e ↦ (some (err (AssistantError.speech_output (failure <> e))), tried)
        | ok pid ↦ wait_child_with_timeout pid timeout (record tried { started = pid ∷ w.started })
      ]

  -- The programs of the fallback, one after the other until one succeeds.
  unfoldable pub try_programs :
      List Text → SystemVoiceProfile → Option Text → Text → Sound → Outcome
  try_programs [] p locale path w = (
    some (
        err (
          AssistantError.speech_output
            "no system TTS backend found; install speech-dispatcher or espeak-ng")),
    w,
  )
  try_programs (program ∷ programs) p locale path w =
      let (result, w') = run "" (espeak program p locale path) p.timeout w in
      elim result [
        | some (ok _) ↦ (some (ok tt), w')
        | some (err _) ↦ try_programs programs p locale path w'
        | none ↦ (none, w')
      ]

  -- The writes of `write_private_tts_text` to the file that it has created.
  unfoldable pub fill_private_text : Text → Sound → Result AssistantError (Unit {0}) × Sound
  fill_private_text text w = elim (m.write_all w.tick (bytes text)) [
    | err e ↦ (err (AssistantError.io ("write TTS text: " <> e)), asked w)
    | ok _ ↦ (
      map_err (λ e. AssistantError.io ("flush TTS text: " <> e)) (m.flush (asked w).tick),
      asked (asked w),
    )
  ]

  unfoldable pub write_private_tts_text :
      Text → Text → Sound → Result AssistantError (Unit {0}) × Sound
  write_private_tts_text path text w = elim (m.create_new w.tick path) [
    | err e ↦ (err (AssistantError.io ("create private TTS text: " <> e)), asked w)
    | ok _ ↦ fill_private_text text (record (asked w) { files = path ∷ w.files })
  ]

  -- `speak_system` of Linux after `spd-say`.
  unfoldable pub speak_from_file : Text → Option Text → SystemVoiceProfile → Sound → Outcome
  speak_from_file text locale p w =
      let path = m.temporary_text_path w.tick in
      let (written, w') = write_private_tts_text path text w in
      elim written [
        | err e ↦ (some (err e), w')
        | ok _ ↦
            let (result, w'') =
              try_programs (codes "espeak-ng" ∷ codes "espeak" ∷ []) p locale path w' in
            (result, remove_file path w'')
      ]

  unfoldable pub speak_linux : Text → Option Text → SystemVoiceProfile → Sound → Outcome
  speak_linux text locale p w =
      let (result, w') = run "" (spd_say p locale text) p.timeout w in
      elim result [
        | some (ok _) ↦ (some (ok tt), w')
        | some (err _) ↦ speak_from_file text locale p w'
        | none ↦ (none, w')
      ]

  unfoldable pub speak_macos : Text → Option Text → SystemVoiceProfile → Sound → Outcome
  speak_macos text locale p w = run "start macOS say: " (say p text) p.timeout w

  -- PowerShell reads the text from its input; where that cannot be written, it is left alone.
  unfoldable pub speak_windows : Text → Option Text → SystemVoiceProfile → Sound → Outcome
  speak_windows text locale p w =
      let tried = record (asked w) { commands = powershell p locale ∷ w.commands } in
      elim (m.spawn w.tick (powershell p locale)) [
        | err e ↦ (some (err (AssistantError.speech_output ("start PowerShell TTS: " <> e))), tried)
        | ok pid ↦
            let spawned = record tried { started = pid ∷ w.started } in
            elim (m.write_stdin spawned.tick text) [
              | err e ↦ (
                some (err (AssistantError.speech_output ("write TTS input: " <> e))),
                asked spawned,
              )
              | ok _ ↦ wait_child_with_timeout pid p.timeout (asked spawned)
            ]
      ]

pub data Platform : Type 0 where
  linux macos windows other : Platform

-- `SystemTextToSpeech`
pub record SystemTextToSpeech : Type 0 where
  pub profile : SystemVoiceProfile

-- `SystemTextToSpeech::new`
abbrev pub new_speaker : SystemVoiceProfile → SystemTextToSpeech
new_speaker p = record { profile = normalized p }

unfoldable pub speak_system :
    Machine → Platform → Text → Option Text → SystemVoiceProfile → Sound → Outcome
speak_system m linux text locale p w = speak_linux m text locale p w
speak_system m macos text locale p w = speak_macos m text locale p w
speak_system m windows text locale p w = speak_windows m text locale p w
speak_system m other text locale p w =
    (some (err (AssistantError.speech_output "system TTS is not implemented for this platform")), w)

-- `SystemTextToSpeech::speak`
unfoldable pub speak :
    Machine → Platform → SystemTextToSpeech → Text → Option Text → Sound → Outcome
speak m platform s text locale w =
    if is_blank text then (some (ok tt), w) else speak_system m platform text locale s.profile w
