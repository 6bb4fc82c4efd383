-- ===== src/Speech/Processes.antt =====
-- The programs that speaking starts: that waiting for them ends, and that none is left, nor the file
-- that holds the text.
use kitt_assistant.Base.{
  ◌≢◌, inl, inr, Option, none, List, [], ◌∷◌, ℕ, zero, suc, ◌+◌, ◌*◌, ◌/◌, ◌≤◌, arith, String, Text,
  codes, Result-cases,
}
use kitt_assistant.Speech.Backends.{
  Machine, Sound, Outcome, Platform, linux, macos, windows, other, SystemTextToSpeech, asked, slept,
  wait_rounds, wait_child_with_timeout, poll_interval, run, try_programs, write_private_tts_text,
  speak_from_file, speak_linux, speak_macos, speak_windows, speak_system, speak,
}
use kitt_assistant.Speech.{SystemVoiceProfile, Command, spd_say, espeak, say, powershell}

-- The fuel was enough.
abbrev pub Ends : Outcome → Type 0
Ends (result, w) = result ≢ none

module _ (m : Machine) where
  wait_rounds-Ends :
      (fuel start timeout pid : ℕ) (w : Sound)
      → start + timeout ≤ w.now + poll_interval * fuel
      → Ends (wait_rounds m (suc fuel) start timeout pid w)
  unfolding wait_rounds
  wait_rounds-Ends zero start timeout pid w h = ground arith
  wait_rounds-Ends (suc fuel) start timeout pid w h =
      ground (arith, wait_rounds-Ends fuel start timeout pid (slept m (asked m w)))

  pub wait_child_with_timeout-Ends :
      (pid timeout : ℕ) (w : Sound) → Ends (wait_child_with_timeout m pid timeout w)
  unfolding wait_child_with_timeout
  wait_child_with_timeout-Ends pid timeout w =
      wait_rounds-Ends (timeout / poll_interval + 1) w.now timeout pid w (ground arith)

  pub run-Ends :
      (failure : String) (command : Command) (timeout : ℕ) (w : Sound)
      → Ends (run m failure command timeout w)
  unfolding run
  run-Ends failure command timeout w = elim (Result-cases (m.spawn w.tick command)) [
    | inl (pid, e) ↦ rw (e, run) (wait_child_with_timeout-Ends pid timeout _)
    | inr (x, e) ↦ ground arith
  ]

  try_programs-Ends :
      (programs : List Text) (p : SystemVoiceProfile) (locale : Option Text) (path : Text)
      (w : Sound)
      → Ends (try_programs m programs p locale path w)
  unfolding try_programs
  try_programs-Ends [] p locale path w = ground arith
  try_programs-Ends (program ∷ programs) p locale path w =
      let command = espeak program p locale path in
      ground (
        arith,
        run-Ends "" command p.timeout w,
        try_programs-Ends programs p locale path (run m "" command p.timeout w).1,
      )

  speak_from_file-Ends :
      (text : Text) (locale : Option Text) (p : SystemVoiceProfile) (w : Sound)
      → Ends (speak_from_file m text locale p w)
  unfolding speak_from_file
  speak_from_file-Ends text locale p w =
      let path = m.temporary_text_path w.tick in
      ground (
        arith,
        try_programs-Ends (codes "espeak-ng" ∷ codes "espeak" ∷ []) p locale path
            (write_private_tts_text m path text w).1,
      )

  speak_windows-Ends :
      (text : Text) (locale : Option Text) (p : SystemVoiceProfile) (w : Sound)
      → Ends (speak_windows m text locale p w)
  unfolding speak_windows
  speak_windows-Ends text locale p w = elim (Result-cases (m.spawn w.tick (powershell p locale))) [
    | inl (pid, e) ↦ elim (Result-cases (m.write_stdin (suc w.tick) text)) [
      | inl (done, f) ↦ rw (e, f, speak_windows) (wait_child_with_timeout-Ends pid p.timeout _)
      | inr (x, f) ↦ rw (e, f, speak_windows) (ground arith)
    ]
    | inr (x, e) ↦ ground arith
  ]

  pub speak_system-Ends :
      (platform : Platform) (text : Text) (locale : Option Text) (p : SystemVoiceProfile)
      (w : Sound)
      → Ends (speak_system m platform text locale p w)
  unfolding speak_system speak_linux speak_macos
  speak_system-Ends linux text locale p w = ground (
    arith,
    run-Ends "" (spd_say p locale text) p.timeout w,
    speak_from_file-Ends text locale p (run m "" (spd_say p locale text) p.timeout w).1,
  )
  speak_system-Ends macos text locale p w = run-Ends "start macOS say: " (say p text) p.timeout w
  speak_system-Ends windows text locale p w = speak_windows-Ends text locale p w
  speak_system-Ends other text locale p w = ground arith

  -- However long the programs of a platform take, and whatever they answer, speaking comes to an end: the
  -- rounds of each wait are never used up.
  speak-Ends :
      (platform : Platform) (s : SystemTextToSpeech) (text : Text) (locale : Option Text)
      (w : Sound)
      → Ends (speak m platform s text locale w)
  unfolding speak
  speak-Ends platform s text locale w =
      ground (arith, speak_system-Ends platform text locale s.profile w)
