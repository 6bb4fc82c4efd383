-- ===== src/Speech/Playing.antt =====
-- What `PiperTextToSpeech` leaves behind.
use kitt_assistant.Base.{
  refl, true, ◌≡◌, ◌≢◌, inl, inr, ap, Option, none, some, List, [], ◌∷◌, ℕ, suc, arith, Text,
  is_empty, Bool-cases, Option-cases, Result-cases, is_blank,
}
use kitt_assistant.ControlCenter.Json.{Json}
use kitt_assistant.Speech.Leftovers.{NoneLeft, Waited-cases, speak_system-Tidy}
use kitt_assistant.Speech.Processes.{speak_system-Ends}
use kitt_assistant.Providers.{Http}
use kitt_assistant.Speech.Backends.{
  Sound, Outcome, Platform, windows, asked, remove_file, speak_system,
}
use kitt_assistant.Speech.Backends as Backends
use kitt_assistant.Speech.Piper.{
  Player, PiperTextToSpeech, play, play_audio, piper_audio, piper_speech, piper_request,
  speak_piper, player_command,
}
use kitt_assistant.Speech.{Command}
use kitt_assistant.Domain.{History}

-- The fuel was enough, and each program that was started has been reaped or killed.
abbrev pub EndsReaped : Outcome → Type 0
EndsReaped (result, w) = (result ≢ none) × (w.started ≡ w.ended)

module _ {F : Type 0} (float_json : F → Json) (http : Http) (player : Player) (m : Backends.Machine)
    (platform : Platform) (s : PiperTextToSpeech F) where
  module _ (plays_to_end : (tick pid : ℕ) → player.ends tick pid ≡ true) where
    -- It ends, and leaves no program more.
    abbrev Left : Sound → Outcome → Type 0
    Left w (result, w') = (result ≢ none) × NoneLeft w w'

    play-Left :
        (command : Option Command) (w : Sound)
        → ((play float_json http player m platform s command w).0 ≡ true)
          × NoneLeft w (play float_json http player m platform s command w).1
    unfolding play
    play-Left none w = (refl, λ h. h)
    play-Left (some command) w = elim (Result-cases (m.spawn w.tick command)) [
      | inr (x, e) ↦ rw (e, play) (refl, λ h. h)
      | inl (pid, e) ↦
          rw (e, play) (rw (plays_to_end (suc w.tick) pid) (refl, λ h. ap (λ pids. pid ∷ pids) h))
    ]

    remove_file-NoneLeft :
        (path : Text) (v w : Sound) → NoneLeft w v → NoneLeft w (remove_file m path v)
    unfolding remove_file
    remove_file-NoneLeft path v w h = elim (Bool-cases (m.remove v.tick path)) [
      | inl gone ↦ rw (gone, remove_file) h
      | inr stays ↦ rw (stays, remove_file) h
    ]

    play_audio-Left :
        (audio : List ℕ) (w : Sound)
        → Left w (play_audio float_json http player m platform s audio w)
    unfolding play_audio
    play_audio-Left audio w = elim (Result-cases (player.create w.tick player.temporary_path)) [
      | inr (x, e) ↦ rw (e, play_audio) (λ n. cc, λ h. h)
      | inl (u, e) ↦ elim (Result-cases (player.write_all (suc w.tick) audio)) [
        | inr (x, f) ↦ rw (e, play_audio) (rw f (λ n. cc, λ h. h))
        | inl (u', f) ↦
            let created : Sound = record (asked m w) { files = player.temporary_path ∷ w.files } in
            let command = player_command platform player.temporary_path in
            let played = play float_json http player m platform s command (asked m created) in
            let (ended, left) = play-Left command (asked m created) in
            rw (e, play_audio)
              (rw (f, ended) (λ n. cc, remove_file-NoneLeft player.temporary_path played.1 w left))
      ]
    ]

    piper_speech-Left :
        (h : History) (text : Text) (w : Sound)
        → Left w (piper_speech float_json http player m platform s h text w)
    unfolding piper_speech
    piper_speech-Left h text w =
        let sent = http.send h [] (piper_request float_json http player m platform s text) in
        elim (Result-cases (piper_audio float_json http player m platform s sent)) [
          | inr (x, e) ↦ rw (e, piper_speech) (λ n. cc, λ h. h)
          | inl (audio, e) ↦
              rw (e, piper_speech)
                (elim (Bool-cases (is_empty audio)) [
                  | inl silent ↦ rw silent (λ n. cc, λ h. h)
                  | inr heard ↦ rw heard (play_audio-Left audio w)
                ])
        ]

    -- Elsewhere than on Windows, if the program that plays audio comes to an end, speaking by Piper does so,
    -- whether or not the voice of the system has to take over, and leaves no program that it started
    -- running or to be reaped, if none was before.
    pub speak_piper-EndsReaped :
        (h : History) (text : Text) (locale : Option Text) (w : Sound)
        → platform ≢ windows
        → w.started ≡ w.ended
        → EndsReaped (speak_piper float_json http player m platform s h text locale w)
    unfolding speak_piper
    speak_piper-EndsReaped h text locale w elsewhere none_left =
        let spoke = piper_speech float_json http player m platform s h text w in
        let (ends, left) = piper_speech-Left h text w in
        let quiet = left none_left in
        elim (Bool-cases (is_blank text)) [
          | inl blank ↦ rw (blank, speak_piper) (ground arith, none_left)
          | inr given ↦ elim (Waited-cases spoke.0) [
            | inl e ↦ absurd (ends e)
            | inr (inl (u, e)) ↦ rw (given, speak_piper) (rw e (ground arith, quiet))
            | inr (inr (x, e)) ↦ elim (Option-cases s.profile.fallback_system) [
              | inl f ↦ rw (given, speak_piper) (rw e (rw f (ground arith, quiet)))
              | inr (voice, f) ↦
                  rw (given, speak_piper)
                    (rw e (
                      rw f (
                        speak_system-Ends m platform text locale voice spoke.1,
                        (speak_system-Tidy m platform text locale voice spoke.1 elsewhere).0 quiet,
                      )))
            ]
          ]
        ]
