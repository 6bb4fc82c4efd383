-- ===== src/Speech/Leftovers.antt =====
-- What speaking leaves behind: the programs that it starts, and the file that holds the text.
use kitt_assistant.Base.{
  refl, ◌≡◌, ◌≢◌, ◌⊎◌, inl, inr, false, sym, ap, subst, ◌∙◌, Option, none, some, List, [], ◌∷◌, ℕ,
  zero, suc, arith, String, Text, Result, ok, err, codes, bytes, text_eq_iff, Bool-cases,
  Result-cases, if-of_true, if-of_false, is_blank,
}
use kitt_assistant.Speech.Processes.{Ends, wait_child_with_timeout-Ends}
use kitt_assistant.Speech.Backends.{
  Machine, Sound, Outcome, Platform, linux, macos, windows, other, SystemTextToSpeech, asked, slept,
  reaped, remove_file, without, wait_rounds, wait_fuel, wait_child_with_timeout, run, try_programs,
  fill_private_text, write_private_tts_text, speak_from_file, speak_linux, speak_macos,
  speak_system, speak,
}
use kitt_assistant.Speech.{SystemVoiceProfile, Command, spd_say, espeak, say}
use kitt_assistant.Domain.{AssistantError}

-- One program less to reap, and nothing else.
abbrev Reaped : ℕ → Sound → Sound → Type 0
Reaped pid w w' = (w'.started ≡ w.started) × (w'.ended ≡ pid ∷ w.ended) × (w'.files ≡ w.files)

-- Each program that was started has been reaped or killed if each had been before, in the same order.
abbrev pub NoneLeft : Sound → Sound → Type 0
NoneLeft w w' = w.started ≡ w.ended → w'.started ≡ w'.ended

-- The text could not be written to the file that was created for it.
abbrev pub IsUnwritten : Option (Result AssistantError (Unit {0})) → Type 0
IsUnwritten (some (err (AssistantError.io e))) = Unit
IsUnwritten _ = ⊥

abbrev Quiet : Sound → Sound → Type 0
Quiet w w' = NoneLeft w w' × (w'.files ≡ w.files)

Quiet-trans : (u v w : Sound) → Quiet u v → Quiet v w → Quiet u w
Quiet-trans u v w (a, e) (b, f) = (λ h. b (a h), f ∙ e)

pub Waited-cases :
    {A E : Type 0} (r : Option (Result E A))
    → (r ≡ none) ⊎ ((a : A) × (r ≡ some (ok a))) ⊎ ((e : E) × (r ≡ some (err e)))
Waited-cases none = inl refl
Waited-cases (some (ok a)) = inr (inl (a, refl))
Waited-cases (some (err e)) = inr (inr (e, refl))

module _ (m : Machine) where
  -- The files are those there were; or there is one more, which could not be removed, or to which the text
  -- could not be written.
  abbrev pub Files : Sound → Option (Result AssistantError (Unit {0})) → Sound → Type 0
  Files w result w' =
      (w'.files ≡ w.files)
      ⊎ ((path : Text) × (w'.files ≡ path ∷ w.files)
          × (IsUnwritten result ⊎ ((tick : ℕ) × (m.remove tick path ≡ false))))

  -- Each program that was started has been reaped or killed, and no file is left but such a one.
  abbrev pub LeavesNothing : Sound → Outcome → Type 0
  LeavesNothing w (result, w') = (w'.started ≡ w'.ended) × Files w result w'

  abbrev pub Tidy : Sound → Outcome → Type 0
  Tidy w (result, w') = NoneLeft w w' × Files w result w'

  wait_rounds-Reaped :
      (fuel start timeout pid : ℕ) (w : Sound)
      → Ends (wait_rounds m fuel start timeout pid w)
      → Reaped pid w (wait_rounds m fuel start timeout pid w).1
  unfolding wait_rounds
  wait_rounds-Reaped zero start timeout pid w h = absurd (h refl)
  wait_rounds-Reaped (suc fuel) start timeout pid w h =
      ground (arith, wait_rounds-Reaped fuel start timeout pid (slept m (asked m w)))

  wait_child_with_timeout-Reaped :
      (pid timeout : ℕ) (w : Sound) → Reaped pid w (wait_child_with_timeout m pid timeout w).1
  unfolding wait_child_with_timeout
  wait_child_with_timeout-Reaped pid timeout w =
      wait_rounds-Reaped (wait_fuel timeout) w.now timeout pid w
        (wait_child_with_timeout-Ends m pid timeout w)

  run-Quiet :
      (failure : String) (command : Command) (timeout : ℕ) (w : Sound)
      → Quiet w (run m failure command timeout w).1
  unfolding run
  run-Quiet failure command timeout w = elim (Result-cases (m.spawn w.tick command)) [
    | inr (x, e) ↦ rw (e, run) (λ h. h, refl)
    | inl (pid, e) ↦
        let (same, more, files) =
          wait_child_with_timeout-Reaped pid timeout
            (record (asked m w) { commands = command ∷ w.commands; started = pid ∷ w.started }) in
        rw (e, run) (λ h. same ∙ ap (λ pids. pid ∷ pids) h ∙ sym more, files)
  ]

  try_programs-Quiet :
      (programs : List Text) (p : SystemVoiceProfile) (locale : Option Text) (path : Text)
      (w : Sound)
      → Quiet w (try_programs m programs p locale path w).1
  unfolding try_programs
  try_programs-Quiet [] p locale path w = (λ h. h, refl)
  try_programs-Quiet (program ∷ programs) p locale path w =
      let quiet = run-Quiet "" (espeak program p locale path) p.timeout w in
      let ran = run m "" (espeak program p locale path) p.timeout w in
      elim (Waited-cases ran.0) [
        | inl e ↦ rw (e, try_programs) quiet
        | inr (inl (u, e)) ↦ rw (e, try_programs) quiet
        | inr (inr (x, e)) ↦
            rw (e, try_programs)
              (Quiet-trans w ran.1 (try_programs m programs p locale path ran.1).1 quiet
                (try_programs-Quiet programs p locale path ran.1))
      ]

  -- After the text has been written, or not.
  abbrev Written : Text → Sound → Result AssistantError (Unit {0}) × Sound → Type 0
  Written path w (ok _, w') = NoneLeft w w' × (w'.files ≡ path ∷ w.files)
  Written path w (err e, w') = NoneLeft w w' × Files w (some (err e)) w'

  fill_private_text-Written :
      (path text : Text) (v w : Sound)
      → v.files ≡ path ∷ w.files
      → NoneLeft w v
      → Written path w (fill_private_text m text v)
  unfolding fill_private_text
  fill_private_text-Written path text v w e h =
      elim (Result-cases (m.write_all v.tick (bytes text))) [
        | inr (x, f) ↦ rw (f, fill_private_text) (h, inr (path, e, inl tt))
        | inl (u, f) ↦ elim (Result-cases (m.flush (asked m v).tick)) [
          | inr (x, g) ↦ rw (f, fill_private_text) (rw g (h, inr (path, e, inl tt)))
          | inl (u', g) ↦ rw (f, fill_private_text) (rw g (h, e))
        ]
      ]

  write_private_tts_text-Written :
      (path text : Text) (w : Sound) → Written path w (write_private_tts_text m path text w)
  unfolding write_private_tts_text
  write_private_tts_text-Written path text w = elim (Result-cases (m.create_new w.tick path)) [
    | inr (x, e) ↦ rw (e, write_private_tts_text) (λ h. h, inl refl)
    | inl (u, e) ↦
        rw (e, write_private_tts_text)
          (fill_private_text-Written path text (record (asked m w) { files = path ∷ w.files }) w
            refl (λ h. h))
  ]

  remove_file-Files :
      (path : Text) (result : Option (Result AssistantError (Unit {0}))) (u v w : Sound)
      → NoneLeft w u × (u.files ≡ path ∷ w.files)
      → Quiet u v
      → NoneLeft w (remove_file m path v) × Files w result (remove_file m path v)
  unfolding remove_file without
  remove_file-Files path result u v w (a, e) (b, f) = elim (Bool-cases (m.remove v.tick path)) [
    | inl gone ↦
        let same : without path (path ∷ w.files) ≡ w.files =
          rw ((text_eq_iff path path).1 refl, without) refl in
        rw (gone, remove_file) (λ h. b (a h), inl (ap (without path) (f ∙ e) ∙ same))
    | inr stays ↦ rw (stays, remove_file) (λ h. b (a h), inr (path, f ∙ e, inr (v.tick, stays)))
  ]

  speak_from_file-Tidy :
      (text : Text) (locale : Option Text) (p : SystemVoiceProfile) (w : Sound)
      → Tidy w (speak_from_file m text locale p w)
  unfolding speak_from_file
  speak_from_file-Tidy text locale p w =
      let path = m.temporary_text_path w.tick in
      let wrote = write_private_tts_text m path text w in
      let written = write_private_tts_text-Written path text w in
      elim (Result-cases wrote.0) [
        | inr (x, e) ↦ rw (e, speak_from_file) (subst (λ r. Written path w (r, wrote.1)) e written)
        | inl (u, e) ↦
            let spoke =
              try_programs m (codes "espeak-ng" ∷ codes "espeak" ∷ []) p locale path wrote.1 in
            let (none_left, files) =
              remove_file-Files path spoke.0 wrote.1 spoke.1 w
                (subst (λ r. Written path w (r, wrote.1)) e written)
                (try_programs-Quiet (codes "espeak-ng" ∷ codes "espeak" ∷ []) p locale path
                  wrote.1) in
            rw (e, speak_from_file) (none_left, files)
      ]

  speak_linux-Tidy :
      (text : Text) (locale : Option Text) (p : SystemVoiceProfile) (w : Sound)
      → Tidy w (speak_linux m text locale p w)
  unfolding speak_linux
  speak_linux-Tidy text locale p w =
      let ran = run m "" (spd_say p locale text) p.timeout w in
      let (none_left, files) = run-Quiet "" (spd_say p locale text) p.timeout w in
      elim (Waited-cases ran.0) [
        | inl e ↦ rw (e, speak_linux) (none_left, inl files)
        | inr (inl (u, e)) ↦ rw (e, speak_linux) (none_left, inl files)
        | inr (inr (x, e)) ↦
            let (none_left', files') = speak_from_file-Tidy text locale p ran.1 in
            rw (e, speak_linux)
              (
                λ h. none_left' (none_left h),
                elim files' [
                  | inl same ↦ inl (same ∙ files)
                  | inr (path, more, why) ↦ inr (path, more ∙ ap (λ paths. path ∷ paths) files, why)
                ],
              )
      ]

  pub speak_system-Tidy :
      (platform : Platform) (text : Text) (locale : Option Text) (p : SystemVoiceProfile)
      (w : Sound)
      → platform ≢ windows
      → Tidy w (speak_system m platform text locale p w)
  unfolding speak_system speak_macos
  speak_system-Tidy linux text locale p w h = speak_linux-Tidy text locale p w
  speak_system-Tidy macos text locale p w h =
      let (none_left, files) = run-Quiet "start macOS say: " (say p text) p.timeout w in
      (none_left, inl files)
  speak_system-Tidy windows text locale p w h = absurd (h refl)
  speak_system-Tidy other text locale p w h = (λ e. e, inl refl)

  speak-Tidy :
      (platform : Platform) (s : SystemTextToSpeech) (text : Text) (locale : Option Text)
      (w : Sound)
      → platform ≢ windows
      → Tidy w (speak m platform s text locale w)
  unfolding speak
  speak-Tidy platform s text locale w h = elim (Bool-cases (is_blank text)) [
    | inl blank ↦ if-of_true (Tidy w) _ blank (λ e. e, inl refl)
    | inr given ↦
        if-of_false (Tidy w) _ given (speak_system-Tidy platform text locale s.profile w h)
  ]

  -- Elsewhere than on Windows, if each program that was started before has been reaped or killed, speaking
  -- leaves none that has not, and no file but at most one, which the system would not remove, or to which
  -- the text could not be written, as the result then says.
  pub speak-LeavesNothing :
      (platform : Platform) (s : SystemTextToSpeech) (text : Text) (locale : Option Text)
      (w : Sound)
      → platform ≢ windows
      → w.started ≡ w.ended
      → LeavesNothing w (speak m platform s text locale w)
  speak-LeavesNothing platform s text locale w h none_left =
      let (reaped, files) = speak-Tidy platform s text locale w h in (reaped none_left, files)
