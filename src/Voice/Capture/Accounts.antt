-- ===== src/Voice/Capture/Accounts.antt =====
-- What becomes of the files that the capture thread writes.
use kitt_assistant.Base.{
  Float32, refl, ◌≡◌, ◌≢◌, ◌⊎◌, inl, inr, ◌∙◌, ◌&&◌, Option, none, some, List, [], ◌∷◌, ℕ, zero,
  suc, ◌-◌, ◌%◌, ◌^◌, arith, Text, ltb, leb, Result, length, take, drop, Bool-cases, Option-cases,
  Result-cases, if-of_true, if-of_false,
}
use kitt_assistant.Voice.Config.{VoiceConfig}
use kitt_assistant.Voice.Segmenter.{push}
use kitt_assistant.Voice.Tracker.{fetch_add_one}
use kitt_assistant.Voice.Pipeline.Commands.{CaptureEvent, wake_detected, utterance}
use kitt_assistant.Voice.Capture.{
  Sending, delivered, full, disconnected, Surroundings, Chunk, Capture, mono, asked, send_wake,
  detected, on_frame, potter_rounds, detect, activation_at, send_utterance, on_utterance, segment,
  on_chunk, capture_rounds,
}

-- The files of the utterances among events.
abbrev pub utterances : List CaptureEvent → List Text
utterances [] = []
utterances (wake_detected id ∷ events) = utterances events
utterances (utterance id path ∷ events) = path ∷ utterances events

-- The files divide, in their order, into those that were sent and those that were lost.
pub data Divides : List Text → List Text → List Text → Type 0 where
  no_files : Divides [] [] []
  was_sent :
      {path : Text} {files sent lost : List Text}
      → Divides files sent lost
      → Divides (path ∷ files) (path ∷ sent) lost
  was_lost :
      {path : Text} {files sent lost : List Text}
      → Divides files sent lost
      → Divides (path ∷ files) sent (path ∷ lost)

pub Sending-cases : (r : Sending) → (r ≡ delivered) ⊎ (r ≡ full) ⊎ (r ≡ disconnected)
Sending-cases delivered = inl refl
Sending-cases full = inr (inl refl)
Sending-cases disconnected = inr (inr refl)

-- The files are those that the utterances sent name, in their order, and others, which the tracker counts as
-- dropped.
abbrev pub IsAccounted : {F : Type 0} → Capture F → Type 0
IsAccounted c =
    (lost : List Text) × Divides c.files (utterances c.sent) lost
    × (c.tracker.utterances_dropped ≡ length lost % 2 ^ 64)

-- Nothing has become of a file, nor has one been written.
abbrev Same : {F : Type 0} → Capture F → Capture F → Type 0
Same c c' =
    (c'.files ≡ c.files)
    × (utterances c'.sent ≡ utterances c.sent)
    × (c'.tracker.utterances_dropped ≡ c.tracker.utterances_dropped)

one_more : (dropped lost : ℕ) → dropped ≡ lost % 2 ^ 64 → fetch_add_one dropped ≡ suc lost % 2 ^ 64
one_more dropped lost h = ground arith

Same-trans : {F : Type 0} (a b c : Capture F) → Same a b → Same b c → Same a c
Same-trans a b c (e, f, g) (e', f', g') = (e' ∙ e, f' ∙ f, g' ∙ g)

Same-IsAccounted : {F : Type 0} (c c' : Capture F) → Same c c' → IsAccounted c → IsAccounted c'
Same-IsAccounted c c' (e, f, g) (lost, h, k) = (lost, rw (e, f) h, g ∙ k)

module _ (fl : Float32) (config : VoiceConfig fl.F) (o : Surroundings fl.F) where
  send_wake-Same : (id : ℕ) (c : Capture fl.F) → Same c (send_wake fl config o id c)
  unfolding send_wake
  send_wake-Same id c = elim (Sending-cases (o.try_send c.tick (wake_detected id))) [
    | inl e ↦ rw (e, send_wake) (refl, refl, refl)
    | inr (inl e) ↦ rw (e, send_wake) (refl, refl, refl)
    | inr (inr e) ↦ rw (e, send_wake) (refl, refl, refl)
  ]

  detected-Same : (c : Capture fl.F) → Same c (detected fl config o c)
  unfolding detected
  detected-Same c = elim (Bool-cases (leb config.wake_cooldown_ms (c.now - c.last_wake))) [
    | inl over ↦ if-of_true (Same c) _ over (send_wake-Same (fetch_add_one c.activation_counter) _)
    | inr cooling ↦ if-of_false (Same c) _ cooling (refl, refl, refl)
  ]

  on_frame-Same : (frame : List fl.F) (c : Capture fl.F) → Same c (on_frame fl config o frame c)
  unfolding on_frame
  on_frame-Same frame c = elim (Bool-cases (o.detects c.tick frame)) [
    | inl heard ↦ if-of_true (Same c) _ heard (detected-Same (asked fl config o c))
    | inr missed ↦ if-of_false (Same c) _ missed (refl, refl, refl)
  ]

  potter_rounds-Same :
      (fuel frame_size : ℕ) (c : Capture fl.F)
      → Same c (potter_rounds fl config o fuel frame_size c)
  unfolding potter_rounds
  potter_rounds-Same zero frame_size c = (refl, refl, refl)
  potter_rounds-Same (suc fuel) frame_size c =
      let frame = take frame_size c.potter_buffer in
      let left : Capture fl.F = record c { potter_buffer = drop frame_size c.potter_buffer } in
      let next = on_frame fl config o frame left in
      elim (Bool-cases (leb frame_size (length c.potter_buffer) && ltb 0 frame_size)) [
        | inl more ↦ if-of_true (Same c) _ more (
            Same-trans c next (potter_rounds fl config o fuel frame_size next)
              (on_frame-Same frame left) (potter_rounds-Same fuel frame_size next))
        | inr done ↦ if-of_false (Same c) _ done (refl, refl, refl)
      ]

  detect-Same :
      (frame_size : Option ℕ) (samples : List fl.F) (c : Capture fl.F)
      → Same c (detect fl config o frame_size samples c)
  unfolding detect
  detect-Same none samples c = (refl, refl, refl)
  detect-Same (some frame_size) samples c = potter_rounds-Same _ frame_size _

  module _
      (open_queue : (tick : ℕ) (event : CaptureEvent) → o.try_send tick event ≢ disconnected) where
    on_utterance-IsAccounted :
        (samples : List fl.F) (c : Capture fl.F)
        → IsAccounted c
        → IsAccounted (on_utterance fl config o samples c)
    unfolding on_utterance send_utterance
    on_utterance-IsAccounted samples c (lost, h, k) =
        elim (Result-cases (o.write_wav c.tick samples)) [
          | inr (x, e) ↦ rw (e, on_utterance) (lost, h, k)
          | inl (path, e) ↦
              let id = activation_at fl config o c.now c.active_activation in
              rw (e, on_utterance)
                (elim (Sending-cases (o.try_send (suc c.tick) (utterance id path))) [
                  | inl f ↦ rw (f, send_utterance) (lost, was_sent h, k)
                  | inr (inl f) ↦
                      rw (f, send_utterance)
                        (
                          path ∷ lost,
                          was_lost h,
                          one_more c.tracker.utterances_dropped (length lost) k,
                        )
                  | inr (inr f) ↦ absurd (open_queue (suc c.tick) (utterance id path) f)
                ])
        ]

    segment-IsAccounted :
        (samples : List fl.F) (c : Capture fl.F)
        → IsAccounted c
        → IsAccounted (segment fl config o samples c)
    unfolding segment
    segment-IsAccounted samples c h = elim (Option-cases (push fl c.segmenter samples).1) [
      | inl e ↦ rw (e, segment) h
      | inr (speech, e) ↦ rw (e, segment) (on_utterance-IsAccounted speech _ h)
    ]

    on_chunk-IsAccounted :
        (channels : ℕ) (frame_size : Option ℕ) (chunk : Chunk fl.F) (c : Capture fl.F)
        → IsAccounted c
        → IsAccounted (on_chunk fl config o channels frame_size chunk c)
    unfolding on_chunk
    on_chunk-IsAccounted channels frame_size chunk c h =
        let received = asked fl config o c in
        elim (Bool-cases chunk.paused) [
          | inl paused ↦ if-of_true IsAccounted _ paused h
          | inr open_ears ↦ if-of_false IsAccounted _ open_ears (
              segment-IsAccounted (mono fl channels chunk.samples)
                (detect fl config o frame_size chunk.samples received)
                (Same-IsAccounted received (detect fl config o frame_size chunk.samples received)
                  (detect-Same frame_size chunk.samples received) h))
        ]

    -- Over any chunks, as long as the pipeline takes events, the files that are written are those which the
    -- utterances sent to the pipeline name, in their order, and others, which the tracker counts as
    -- dropped, if this was so before.
    pub capture_rounds-IsAccounted :
        (channels : ℕ) (frame_size : Option ℕ) (chunks : List (Chunk fl.F)) (c : Capture fl.F)
        → IsAccounted c
        → IsAccounted (capture_rounds fl config o channels frame_size chunks c).1
    unfolding capture_rounds
    capture_rounds-IsAccounted channels frame_size [] c h = h
    capture_rounds-IsAccounted channels frame_size (chunk ∷ chunks) c h =
        elim (Bool-cases chunk.failed) [
          | inl failed ↦
              if-of_true (λ (r : Result Text (Unit {0}) × Capture fl.F). IsAccounted r.1) _ failed h
          | inr fine ↦
              if-of_false (λ (r : Result Text (Unit {0}) × Capture fl.F). IsAccounted r.1) _ fine
                (capture_rounds-IsAccounted channels frame_size chunks _
                  (on_chunk-IsAccounted channels frame_size chunk c h))
        ]
