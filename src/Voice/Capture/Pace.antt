-- ===== src/Voice/Capture/Pace.antt =====
-- How often the capture thread wakes, and how long it sleeps.
use kitt_assistant.Base.{
  ◌++◌, ◌≡◌, ◌⊎◌, ◌∙◌, Float32, refl, ◌≡◌, inl, inr, ◌&&◌, Option, none, some, List, [], ◌∷◌, ℕ,
  zero, suc, ◌+◌, ◌-◌, ◌≤◌, arith, Text, ltb, leb, Result, length, take, drop, All, Bool-cases,
  Option-cases, Result-cases, if-of_true, if-of_false,
}
use kitt_assistant.Voice.Config.{VoiceConfig}
use kitt_assistant.Voice.Segmenter.{push, reset}
use kitt_assistant.Voice.Tracker.{fetch_add_one}
use kitt_assistant.Voice.Pipeline.Commands.{CaptureEvent, wake_detected, utterance}
use kitt_assistant.Voice.Capture.Accounts.{Sending-cases}
use kitt_assistant.Voice.Capture.{
  Surroundings, Chunk, Capture, mono, asked, activated, send_wake, detected, on_frame,
  potter_rounds, detect, activation_at, send_utterance, on_utterance, segment, on_chunk,
  capture_rounds, next_retry, retries, restart_min, restart_max,
}

-- However the captures end, and however long they ran, the thread sleeps for between one and thirty seconds
-- after each.
pub retries-All_bounded :
    (elapsed : List ℕ) (retry : ℕ)
    → restart_min ≤ retry
    → retry ≤ restart_max
    → All (λ sleep. (restart_min ≤ sleep) × (sleep ≤ restart_max)) (retries elapsed retry)
unfolding retries next_retry
retries-All_bounded [] retry low high = tt
retries-All_bounded (time ∷ rest) retry low high =
    let low' : restart_min ≤ next_retry time retry = ground arith in
    let high' : next_retry time retry ≤ restart_max = ground arith in
    ((low', high'), retries-All_bounded rest (next_retry time retry) low' high')

module _ (fl : Float32) (config : VoiceConfig fl.F) (o : Surroundings fl.F) where
  -- The activations that are sent.
  abbrev pub wakes : List CaptureEvent → List ℕ
  wakes [] = []
  wakes (wake_detected id ∷ events) = id ∷ wakes events
  wakes (utterance id path ∷ events) = wakes events

  -- A part of the loop without a wake: nothing is numbered, nor sent as a wake.
  abbrev pub Quiet : Capture fl.F → Capture fl.F → Type 0
  Quiet c c' =
      (c.now ≤ c'.now)
      × (c'.last_wake ≡ c.last_wake)
      × (c'.activation_counter ≡ c.activation_counter)
      × (wakes c'.sent ≡ wakes c.sent)

  -- A wake at the moment when it begins: it takes the next number, and at most that is sent.
  abbrev pub Woken : Capture fl.F → Capture fl.F → Type 0
  Woken c c' =
      (c.now ≤ c'.now)
      × (c'.last_wake ≡ c.now)
      × (c'.activation_counter ≡ fetch_add_one c.activation_counter)
      × ((wakes c'.sent ≡ wakes c.sent)
          ⊎ (wakes c'.sent ≡ fetch_add_one c.activation_counter ∷ wakes c.sent))

  -- The parts of the loop one after the other, with the moments of the wakes, the latest first.
  pub data Steps (start : Capture fl.F) : Capture fl.F → List ℕ → Type 0 where
    begins : Steps start start []
    quietly :
        {c c' : Capture fl.F} {moments : List ℕ}
        → Quiet c c'
        → Steps start c moments
        → Steps start c' moments
    waking :
        {c c' : Capture fl.F} {moments : List ℕ}
        → Woken c c'
        → Steps start c moments
        → Steps start c' (c.now ∷ moments)

  abbrev pub latest : ℕ → List ℕ → ℕ
  latest since [] = since
  latest since (moment ∷ moments) = moment

  -- Each moment is at least the cooldown after the one before, the first after `since`.
  abbrev pub Spaced : ℕ → List ℕ → Type 0
  Spaced since [] = Unit
  Spaced since (moment ∷ moments) =
      (latest since moments + config.wake_cooldown_ms ≤ moment) × Spaced since moments

  abbrev pub IsPaced : Capture fl.F → Capture fl.F → Type 0
  IsPaced start c =
      (c.last_wake ≤ c.now)
      × ((moments : List ℕ) × Steps start c moments
          × (c.last_wake ≡ latest start.last_wake moments)
          × Spaced start.last_wake moments)

  Quiet-IsPaced :
      (start : Capture fl.F) (c c' : Capture fl.F) → Quiet c c' → IsPaced start c → IsPaced start c'
  Quiet-IsPaced start c c' (later, e, f, g) (le, (moments, steps, last, spaced)) =
      (omega arith, (moments, quietly (later, e, f, g) steps, e ∙ last, spaced))

  send_wake-Woken :
      (c : Capture fl.F)
      → Woken c
          (send_wake fl config o (fetch_add_one c.activation_counter) (activated fl config o c))
  unfolding send_wake
  send_wake-Woken c =
      elim (Sending-cases
        (o.try_send c.tick (wake_detected (fetch_add_one c.activation_counter)))) [
          | inl e ↦ rw (e, send_wake) (omega arith, refl, refl, inr refl)
          | inr (inl e) ↦ rw (e, send_wake) (omega arith, refl, refl, inl refl)
          | inr (inr e) ↦ rw (e, send_wake) (omega arith, refl, refl, inl refl)
        ]

  detected-IsPaced :
      (start : Capture fl.F) (c : Capture fl.F)
      → IsPaced start c
      → IsPaced start (detected fl config o c)
  unfolding detected
  detected-IsPaced start c (le, (moments, steps, last, spaced)) =
      elim (Bool-cases (leb config.wake_cooldown_ms (c.now - c.last_wake))) [
        | inl over ↦
            let woken = send_wake-Woken c in
            let apart : c.last_wake + config.wake_cooldown_ms ≤ c.now = ground arith in
            if-of_true (IsPaced start) _ over (
              omega (arith, woken.0, woken.1),
              (c.now ∷ moments, waking woken steps, woken.1, (omega (arith, last, apart), spaced)),
            )
        | inr cooling ↦ if-of_false (IsPaced start) _ cooling (le, (moments, steps, last, spaced))
      ]

  on_frame-IsPaced :
      (start : Capture fl.F) (frame : List fl.F) (c : Capture fl.F)
      → IsPaced start c
      → IsPaced start (on_frame fl config o frame c)
  unfolding on_frame
  on_frame-IsPaced start frame c h =
      let h' = Quiet-IsPaced start c (asked fl config o c) (omega arith, refl, refl, refl) h in
      elim (Bool-cases (o.detects c.tick frame)) [
        | inl heard ↦
            if-of_true (IsPaced start) _ heard (detected-IsPaced start (asked fl config o c) h')
        | inr missed ↦ if-of_false (IsPaced start) _ missed h'
      ]

  potter_rounds-IsPaced :
      (start : Capture fl.F) (fuel frame_size : ℕ) (c : Capture fl.F)
      → IsPaced start c
      → IsPaced start (potter_rounds fl config o fuel frame_size c)
  unfolding potter_rounds
  potter_rounds-IsPaced start zero frame_size c h = h
  potter_rounds-IsPaced start (suc fuel) frame_size c h =
      elim (Bool-cases (leb frame_size (length c.potter_buffer) && ltb 0 frame_size)) [
        | inl more ↦ if-of_true (IsPaced start) _ more (
            potter_rounds-IsPaced start fuel frame_size _ (
              on_frame-IsPaced start (take frame_size c.potter_buffer) _ (
                Quiet-IsPaced start c (record c { potter_buffer = drop frame_size c.potter_buffer })
                  (omega arith, refl, refl, refl) h)))
        | inr done ↦ if-of_false (IsPaced start) _ done h
      ]

  detect-IsPaced :
      (start : Capture fl.F) (frame_size : Option ℕ) (samples : List fl.F) (c : Capture fl.F)
      → IsPaced start c
      → IsPaced start (detect fl config o frame_size samples c)
  unfolding detect
  detect-IsPaced start none samples c h = h
  detect-IsPaced start (some frame_size) samples c h = potter_rounds-IsPaced start _ frame_size _ (
      Quiet-IsPaced start c (record c { potter_buffer = c.potter_buffer ++ samples })
        (omega arith, refl, refl, refl) h)

  on_utterance-Quiet :
      (samples : List fl.F) (c : Capture fl.F) → Quiet c (on_utterance fl config o samples c)
  unfolding on_utterance send_utterance
  on_utterance-Quiet samples c = elim (Result-cases (o.write_wav c.tick samples)) [
    | inr (x, e) ↦ rw (e, on_utterance) (omega arith, refl, refl, refl)
    | inl (path, e) ↦
        let id = activation_at fl config o c.now c.active_activation in
        rw (e, on_utterance)
          (elim (Sending-cases (o.try_send (suc c.tick) (utterance id path))) [
            | inl f ↦ rw (f, send_utterance) (omega arith, refl, refl, refl)
            | inr (inl f) ↦ rw (f, send_utterance) (omega arith, refl, refl, refl)
            | inr (inr f) ↦ rw (f, send_utterance) (omega arith, refl, refl, refl)
          ])
  ]

  segment-Quiet : (samples : List fl.F) (c : Capture fl.F) → Quiet c (segment fl config o samples c)
  unfolding segment
  segment-Quiet samples c = elim (Option-cases (push fl c.segmenter samples).1) [
    | inl e ↦ rw (e, segment) (omega arith, refl, refl, refl)
    | inr (speech, e) ↦
        let pushed : Capture fl.F = record c { segmenter = (push fl c.segmenter samples).0 } in
        let (later, wake, counter, sent) = on_utterance-Quiet speech (asked fl config o pushed) in
        rw (e, segment) (omega arith, wake, counter, sent)
  ]

  on_chunk-IsPaced :
      (start : Capture fl.F) (channels : ℕ) (frame_size : Option ℕ) (chunk : Chunk fl.F)
      (c : Capture fl.F)
      → IsPaced start c
      → IsPaced start (on_chunk fl config o channels frame_size chunk c)
  unfolding on_chunk
  on_chunk-IsPaced start channels frame_size chunk c h =
      let received = asked fl config o c in
      let h' = Quiet-IsPaced start c received (omega arith, refl, refl, refl) h in
      let heard = detect fl config o frame_size chunk.samples received in
      elim (Bool-cases chunk.paused) [
        | inl paused ↦ if-of_true (IsPaced start) _ paused (
            Quiet-IsPaced start c (record received { segmenter = reset c.segmenter })
              (omega arith, refl, refl, refl) h)
        | inr open_ears ↦ if-of_false (IsPaced start) _ open_ears (
            Quiet-IsPaced start heard (segment fl config o (mono fl channels chunk.samples) heard)
              (segment-Quiet (mono fl channels chunk.samples) heard)
              (detect-IsPaced start frame_size chunk.samples received h'))
      ]

  rounds-IsPaced :
      (start : Capture fl.F) (channels : ℕ) (frame_size : Option ℕ) (chunks : List (Chunk fl.F))
      (c : Capture fl.F)
      → IsPaced start c
      → IsPaced start (capture_rounds fl config o channels frame_size chunks c).1
  unfolding capture_rounds
  rounds-IsPaced start channels frame_size [] c h = h
  rounds-IsPaced start channels frame_size (chunk ∷ chunks) c h = elim (Bool-cases chunk.failed) [
    | inl failed ↦
        if-of_true (λ (r : Result Text (Unit {0}) × Capture fl.F). IsPaced start r.1) _ failed h
    | inr fine ↦
        if-of_false (λ (r : Result Text (Unit {0}) × Capture fl.F). IsPaced start r.1) _ fine
          (rounds-IsPaced start channels frame_size chunks _
            (on_chunk-IsPaced start channels frame_size chunk c h))
  ]

  -- Over any chunks, however the clock goes on and whatever the detector finds, the loop is a sequence of parts
  -- without a wake and of wakes. A wake takes the next number, at most that is sent, and it comes, by
  -- the clock at that moment, at least the cooldown after the wake before; without a wake nothing is
  -- numbered, nor sent as one.
  pub capture_rounds-IsPaced :
      (channels : ℕ) (frame_size : Option ℕ) (chunks : List (Chunk fl.F)) (start : Capture fl.F)
      → start.last_wake ≤ start.now
      → IsPaced start (capture_rounds fl config o channels frame_size chunks start).1
  capture_rounds-IsPaced channels frame_size chunks start before =
      rounds-IsPaced start channels frame_size chunks start (before, ([], begins, refl, tt))
