-- ===== src/Voice/Config/Laws.antt =====
-- What a validated configuration satisfies, and what loading one does to the file.
use kitt_assistant.Base.{
  is_ascii_alphanumeric, to_ascii_lowercase, retain, text_eq, texts_eq, ◌>>=◌, if-of_true,
  if-of_false, Bool-cases, Result-cases, ℕ, ◌≤◌, ◌<◌, ◌≡◌, refl, ◌↔◌, ◌⊎◌, inl, inr, Bool, true,
  false, Text, String, Result, ok, err, Float32, length, arith, is_blank, is_empty, all, any, ltb,
}
use kitt_assistant.Voice.Wake.{
  is_cedilla, is_accented_u, is_accented_o, is_accented_i, is_accented_e, is_accented_a,
  is_alphanumeric, fold_char, normalize_token,
}
use kitt_assistant.Voice.Config.{
  legacy_control_center_wake_phrases, legacy_broad_wake_phrases, default_config,
  default_wake_phrases, ActivationMode, VoiceConfig,
}
use kitt_assistant.Voice.Config.Validation.{
  validate, validate_texts, validate_detection, validate_times, in_floats,
}
use kitt_assistant.Voice.Config.Loading.{
  Stored, untouched, spoilt, holds, is_legacy, wakeword_path, written, names_file, migrate,
  resolved_mode, Files, VoiceFile, accept, create, load_or_create,
}

module _ (fl : Float32) where
  open fl use {F, lit, le}

  -- Texts and sizes: a locale, one to sixteen wake phrases of at most 64 characters, not all blank.
  pub record HasTexts (c : VoiceConfig F) : Type 0 where
    pub locale : is_blank c.locale ≡ false
    pub phrases : is_empty c.wake_phrases ≡ false
    pub spoken : all is_blank c.wake_phrases ≡ false
    pub few : length c.wake_phrases ≤ 16
    pub short : any (λ p. ltb 64 (length p)) c.wake_phrases ≡ false
    pub rms : in_floats fl (lit 1 10000) (lit 5 10) c.min_rms ≡ true
    pub noise : in_floats fl (lit 11 10) (lit 20 1) c.noise_multiplier ≡ true

  pub record HasDetection (c : VoiceConfig F) : Type 0 where
    pub distance : c.wake_fuzzy_max_distance ≤ 2
    pub cooldown : c.wake_cooldown_ms ≤ 10000
    pub threshold : in_floats fl (lit 1 100) (lit 1 1) c.wake_threshold ≡ true
    pub average : in_floats fl (lit 1 100) (lit 1 1) c.wake_avg_threshold ≡ true
    pub scores : (1 ≤ c.wake_min_scores) × (c.wake_min_scores ≤ 50)
    pub speech_start : (20 ≤ c.speech_start_ms) × (c.speech_start_ms ≤ 500)
    pub release : in_floats fl (lit 30 100) (lit 1 1) c.vad_release_ratio ≡ true

  -- The times of a configuration that the program runs with.
  pub record HasTimes (c : VoiceConfig F) : Type 0 where
    pub min_speech : 0 < c.min_speech_ms
    pub silence : 0 < c.silence_ms
    pub utterance : c.min_speech_ms < c.max_utterance_ms
    pub command : 0 < c.command_timeout_ms
    pub connect : (100 ≤ c.stt_connect_timeout_ms) × (c.stt_connect_timeout_ms ≤ 30000)
    pub request : (1000 ≤ c.stt_request_timeout_ms) × (c.stt_request_timeout_ms ≤ 120000)
    pub start : (1000 ≤ c.stt_start_timeout_ms) × (c.stt_start_timeout_ms ≤ 300000)
    pub llm : (1000 ≤ c.voice_llm_timeout_ms) × (c.voice_llm_timeout_ms ≤ 300000)
    pub tts : (1000 ≤ c.tts_timeout_ms) × (c.tts_timeout_ms ≤ 120000)

  validate_texts_iff : (c : VoiceConfig F) → (validate_texts fl c ≡ ok tt) ↔ HasTexts c
  unfolding validate_texts
  validate_texts_iff c = (λ e. ground arith, λ h. ground arith)

  validate_detection_iff : (c : VoiceConfig F) → (validate_detection fl c ≡ ok tt) ↔ HasDetection c
  unfolding validate_detection
  validate_detection_iff c = (λ e. ground arith, λ h. ground arith)

  validate_times_iff : (c : VoiceConfig F) → (validate_times fl c ≡ ok tt) ↔ HasTimes c
  unfolding validate_times
  validate_times_iff c = (λ e. ground arith, λ h. ground arith)

  pub record IsValid (c : VoiceConfig F) : Type 0 where
    pub texts : HasTexts c
    pub detection : HasDetection c
    pub times : HasTimes c

  -- Validation accepts exactly the configurations that meet every bound.
  pub validate_iff : (c : VoiceConfig F) → (validate fl c ≡ ok tt) ↔ IsValid c
  unfolding validate
  validate_iff c =
      let (t, t') = validate_texts_iff c in
      let (d, d') = validate_detection_iff c in
      let (m, m') = validate_times_iff c in
      (
        λ e. record {
          texts = t (ground arith);
          detection = d (ground arith);
          times = m (ground arith);
        },
        λ v. ground (arith, t' v.texts, d' v.detection, m' v.times),
      )

  -- What loading says: a configuration that it returns is valid and is the one that it wrote, if
  -- it wrote at all; where it fails it has left the file alone, or could not write a valid one.
  abbrev pub Loads : VoiceFile F → Result String (VoiceConfig F) × Stored F → Type 0
  Loads file (ok c, w) = IsValid c × ((w ≡ untouched) ⊎ (w ≡ holds c))
  Loads file (err e, w) =
      (w ≡ untouched)
      ⊎ ((w ≡ spoilt)
          × ((c : VoiceConfig F) × IsValid c
              × ((text : Text) × (file.print c ≡ ok text) × (file.write text ≡ err e))))

  written-Loads : (file : VoiceFile F) (c : VoiceConfig F) → IsValid c → Loads file (written file c)
  unfolding written
  written-Loads file c v = elim (Result-cases (file.print c)) [
    | inr (x, e) ↦ rw (e, written) (inl refl)
    | inl (text, e) ↦ elim (Result-cases (file.write text)) [
      | inl (u, f) ↦ rw (e, written) (rw f (v, inr refl))
      | inr (x, f) ↦ rw (e, written) (rw f (inr (refl, (c, v, (text, e, f)))))
    ]
  ]

  accept-Loads :
      (wide : ℕ → Bool) (file : VoiceFile F) (c : VoiceConfig F)
      → Loads file (accept fl wide file c)
  unfolding accept
  accept-Loads wide file c = elim (Result-cases (validate fl (migrate wide c).0)) [
    | inl (u, e) ↦
        let v : IsValid (migrate wide c).0 = (validate_iff (migrate wide c).0).0 e in
        rw (e, accept)
          (elim (Bool-cases (migrate wide c).1) [
            | inl moved ↦ if-of_true (Loads file) _ moved (written-Loads file _ v)
            | inr kept ↦ if-of_false (Loads file) _ kept (v, inl refl)
          ])
    | inr (x, e) ↦ rw (e, accept) (inl refl)
  ]

  create-Loads : (wide : ℕ → Bool) (file : VoiceFile F) → Loads file (create fl wide file)
  unfolding create
  create-Loads wide file = elim (Result-cases (validate fl (default_config fl))) [
    | inl (u, e) ↦
        rw (e, create)
          (written-Loads file (default_config fl) ((validate_iff (default_config fl)).0 e))
    | inr (x, e) ↦ rw (e, create) (inl refl)
  ]

  -- Whatever the file system answers: a configuration that loading returns meets every bound, and the
  -- file was either left alone or now holds that configuration; where loading fails, the file was left
  -- alone, or the failure is that of writing a valid configuration to it.
  pub load_or_create-Loads :
      (wide : ℕ → Bool) (file : VoiceFile F) → Loads file (load_or_create fl wide file)
  unfolding load_or_create
  load_or_create-Loads wide file = elim (Result-cases file.create_dir) [
    | inr (x, e) ↦ rw (e, load_or_create) (inl refl)
    | inl (u, e) ↦
        rw (e, load_or_create)
          (elim (Bool-cases file.exists) [
            | inr absent ↦ if-of_false (Loads file) _ absent (create-Loads wide file)
            | inl there ↦
                if-of_true (Loads file) _ there (elim (Result-cases (file.read >>= file.parse)) [
                  | inl (c, p) ↦ rw p (accept-Loads wide file c)
                  | inr (x, p) ↦ rw p (inl refl)
                ])
          ])
  ]

default_not_legacy : (wide : ℕ → Bool) → is_legacy wide default_wake_phrases ≡ false
unfolding is_legacy texts_eq text_eq normalize_token fold_char is_alphanumeric is_accented_a
    is_accented_e is_accented_i is_accented_o is_accented_u is_cedilla retain default_wake_phrases
    legacy_broad_wake_phrases legacy_control_center_wake_phrases to_ascii_lowercase
    is_ascii_alphanumeric
default_not_legacy wide = refl

-- Migrating a second time changes nothing: a migrated configuration has phrases that no earlier release
-- shipped. A configuration that is not migrated stays as it is, and one that is differs in its
-- wake phrases alone.
migrate_twice :
    {F : Type 0} (wide : ℕ → Bool) (c : VoiceConfig F)
    → (migrate wide (migrate wide c).0 ≡ ((migrate wide c).0, false))
      × (((migrate wide c).0 ≡ c)
          ⊎ ((migrate wide c).0 ≡ record c { wake_phrases = default_wake_phrases }))
unfolding migrate
migrate_twice wide c = elim (Bool-cases (is_legacy wide c.wake_phrases)) [
  | inl old ↦ rw old (rw (default_not_legacy wide) (refl, inr refl))
  | inr new ↦ rw new (rw new (refl, inl refl))
]

-- The mode that the program runs in is never `auto`; it is the wake-word mode only if that was configured
-- or the wake-word file is there, and the transcript-prefix mode only if that was configured or
-- the fallback is allowed and the file is missing.
resolved_mode_cases :
    {F : Type 0} (c : VoiceConfig F) (files : Files) (dir : Text)
    → ((resolved_mode c files dir ≡ ActivationMode.wakeword)
        × ((c.activation_mode ≡ ActivationMode.wakeword)
            ⊎ (names_file c files (wakeword_path c files dir) ≡ true)))
      ⊎ ((resolved_mode c files dir ≡ ActivationMode.transcript_prefix)
          × ((c.activation_mode ≡ ActivationMode.transcript_prefix)
              ⊎ ((c.allow_transcript_prefix_fallback ≡ true)
                  × (names_file c files (wakeword_path c files dir) ≡ false))))
      ⊎ (resolved_mode c files dir ≡ ActivationMode.degraded)
unfolding resolved_mode
resolved_mode_cases c files dir = ground arith
