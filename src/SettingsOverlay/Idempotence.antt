-- ===== src/SettingsOverlay/Idempotence.antt =====
-- The overrides laid over a second time.
use kitt_assistant.Voice.Config.{VoiceConfig, ActivationMode}
use kitt_assistant.Base.{
  ℤ, Float32, ◌≡◌, ap, subst, Bool, Option, List, ℕ, arith, Text, Result, ok, codes, >>=-eq-ok,
}
use kitt_assistant.ControlCenter.Json.{Fields, Doubles}
use kitt_assistant.SettingsOverlay.{
  Overlay, section, set_string, set_u64, set_bool, set_optional_string, set_i32, set_u8,
}
use kitt_assistant.SettingsOverlay.VoiceSettings.{
  set_fields, overlaid_voice, apply_voice, set_mode, set_fuzzy, set_phrases, set_speaker, set_f32,
  set_optional_f32,
}

ok_eq : {A : Type 0} (a b : A) → ◌≡◌ {A = Result Text A} (ok a) (ok b) → a ≡ b
ok_eq a b e = ground arith

module _ (v : Fields) (key : Text) where
  set_string_idem : (t : Text) → set_string v key (set_string v key t) ≡ set_string v key t
  unfolding set_string
  set_string_idem t = ground arith

  set_u64_idem : (t : ℕ) → set_u64 v key (set_u64 v key t) ≡ set_u64 v key t
  unfolding set_u64
  set_u64_idem t = ground arith

  set_bool_idem : (t : Bool) → set_bool v key (set_bool v key t) ≡ set_bool v key t
  unfolding set_bool
  set_bool_idem t = ground arith

  set_optional_string_idem :
      (t : Option Text)
      → set_optional_string v key (set_optional_string v key t) ≡ set_optional_string v key t
  unfolding set_optional_string
  set_optional_string_idem t = ground arith

  set_i32_idem : (t r : ℤ) → set_i32 v key t ≡ ok r → set_i32 v key r ≡ ok r
  unfolding set_i32
  set_i32_idem t r e = ground arith

  set_u8_idem : (t r : ℕ) → set_u8 v key t ≡ ok r → set_u8 v key r ≡ ok r
  unfolding set_u8
  set_u8_idem t r e = ground arith

module _ (v : Fields) where
  set_mode_idem : (t r : ActivationMode) → set_mode v t ≡ ok r → set_mode v r ≡ ok r
  unfolding set_mode
  set_mode_idem t r e = ground arith

  set_fuzzy_idem : (t r : ℕ) → set_fuzzy v t ≡ ok r → set_fuzzy v r ≡ ok r
  unfolding set_fuzzy
  set_fuzzy_idem t r e = ground arith

  set_phrases_idem : (t : List Text) → set_phrases v (set_phrases v t) ≡ set_phrases v t
  unfolding set_phrases
  set_phrases_idem t = ground arith

  set_speaker_idem : (t : Option ℤ) → set_speaker v (set_speaker v t) ≡ set_speaker v t
  unfolding set_speaker
  set_speaker_idem t = ground arith

module _ (fl : Float32) (ds : Doubles) (as_f32 : ds.F → fl.F) (v : Fields) where
  set_f32_idem :
      (key : Text) (t : fl.F)
      → set_f32 fl ds as_f32 v key (set_f32 fl ds as_f32 v key t) ≡ set_f32 fl ds as_f32 v key t
  unfolding set_f32
  set_f32_idem key t = ground arith

  set_optional_f32_idem :
      (key : Text) (t : Option fl.F)
      → set_optional_f32 fl ds as_f32 v key (set_optional_f32 fl ds as_f32 v key t)
        ≡ set_optional_f32 fl ds as_f32 v key t
  unfolding set_optional_f32
  set_optional_f32_idem key t = ground arith

  set_fields_idem :
      (c : VoiceConfig fl.F) (mode : ActivationMode) (distance : ℕ) (rate pitch : ℤ) (volume : ℕ)
      → set_fields fl ds as_f32 v
          (set_fields fl ds as_f32 v c mode distance rate pitch volume)
          mode
          distance
          rate
          pitch
          volume
        ≡ set_fields fl ds as_f32 v c mode distance rate pitch volume
  unfolding set_fields
  set_fields_idem c mode distance rate pitch volume = simp (
    set_string_idem, set_u64_idem, set_bool_idem, set_optional_string_idem, set_phrases_idem,
    set_speaker_idem, set_f32_idem, set_optional_f32_idem,
  )

  again :
      (c : VoiceConfig fl.F) (mode : ActivationMode) (distance : ℕ) (rate pitch : ℤ) (volume : ℕ)
      → set_mode v mode ≡ ok mode
      → set_fuzzy v distance ≡ ok distance
      → set_i32 v (codes "tts_rate") rate ≡ ok rate
      → set_i32 v (codes "tts_pitch") pitch ≡ ok pitch
      → set_u8 v (codes "tts_volume") volume ≡ ok volume
      → overlaid_voice fl ds as_f32 v (set_fields fl ds as_f32 v c mode distance rate pitch volume)
        ≡ ok (set_fields fl ds as_f32 v c mode distance rate pitch volume)
  unfolding overlaid_voice set_fields
  again c mode distance rate pitch volume m d r p w =
      rw m (rw d (rw r (rw p (rw w (ap ok (set_fields_idem c mode distance rate pitch volume))))))

  overlaid_voice_idem :
      (c c' : VoiceConfig fl.F)
      → overlaid_voice fl ds as_f32 v c ≡ ok c'
      → overlaid_voice fl ds as_f32 v c' ≡ ok c'
  unfolding overlaid_voice
  overlaid_voice_idem c c' e =
      let (mode, m, e₁) = >>=-eq-ok (set_mode v c.activation_mode) _ e in
      let (distance, d, e₂) = >>=-eq-ok (set_fuzzy v c.wake_fuzzy_max_distance) _ e₁ in
      let (rate, r, e₃) = >>=-eq-ok (set_i32 v (codes "tts_rate") c.tts_rate) _ e₂ in
      let (pitch, p, e₄) = >>=-eq-ok (set_i32 v (codes "tts_pitch") c.tts_pitch) _ e₃ in
      let (volume, w, e₅) = >>=-eq-ok (set_u8 v (codes "tts_volume") c.tts_volume) _ e₄ in
      let same = ok_eq (set_fields fl ds as_f32 v c mode distance rate pitch volume) c' e₅ in
      subst (λ x. overlaid_voice fl ds as_f32 v x ≡ ok x) same
        (again c mode distance rate pitch volume (set_mode_idem v c.activation_mode mode m)
          (set_fuzzy_idem v c.wake_fuzzy_max_distance distance d)
          (set_i32_idem v (codes "tts_rate") c.tts_rate rate r)
          (set_i32_idem v (codes "tts_pitch") c.tts_pitch pitch p)
          (set_u8_idem v (codes "tts_volume") c.tts_volume volume w))

module _ (fl : Float32) (ds : Doubles) (as_f32 : ds.F → fl.F) where
  -- Voice overrides that are accepted are settled: laid over the voice configuration that they gave, they give
  -- it again, in each of its fields.
  apply_voice_idem :
      (o : Overlay) (c c' : VoiceConfig fl.F)
      → apply_voice fl ds as_f32 o c ≡ ok c'
      → apply_voice fl ds as_f32 o c' ≡ ok c'
  unfolding apply_voice
  apply_voice_idem o c c' e =
      let (fields, f, e₁) = >>=-eq-ok (section o (codes "assistant.voice")) _ e in
      rw f (overlaid_voice_idem fl ds as_f32 fields c c' e₁)
