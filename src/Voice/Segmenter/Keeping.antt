-- ===== src/Voice/Segmenter/Keeping.antt =====
-- One `push`, with nothing left out: what it holds back, emits and drops.
use kitt_assistant.Base.{
  append-nil, Float32, refl, ◌≡◌, ◌⊎◌, inl, inr, ap, subst, ◌∙◌, Bool, true, false, ◌&&◌, Option,
  none, some, List, [], ◌∷◌, ◌++◌, ℕ, suc, ◌+◌, ◌-◌, ◌≤◌, ◌<◌, arith, ltb, leb, length, drop,
  Bool-cases, if-of_true, if-of_false,
}
use kitt_assistant.Voice.Segmenter.{
  rms, is_voiced, Segmenter, limit_of, trim_front, extend_pre_roll, reset, finish, push_idle,
  push_speaking, push,
}
use kitt_assistant.Voice.Segmenter.Step.{
  IsSound, IsIdle, IsCapturing, pending, pending_of_no_pre_roll,
}

-- What is trimmed off are the samples beyond the limit, from the front.
trim_front-drop {ℓ} :
    {A : Type ℓ} (limit : ℕ) (xs : List A) → trim_front limit xs ≡ drop (length xs - limit) xs
unfolding trim_front
trim_front-drop limit [] = ground arith
trim_front-drop limit (x ∷ xs) = elim (Bool-cases (ltb limit (length (x ∷ xs)))) [
  | inl long ↦
      let beyond : limit < length (x ∷ xs) = ground arith in
      let e : length (x ∷ xs) - limit ≡ suc (length xs - limit) = omega (arith, beyond) in
      rw (long, trim_front) (rw e (trim_front-drop limit xs))
  | inr short ↦
      let e : length (x ∷ xs) - limit ≡ 0 = ground arith in rw (short, trim_front) (rw e refl)
]

module _ {F : Type 0} where
  -- The last samples that the pre-roll has room for.
  abbrev pub tail_of : Segmenter F → List F → List F
  tail_of s samples =
      drop (length (s.pre_roll ++ samples) - limit_of s s.config.pre_roll_ms)
        (s.pre_roll ++ samples)

  -- The silence or the length at which an utterance ends.
  abbrev pub IsOver : Segmenter F → ℕ → List F → Type 0
  IsOver s silent held =
      (limit_of s s.config.silence_ms ≤ silent)
      ⊎ (limit_of s s.config.max_utterance_ms ≤ length held)

  -- An utterance `held` with so much speech, and so much silence at its end, goes on as it is, is
  -- emitted as it is, or is dropped.
  abbrev pub Judged :
      Segmenter F → List F → (heard silent : ℕ) → Segmenter F × Option (List F) → Type 0
  Judged s held heard silent (t, out) =
      ((out ≡ none)
        × (t.speaking ≡ true)
        × (pending t ≡ held)
        × (t.speech_samples ≡ heard)
        × (t.silence_samples ≡ silent)
        × (silent < limit_of s s.config.silence_ms)
        × (length held < limit_of s s.config.max_utterance_ms))
      ⊎ (IsOver s silent held
          × (t.speaking ≡ false)
          × (pending t ≡ [])
          × (((out ≡ some held) × (limit_of s s.config.min_speech_ms ≤ heard))
              ⊎ ((out ≡ none) × (heard < limit_of s s.config.min_speech_ms))))

  finish-Judged :
      (s t : Segmenter F)
      → t.config ≡ s.config
      → t.sample_rate ≡ s.sample_rate
      → t.speaking ≡ true
      → t.pre_roll ≡ []
      → Judged s t.current t.speech_samples t.silence_samples (finish t)
  unfolding finish reset
  finish-Judged s t config rate talking no_pre_roll =
      elim (Bool-cases (
        ltb t.silence_samples (limit_of t t.config.silence_ms)
        && ltb (length t.current) (limit_of t t.config.max_utterance_ms))) [
          | inl on ↦
              rw (on, finish)
                (inl (
                  refl,
                  talking,
                  ap (◌++◌ t.current) no_pre_roll ∙ append-nil t.current,
                  refl,
                  refl,
                  ground arith,
                  ground arith,
                ))
          | inr over ↦
              elim (Bool-cases (leb (limit_of t t.config.min_speech_ms) t.speech_samples)) [
                | inl long ↦
                    rw (over, long, finish)
                      (inr (ground arith, refl, refl, inl (refl, ground arith)))
                | inr short ↦
                    rw (over, short, finish)
                      (inr (ground arith, refl, refl, inr (refl, ground arith)))
              ]
        ]

  -- What one call within speech does.
  abbrev pub Continues : Segmenter F → List F → Bool → Segmenter F × Option (List F) → Type 0
  Continues s samples true r =
      Judged s (pending s ++ samples) (s.speech_samples + length samples) 0 r
  Continues s samples false r =
      Judged s (pending s ++ samples) s.speech_samples (s.silence_samples + length samples) r

  -- A call outside speech that begins none.
  abbrev pub Waits : Segmenter F → List F → ℕ → Segmenter F × Option (List F) → Type 0
  Waits s samples candidate (t, out) =
      (out ≡ none)
      × (t.speaking ≡ false)
      × (pending t ≡ tail_of s samples)
      × (t.candidate_voiced_samples ≡ candidate)

  -- What one call outside speech does.
  abbrev pub Begins : Segmenter F → List F → Bool → Segmenter F × Option (List F) → Type 0
  Begins s samples false r = Waits s samples 0 r
  Begins s samples true r =
      let candidate = s.candidate_voiced_samples + length samples in
      ((candidate < limit_of s s.config.speech_start_ms) × Waits s samples candidate r)
      ⊎ ((limit_of s s.config.speech_start_ms ≤ candidate)
          × Judged s (tail_of s samples) candidate 0 r)

  push_speaking-Continues :
      (s : Segmenter F) (samples : List F) (voiced : Bool)
      → IsCapturing s
      → Continues s samples voiced (push_speaking s samples voiced)
  unfolding push_speaking
  push_speaking-Continues s samples true c =
      let t = record s {
        current = s.current ++ samples;
        speech_samples = s.speech_samples + length samples;
        silence_samples = 0;
      } in
      subst (λ held. Judged s held (s.speech_samples + length samples) 0 (finish t))
        (ap (λ u. u ++ samples) (pending_of_no_pre_roll s c.no_pre_roll))
        (finish-Judged s t refl refl c.talking c.no_pre_roll)
  push_speaking-Continues s samples false c =
      let t = record s {
        current = s.current ++ samples;
        silence_samples = s.silence_samples + length samples;
      } in
      subst (λ held. Judged s held s.speech_samples (s.silence_samples + length samples) (finish t))
        (ap (λ u. u ++ samples) (pending_of_no_pre_roll s c.no_pre_roll))
        (finish-Judged s t refl refl c.talking c.no_pre_roll)

  kept_tail :
      (s : Segmenter F) (samples : List F)
      → IsIdle s
      → s.current ++ trim_front (limit_of s s.config.pre_roll_ms) (s.pre_roll ++ samples)
        ≡ tail_of s samples
  kept_tail s samples i =
      rw i.no_current (trim_front-drop (limit_of s s.config.pre_roll_ms) (s.pre_roll ++ samples))

  push_idle-Begins :
      (s : Segmenter F) (samples : List F) (noise : F) (voiced : Bool)
      → IsIdle s
      → Begins s samples voiced (push_idle s samples noise voiced)
  unfolding push_idle extend_pre_roll
  push_idle-Begins s samples noise false i = (refl, i.quiet, kept_tail s samples i, refl)
  push_idle-Begins s samples noise true i =
      elim (Bool-cases
        (ltb (s.candidate_voiced_samples + length samples) (limit_of s s.config.speech_start_ms))) [
          | inl early ↦
              rw (early, push_idle)
                (inl (ground arith, (refl, i.quiet, kept_tail s samples i, refl)))
          | inr start ↦
              let candidate = s.candidate_voiced_samples + length samples in
              let t = record s {
                speaking = true;
                current =
                    s.current
                    ++ trim_front (limit_of s s.config.pre_roll_ms) (s.pre_roll ++ samples);
                pre_roll = [];
                speech_samples = candidate;
                candidate_voiced_samples = 0;
                silence_samples = 0;
              } in
              rw (start, push_idle)
                (inr (
                  ground arith,
                  subst (λ held. Judged s held candidate 0 (finish t)) (kept_tail s samples i)
                      (finish-Judged s t refl refl refl refl),
                ))
        ]

  -- What one call on a sound segmenter does, by whether it is within speech and whether the samples
  -- are voiced.
  abbrev pub Pushes : Segmenter F → List F → Bool → Segmenter F × Option (List F) → Type 0
  Pushes s samples voiced r =
      ((s.speaking ≡ true) × Continues s samples voiced r)
      ⊎ ((s.speaking ≡ false) × Begins s samples voiced r)

-- A call with samples on a sound segmenter. Within speech they join the samples that are held back;
-- outside it the last ones that the pre-roll has room for are held back, until the voiced samples
-- in a row suffice to begin an utterance with them. An utterance goes on with all its samples while
-- its silence and its length are below their limits. At a limit it ends and nothing is held back:
-- exactly what was held back is emitted if the speech in it suffices, and otherwise nothing.
pub push-Pushes :
    (fl : Float32) (s : Segmenter fl.F) (x : fl.F) (xs : List fl.F)
    → IsSound s
    → Pushes s (x ∷ xs) (is_voiced fl s (rms fl (x ∷ xs))) (push fl s (x ∷ xs))
unfolding push
push-Pushes fl s x xs (inl i) = inr (
  i.quiet,
  if-of_false (Begins s (x ∷ xs) (is_voiced fl s (rms fl (x ∷ xs)))) _ i.quiet
      (push_idle-Begins s (x ∷ xs) _ _ i),
)
push-Pushes fl s x xs (inr c) = inl (
  c.talking,
  if-of_true (Continues s (x ∷ xs) (is_voiced fl s (rms fl (x ∷ xs)))) _ c.talking
      (push_speaking-Continues s (x ∷ xs) _ c),
)
