-- ===== src/Voice/Segmenter/Step.antt =====
-- One `push`: the two phases of the segmenter, the size of what it emits, and where the samples go.
use kitt_assistant.Base.{
  if-of_true, if-of_false, ◌&&◌, ℕ, ◌+◌, ◌≤◌, ◌<◌, ◌≡◌, refl, sym, ap, ◌∙◌, ◌⊎◌, inl, inr, Bool,
  true, false, Option, none, some, List, [], ◌∷◌, ◌++◌, append-nil, Float32, length, length-append,
  arith, Bool-cases, ltb, leb,
}
use kitt_assistant.Voice.Segmenter.{
  Segmenter, limit_of, trim_front, extend_pre_roll, reset, finish, push_idle, push_speaking, push,
}

trim_front-le {ℓ} : {A : Type ℓ} (limit : ℕ) (xs : List A) → length (trim_front limit xs) ≤ limit
unfolding trim_front
trim_front-le limit [] = omega arith
trim_front-le limit (x ∷ xs) = ground (arith, trim_front-le limit xs)

-- What is trimmed off stands in front.
trim_front_suffix {ℓ} :
    {A : Type ℓ} (limit : ℕ) (xs : List A) → (gap : List A) × (xs ≡ gap ++ trim_front limit xs)
unfolding trim_front
trim_front_suffix limit [] = ([], refl)
trim_front_suffix limit (x ∷ xs) = elim (Bool-cases (ltb limit (length (x ∷ xs)))) [
  | inl long ↦
      let (gap, e) = trim_front_suffix limit xs in (x ∷ gap, rw (long, trim_front) (ap (◌∷◌ x) e))
  | inr short ↦ ([], rw (short, trim_front))
]

module _ {F : Type 0} where
  -- Outside speech: nothing is collected, and the pre-roll is within its limit.
  pub record IsIdle (s : Segmenter F) : Type 0 where
    pub quiet : s.speaking ≡ false
    pub no_current : s.current ≡ []
    pub no_speech : s.speech_samples ≡ 0
    pub no_silence : s.silence_samples ≡ 0
    pub pre_roll_bound : length s.pre_roll ≤ limit_of s s.config.pre_roll_ms

  -- Within speech: the utterance is below its limit, and so is the silence at its end.
  pub record IsCapturing (s : Segmenter F) : Type 0 where
    pub talking : s.speaking ≡ true
    pub no_pre_roll : s.pre_roll ≡ []
    pub no_candidate : s.candidate_voiced_samples ≡ 0
    pub current_bound : length s.current < limit_of s s.config.max_utterance_ms
    pub silence_bound : s.silence_samples < limit_of s s.config.silence_ms

  abbrev pub IsSound : Segmenter F → Type 0
  IsSound s = IsIdle s ⊎ IsCapturing s

  -- The samples that are held back, in the order in which they came.
  abbrev pub pending : Segmenter F → List F
  pending s = s.current ++ s.pre_roll

  -- What one call does to a sound segmenter, given the samples that it took in. Where it emits
  -- nothing, what is pending afterwards is an end of what was pending and came in. What it emits is
  -- such an end, nothing is pending behind it, and its length is bounded.
  abbrev pub Pushed : Segmenter F → List F → Segmenter F × Option (List F) → Type 0
  Pushed s samples (t, none) =
      IsSound t
      × (t.config ≡ s.config)
      × (t.sample_rate ≡ s.sample_rate)
      × ((gap : List F) × (pending s ++ samples ≡ gap ++ pending t))
  Pushed s samples (t, some audio) =
      IsIdle t
      × (t.config ≡ s.config)
      × (t.sample_rate ≡ s.sample_rate)
      × (pending t ≡ [])
      × ((gap : List F) × (pending s ++ samples ≡ gap ++ audio))
      × ((length audio < limit_of s s.config.max_utterance_ms + length samples)
          ⊎ (length audio ≤ limit_of s s.config.pre_roll_ms))

  pub reset-IsIdle : (s : Segmenter F) → IsIdle (reset s)
  unfolding reset
  reset-IsIdle s = record {
    quiet = refl;
    no_current = refl;
    no_speech = refl;
    no_silence = refl;
    pre_roll_bound = omega arith;
  }

  -- What `push` hands to its end: an utterance that ends with what came in.
  record Grown (s : Segmenter F) (samples : List F) (t : Segmenter F) : Type 0 where
    config : t.config ≡ s.config
    rate : t.sample_rate ≡ s.sample_rate
    talking : t.speaking ≡ true
    no_pre_roll : t.pre_roll ≡ []
    no_candidate : t.candidate_voiced_samples ≡ 0
    gap : List F
    cut : pending s ++ samples ≡ gap ++ t.current
    size :
        (length t.current < limit_of s s.config.max_utterance_ms + length samples)
        ⊎ (length t.current ≤ limit_of s s.config.pre_roll_ms)

  pub pending_of_no_pre_roll : (t : Segmenter F) → t.pre_roll ≡ [] → t.current ≡ pending t
  pending_of_no_pre_roll t e = sym (ap (◌++◌ t.current) e ∙ append-nil t.current)

  finish-Pushed :
      (s : Segmenter F) (samples : List F) (t : Segmenter F)
      → Grown s samples t
      → Pushed s samples (finish t)
  unfolding finish reset
  finish-Pushed s samples t g =
      elim (Bool-cases (
        ltb t.silence_samples (limit_of t t.config.silence_ms)
        && ltb (length t.current) (limit_of t t.config.max_utterance_ms))) [
          | inl on ↦
              rw (on, finish)
                (
                  inr (record {
                    talking = g.talking;
                    no_pre_roll = g.no_pre_roll;
                    no_candidate = g.no_candidate;
                    current_bound = ground arith;
                    silence_bound = ground arith;
                  }),
                  g.config,
                  g.rate,
                  (g.gap, g.cut ∙ ap (◌++◌ g.gap) (pending_of_no_pre_roll t g.no_pre_roll)),
                )
          | inr over ↦
              elim (Bool-cases (leb (limit_of t t.config.min_speech_ms) t.speech_samples)) [
                | inl long ↦
                    rw (over, long, finish)
                      (reset-IsIdle t, g.config, g.rate, refl, (g.gap, g.cut), g.size)
                | inr short ↦
                    rw (over, short, finish)
                      (
                        inl (reset-IsIdle t),
                        g.config,
                        g.rate,
                        (pending s ++ samples, sym (append-nil (pending s ++ samples))),
                      )
              ]
        ]

  push_speaking-Pushed :
      (s : Segmenter F) (samples : List F) (voiced : Bool)
      → IsCapturing s
      → Pushed s samples (push_speaking s samples voiced)
  unfolding push_speaking
  push_speaking-Pushed s samples true c = finish-Pushed s samples _ (record {
    config = refl;
    rate = refl;
    talking = c.talking;
    no_pre_roll = c.no_pre_roll;
    no_candidate = c.no_candidate;
    gap = [];
    cut = ap (λ u. u ++ samples) (sym (pending_of_no_pre_roll s c.no_pre_roll));
    size = inl (omega (arith, length-append s.current samples, c.current_bound));
  })
  push_speaking-Pushed s samples false c = finish-Pushed s samples _ (record {
    config = refl;
    rate = refl;
    talking = c.talking;
    no_pre_roll = c.no_pre_roll;
    no_candidate = c.no_candidate;
    gap = [];
    cut = ap (λ u. u ++ samples) (sym (pending_of_no_pre_roll s c.no_pre_roll));
    size = inl (omega (arith, length-append s.current samples, c.current_bound));
  })

  -- The pre-roll of the next state, and what falls out of it.
  abbrev rolled : Segmenter F → List F → List F
  rolled s samples = trim_front (limit_of s s.config.pre_roll_ms) (s.pre_roll ++ samples)

  idle_cut :
      (s : Segmenter F) (samples : List F)
      → IsIdle s
      → (gap : List F) × (pending s ++ samples ≡ gap ++ (s.current ++ rolled s samples))
  idle_cut s samples i =
      let (gap, e) = trim_front_suffix (limit_of s s.config.pre_roll_ms) (s.pre_roll ++ samples) in
      (
        gap,
        ap (λ u. (u ++ s.pre_roll) ++ samples) i.no_current
            ∙ e
            ∙ ap (λ u. gap ++ (u ++ rolled s samples)) (sym i.no_current),
      )

  rolled_bound :
      (s : Segmenter F) (samples : List F)
      → IsIdle s
      → length (s.current ++ rolled s samples) ≤ limit_of s s.config.pre_roll_ms
  rolled_bound s samples i =
      rw i.no_current (trim_front-le (limit_of s s.config.pre_roll_ms) (s.pre_roll ++ samples))

  push_idle-Pushed :
      (s : Segmenter F) (samples : List F) (noise : F) (voiced : Bool)
      → IsIdle s
      → Pushed s samples (push_idle s samples noise voiced)
  unfolding push_idle extend_pre_roll
  push_idle-Pushed s samples noise false i = (
    inl (record {
      quiet = i.quiet;
      no_current = i.no_current;
      no_speech = i.no_speech;
      no_silence = i.no_silence;
      pre_roll_bound = trim_front-le _ (s.pre_roll ++ samples);
    }),
    refl,
    refl,
    idle_cut s samples i,
  )
  push_idle-Pushed s samples noise true i =
      elim (Bool-cases
        (ltb (s.candidate_voiced_samples + length samples) (limit_of s s.config.speech_start_ms))) [
          | inl early ↦
              rw (early, push_idle)
                (
                  inl (record {
                    quiet = i.quiet;
                    no_current = i.no_current;
                    no_speech = i.no_speech;
                    no_silence = i.no_silence;
                    pre_roll_bound = trim_front-le _ (s.pre_roll ++ samples);
                  }),
                  refl,
                  refl,
                  idle_cut s samples i,
                )
          | inr start ↦
              let (gap, cut) = idle_cut s samples i in
              rw (start, push_idle)
                (finish-Pushed s samples _ (record {
                  config = refl;
                  rate = refl;
                  talking = refl;
                  no_pre_roll = refl;
                  no_candidate = refl;
                  gap = gap;
                  cut = cut;
                  size = inr (rolled_bound s samples i);
                }))
        ]

-- A call on a sound segmenter keeps it sound and its configuration unchanged, and keeps the samples in
-- order: what it emits, or what it holds back afterwards, is an end of the samples that were held
-- back and came in. After it has emitted an utterance it is idle with nothing held
-- back, and the utterance has fewer samples than the limit on utterances and the call's input
-- together, or at most as many as the limit on the pre-roll.
pub push-Pushed :
    (fl : Float32) (s : Segmenter fl.F) (samples : List fl.F)
    → IsSound s
    → Pushed s samples (push fl s samples)
unfolding push
push-Pushed fl s [] sound = (sound, refl, refl, ([], append-nil (pending s)))
push-Pushed fl s (x ∷ xs) (inl i) =
    if-of_false (Pushed s (x ∷ xs)) _ i.quiet (push_idle-Pushed s (x ∷ xs) _ _ i)
push-Pushed fl s (x ∷ xs) (inr c) =
    if-of_true (Pushed s (x ∷ xs)) _ c.talking (push_speaking-Pushed s (x ∷ xs) _ c)
