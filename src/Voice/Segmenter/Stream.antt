-- ===== src/Voice/Segmenter/Stream.antt =====
-- The segmenter over a whole stream: what is emitted are pieces of the stream, apart and in order.
use kitt_assistant.Base.{
  subst, ℕ, ◌≡◌, refl, sym, ap, ◌∙◌, inl, Option, none, some, List, [], ◌∷◌, ◌++◌, append_assoc,
  Float32, arith,
}
use kitt_assistant.Voice.Config.{VoiceConfig}
use kitt_assistant.Voice.Segmenter.{Segmenter, push, reset, new_segmenter}
use kitt_assistant.Voice.Segmenter.Step.{IsSound, pending, Pushed, push-Pushed, reset-IsIdle}

-- What the capture loop feeds in: a chunk that is heard, or one that arrives while capture is paused,
-- which resets the segmenter and is dropped.
pub data Chunk (F : Type 0) : Type 0 where
  heard : List F → Chunk F
  paused : List F → Chunk F

abbrev pub samples_of : {F : Type 0} → List (Chunk F) → List F
samples_of [] = []
samples_of (heard xs ∷ cs) = xs ++ samples_of cs
samples_of (paused xs ∷ cs) = xs ++ samples_of cs

abbrev emit : {F : Type 0} → Option (List F) → List (List F) → List (List F)
emit none us = us
emit (some u) us = u ∷ us

-- The utterances that a stream of chunks yields.
unfoldable pub utterances : (fl : Float32) → Segmenter fl.F → List (Chunk fl.F) → List (List fl.F)
utterances fl s [] = []
utterances fl s (heard xs ∷ cs) = let (t, out) = push fl s xs in emit out (utterances fl t cs)
utterances fl s (paused xs ∷ cs) = utterances fl (reset s) cs

-- The utterances stand in the stream one behind the other, with gaps between them.
abbrev pub Covers : {F : Type 0} → List (List F) → List F → Type 0
Covers [] stream = Unit
Covers {F} (u ∷ us) stream =
    (gap : List F) × (rest : List F) × (stream ≡ gap ++ (u ++ rest)) × Covers us rest

Covers-widen :
    {F : Type 0} (us : List (List F)) (front stream : List F)
    → Covers us stream
    → Covers us (front ++ stream)
Covers-widen [] front stream c = tt
Covers-widen (u ∷ us) front stream (gap, rest, e, c) =
    (front ++ gap, rest, ap (◌++◌ front) e ∙ sym (append_assoc front gap (u ++ rest)), c)

regroup :
    {F : Type 0} (held xs later gap out : List F)
    → held ++ xs ≡ gap ++ out
    → held ++ (xs ++ later) ≡ gap ++ (out ++ later)
regroup held xs later gap out e =
    sym (append_assoc held xs later) ∙ ap (λ u. u ++ later) e ∙ append_assoc gap out later

module _ (fl : Float32) where
  utterances-Covers :
      (s : Segmenter fl.F) (cs : List (Chunk fl.F))
      → IsSound s
      → Covers (utterances fl s cs) (pending s ++ samples_of cs)
  unfolding utterances reset
  utterances-Covers s [] sound = tt
  utterances-Covers s (heard xs ∷ cs) sound =
      go (push fl s xs).0 (push fl s xs).1 (push-Pushed fl s xs sound) (λ t. utterances-Covers t cs)
    where
      go :
          (t : Segmenter fl.F) (out : Option (List fl.F))
          → Pushed s xs (t, out)
          → ((t : Segmenter fl.F)
              → IsSound t
              → Covers (utterances fl t cs) (pending t ++ samples_of cs))
          → Covers (emit out (utterances fl t cs)) (pending s ++ (xs ++ samples_of cs))
      go t none (sound', _, _, (gap, e)) ih =
          subst (Covers (utterances fl t cs))
            (sym (regroup (pending s) xs (samples_of cs) gap (pending t) e))
            (Covers-widen (utterances fl t cs) gap _ (ih t sound'))
      go t (some u) (idle, _, _, p, (gap, e), _) ih = (
        gap,
        samples_of cs,
        regroup (pending s) xs (samples_of cs) gap u e,
        subst (λ p. Covers (utterances fl t cs) (p ++ samples_of cs)) p (ih t (inl idle)),
      )
  utterances-Covers s (paused xs ∷ cs) sound =
      Covers-widen (utterances fl (reset s) cs) (pending s) (xs ++ samples_of cs) (
        Covers-widen (utterances fl (reset s) cs) xs (samples_of cs)
          (utterances-Covers (reset s) cs (inl (reset-IsIdle s))))

  pub new_segmenter-IsSound :
      (sample_rate : ℕ) (config : VoiceConfig fl.F) → IsSound (new_segmenter fl sample_rate config)
  unfolding new_segmenter
  new_segmenter-IsSound sample_rate config = inl (record {
    quiet = refl;
    no_current = refl;
    no_speech = refl;
    no_silence = refl;
    pre_roll_bound = omega arith;
  })

  -- From a new segmenter, whatever the chunks and pauses, the utterances are contiguous pieces of the
  -- microphone's samples, in their order and without overlap.
  pub new_segmenter-utterances-Covers :
      (sample_rate : ℕ) (config : VoiceConfig fl.F) (cs : List (Chunk fl.F))
      → Covers (utterances fl (new_segmenter fl sample_rate config) cs) (samples_of cs)
  unfolding new_segmenter
  new_segmenter-utterances-Covers sample_rate config cs =
      utterances-Covers _ cs (new_segmenter-IsSound sample_rate config)
