-- ===== src/Application/Ask.antt =====
-- How often `ask` calls the models, and where its errors come from.
use kitt_assistant.Base.{
  refl, Result-cases, inl, inr, ℕ, suc, ◌+◌, ◌≤◌, ◌≡◌, ◌⊎◌, Bool, true, false, [], ◌∷◌, Text,
  Result, ok, err, arith,
}
use kitt_assistant.Domain.{AssistantError, ModelTier, RouteHint, RoutedAnswer, History, model_call}
use kitt_assistant.Domain.Routing.{choose}
use kitt_assistant.Application.{AssistantService, complete_with, ask_at, ask}

abbrev same_tier : ModelTier → ModelTier → Bool
same_tier ModelTier.fast ModelTier.fast = true
same_tier ModelTier.heavy ModelTier.heavy = true
same_tier _ _ = false

-- How many calls of the model in a slot a history holds.
abbrev pub tried : ModelTier → History → ℕ
tried slot [] = 0
tried slot (model_call t req ∷ h) = elim (same_tier slot t) [
  | true ↦ suc (tried slot h)
  | false ↦ tried slot h
]
tried slot (_ ∷ h) = tried slot h

abbrev pub other : ModelTier → ModelTier
other ModelTier.fast = ModelTier.heavy
other ModelTier.heavy = ModelTier.fast

abbrev Ran : ModelTier → History → History → Result AssistantError Text → Type 0
Ran slot h h' (ok answer) =
    (tried slot h' ≡ tried slot h + 1) × (tried (other slot) h' ≡ tried (other slot) h)
Ran slot h h' (err e) =
    (tried slot h' ≤ tried slot h + 1) × (tried (other slot) h' ≡ tried (other slot) h)

-- What an outcome of `ask` says of the calls that were made, given the routing choice.
abbrev pub Reported : ModelTier → History → History → Result AssistantError RoutedAnswer → Type 0
Reported choice h h' (ok a) =
    ((choice ≡ ModelTier.fast)
      × (a.tier ≡ ModelTier.fast)
      × (a.fallback_used ≡ false)
      × (tried ModelTier.fast h' ≡ tried ModelTier.fast h + 1)
      × (tried ModelTier.heavy h' ≡ tried ModelTier.heavy h))
    ⊎ ((choice ≡ ModelTier.fast)
        × (a.tier ≡ ModelTier.heavy)
        × (a.fallback_used ≡ true)
        × (tried ModelTier.fast h' ≤ tried ModelTier.fast h + 1)
        × (tried ModelTier.heavy h' ≡ tried ModelTier.heavy h + 1))
    ⊎ ((choice ≡ ModelTier.heavy)
        × (a.tier ≡ ModelTier.heavy)
        × (a.fallback_used ≡ false)
        × (tried ModelTier.fast h' ≡ tried ModelTier.fast h)
        × (tried ModelTier.heavy h' ≡ tried ModelTier.heavy h + 1))
Reported choice h h' (err e) =
    (tried ModelTier.heavy h' ≤ tried ModelTier.heavy h + 1)
    × (((choice ≡ ModelTier.fast) × (tried ModelTier.fast h' ≤ tried ModelTier.fast h + 1))
        ⊎ ((choice ≡ ModelTier.heavy) × (tried ModelTier.fast h' ≡ tried ModelTier.fast h)))

module _ {R F : Type 0} (content : R → Text) (s : AssistantService R F) (text : Text) where
  complete_with-Ran :
      (slot : ModelTier) (h : History)
      → Ran slot h (complete_with content s slot text h).1 (complete_with content s slot text h).0
  unfolding complete_with
  complete_with-Ran ModelTier.fast h = ground arith
  complete_with-Ran ModelTier.heavy h = ground arith

  ask_at-Reported :
      (tier : ModelTier) (h : History)
      → Reported tier h (ask_at content s tier text h).1 (ask_at content s tier text h).0
  unfolding ask_at
  ask_at-Reported ModelTier.fast h = ground (
    arith,
    complete_with-Ran ModelTier.fast h,
    complete_with-Ran ModelTier.heavy (complete_with content s ModelTier.fast text h).1,
  )
  ask_at-Reported ModelTier.heavy h = ground (arith, complete_with-Ran ModelTier.heavy h)

  -- A failure is that of the heavy model's attempt, the last thing done: the only one where the heavy tier was
  -- chosen, and after a failed attempt of the fast model otherwise.
  abbrev pub FailedLast :
      ModelTier → History → History → Result AssistantError RoutedAnswer → Type 0
  FailedLast choice h h' (ok a) = Unit
  FailedLast choice h h' (err e) =
      (h₁ : History) × (complete_with content s ModelTier.heavy text h₁ ≡ (err e, h'))
      × (((choice ≡ ModelTier.heavy) × (h₁ ≡ h))
          ⊎ ((choice ≡ ModelTier.fast)
              × ((e₁ : AssistantError) × (complete_with content s ModelTier.fast text h
                    ≡ (err e₁, h₁)))))

  if_failed :
      (choice : ModelTier) (h h' : History) (r : Result AssistantError RoutedAnswer)
      → ((e : AssistantError) → r ≡ err e → FailedLast choice h h' (err e))
      → FailedLast choice h h' r
  if_failed choice h h' (ok a) f = tt
  if_failed choice h h' (err e) f = f e refl

  heavy_failed :
      (h : History) (e : AssistantError)
      → (ask_at content s ModelTier.heavy text h).0 ≡ err e
      → complete_with content s ModelTier.heavy text h
        ≡ (err e, (ask_at content s ModelTier.heavy text h).1)
  unfolding ask_at
  heavy_failed h e p = ground arith

  fast_failed :
      (h : History) (e : AssistantError)
      → (ask_at content s ModelTier.fast text h).0 ≡ err e
      → (e₁ : AssistantError) × (complete_with content s ModelTier.fast text h
          ≡ (err e₁, (complete_with content s ModelTier.fast text h).1))
        × (complete_with content s ModelTier.heavy text
              (complete_with content s ModelTier.fast text h).1
            ≡ (err e, (ask_at content s ModelTier.fast text h).1))
  unfolding ask_at
  fast_failed h e p = elim (Result-cases (complete_with content s ModelTier.fast text h).0) [
    | inl (a, f) ↦ ground arith
    | inr (x, f) ↦ (x, ground arith, ground arith)
  ]

  ask_at-FailedLast :
      (tier : ModelTier) (h : History)
      → FailedLast tier h (ask_at content s tier text h).1 (ask_at content s tier text h).0
  unfolding ask_at complete_with
  ask_at-FailedLast ModelTier.heavy h =
      if_failed ModelTier.heavy h _ _ (λ e p. (h, heavy_failed h e p, inl (refl, refl)))
  ask_at-FailedLast ModelTier.fast h = if_failed ModelTier.fast h _ _ (λ e p.
      let (e₁, failed, last) = fast_failed h e p in
      ((complete_with content s ModelTier.fast text h).1, last, inr (refl, (e₁, failed))))

  -- For every outcome: a fast answer made one fast call and no heavy one; a fallback answer comes
  -- from the heavy tier after at most one fast call and exactly one heavy call, only where the fast tier was
  -- chosen; a heavy answer made exactly one heavy call and no fast one; a failure made at most
  -- one call of each, and none of the fast model where the heavy tier was chosen. A failure is the
  -- error of the heavy model's attempt, which is the last thing done, after a failed attempt of the
  -- fast model where that was chosen.
  pub ask-Reported :
      (hint : RouteHint) (h : History)
      → Reported
          (choose s.routing text hint)
          h
          (ask content s text hint h).1
          (ask content s text hint h).0
        × FailedLast
            (choose s.routing text hint)
            h
            (ask content s text hint h).1
            (ask content s text hint h).0
  unfolding ask
  ask-Reported hint h = (
    ask_at-Reported (choose s.routing text hint) h,
    ask_at-FailedLast (choose s.routing text hint) h,
  )
