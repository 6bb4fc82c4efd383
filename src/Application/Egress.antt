-- ===== src/Application/Egress.antt =====
-- Which memories reach a model: only those that the egress policy allows for that model.
use kitt_assistant.Base.{◌≡◌, refl, true, List, Text, map, arith, All, Result-cases, inl, inr}
use kitt_assistant.Domain.{ModelTier, RouteHint, History, Call, model_call}
use kitt_assistant.Domain.Routing.{choose}
use kitt_assistant.Memory.{AssistantMemory, is_allowed, recall_for_model, memory_port}
use kitt_assistant.Memory.Laws.{recall_for_model-All_allowed}
use kitt_assistant.Application.{
  AssistantService, model_at, system_prompt, complete_from, complete_with, ask_at, ask,
}

module _ {R F : Type 0} (m : AssistantMemory R) (base : AssistantService R F) where
  -- The service as `main` builds it: with the memory adapter as its memory port.
  abbrev pub service : AssistantService R F
  service = record base { memory = memory_port m }

  -- A request that a model was sent carries only memories that are allowed for that model.
  abbrev pub IsCleared : Call → Type 0
  IsCleared (model_call slot request) =
      (rows : List R) × (request.system ≡ system_prompt (map m.store.content rows))
      × All (λ r. is_allowed m (model_at m.store.content service slot).is_local r ≡ true) rows
  IsCleared _ = Unit

  complete_from-All-IsCleared :
      (slot : ModelTier) (text : Text) (rows : List R) (h : History)
      → All (λ r. is_allowed m (model_at m.store.content service slot).is_local r ≡ true) rows
      → All IsCleared h
      → All IsCleared (complete_from m.store.content service slot text rows h).1
  unfolding complete_from
  complete_from-All-IsCleared slot text rows h allowed cleared =
      elim (Result-cases (
        (model_at m.store.content service slot).complete h
          (record { system = system_prompt (map m.store.content rows); user = text }))) [
            | inl (a, e) ↦ rw (e, All, complete_from) (tt, ((rows, refl, allowed), cleared))
            | inr (x, e) ↦ rw (e, All, complete_from) ((rows, refl, allowed), cleared)
          ]

  complete_with-All-IsCleared :
      (slot : ModelTier) (text : Text) (h : History)
      → All IsCleared h
      → All IsCleared (complete_with m.store.content service slot text h).1
  unfolding complete_with
  complete_with-All-IsCleared slot text h cleared =
      elim (Result-cases
        (recall_for_model m h text (model_at m.store.content service slot).is_local)) [
          | inl (rows, e) ↦
              rw (e, All, complete_with)
                (complete_from-All-IsCleared slot text rows _
                  (recall_for_model-All_allowed m h text _ rows e) (tt, cleared))
          | inr (x, e) ↦ rw (e, All, complete_with) (tt, cleared)
        ]

  ask_at-All-IsCleared :
      (tier : ModelTier) (text : Text) (h : History)
      → All IsCleared h
      → All IsCleared (ask_at m.store.content service tier text h).1
  unfolding ask_at
  ask_at-All-IsCleared ModelTier.fast text h cleared =
      let after_fast = complete_with-All-IsCleared ModelTier.fast text h cleared in
      ground (arith, after_fast, complete_with-All-IsCleared ModelTier.heavy text _ after_fast)
  ask_at-All-IsCleared ModelTier.heavy text h cleared =
      ground (arith, complete_with-All-IsCleared ModelTier.heavy text h cleared)

  -- From a history in which every model request is cleared, `ask` makes only cleared requests: each is
  -- built from records that the policy allows for a provider as local as the model that is asked,
  -- on the fast attempt and on the fallback alike.
  pub ask-All-IsCleared :
      (text : Text) (hint : RouteHint) (h : History)
      → All IsCleared h
      → All IsCleared (ask m.store.content service text hint h).1
  unfolding ask
  ask-All-IsCleared text hint h cleared =
      ask_at-All-IsCleared (choose base.routing text hint) text h cleared
