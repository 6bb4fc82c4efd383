-- ===== src/Daemon/Runtime/Asking.antt =====
-- `run_ask` against the service's `ask`.
use kitt_assistant.Base.{
  refl, ◌≡◌, ◌≢◌, ◌⊎◌, inl, inr, Bool, true, false, some, List, [], ◌∷◌, arith, Text, Result, ok,
  err, codes,
}
use kitt_assistant.Application.{ask}
use kitt_assistant.Daemon.Runtime.{
  error_text, ensure_hud_if, Failure, show_if, History, RoutedAnswer, hud_ensured, AssistantError,
  run_ask, World, asked, answered, hud_sent, Runtime, RouteHint, Effect, HudEvent, HudState, status,
}

-- What a request leaves in the log: one question, and around it what the HUD is told if it shows itself.
abbrev pub Showed : Bool → HudEvent → Text → RouteHint → List Effect → List Effect → Type 0
Showed true last words hint log log' =
    log'
    ≡ hud_sent last
      ∷ asked words hint
      ∷ hud_sent (status HudState.thinking (some (codes "K.I.T.T.")))
      ∷ hud_ensured
      ∷ log
Showed false last words hint log log' = log' ≡ asked words hint ∷ log

module _ {R F : Type 0} (rt : Runtime R F) where
  -- What `run_ask` comes to, given the outcome of the service's `ask`.
  abbrev pub Told :
      Bool
      → Text
      → RouteHint
      → World
      → Result AssistantError RoutedAnswer × History
      → Result Failure RoutedAnswer × World
      → Type 0
  Told show_hud words hint w (ok a, calls) (r, w') =
      (r ≡ ok a)
      × (w'.calls ≡ calls)
      × Showed show_hud (HudEvent.text a.text rt.hud_ttl_ms) words hint w.log w'.log
  Told show_hud words hint w (err e, calls) (r, w') =
      (r ≡ err (codes "assistant_error", error_text e))
      × (w'.calls ≡ calls)
      × Showed show_hud (status HudState.error (some (error_text e))) words hint w.log w'.log

  answered-Told :
      (words : Text) (hint : RouteHint) (show_hud : Bool) (w : World)
      (r : Result AssistantError RoutedAnswer × History)
      → Told show_hud words hint w r (
          answered rt show_hud (
            r.0,
            record w {
              calls = r.1;
              log =
                  asked words hint
                  ∷ (show_if show_hud
                      (status HudState.thinking (some (codes "K.I.T.T.")))
                      (ensure_hud_if show_hud w)).log;
            },
          ))
  unfolding answered
  answered-Told words hint true w (ok a, calls) = (refl, refl, refl)
  answered-Told words hint false w (ok a, calls) = (refl, refl, refl)
  answered-Told words hint true w (err e, calls) = (refl, refl, refl)
  answered-Told words hint false w (err e, calls) = (refl, refl, refl)

  -- A question that is not empty gets the answer of the service's `ask`, or its error under the code
  -- `assistant_error`; the ports see the same calls; and the HUD is told before and after it, or,
  -- without `show_hud`, never. An empty one is refused and does nothing.
  pub run_ask-Told :
      (words : Text) (hint : RouteHint) (show_hud : Bool) (w : World)
      → ((words ≡ [])
          × (run_ask rt words hint show_hud w
              ≡ (err (codes "empty_text", codes "text cannot be empty"), w)))
        ⊎ ((words ≢ [])
            × Told show_hud words hint w
                (ask rt.content rt.service words hint w.calls)
                (run_ask rt words hint show_hud w))
  unfolding run_ask
  run_ask-Told [] hint show_hud w = inl (refl, refl)
  run_ask-Told (c ∷ cs) hint true w = inr (
    ground arith,
    answered-Told (c ∷ cs) hint true w (ask rt.content rt.service (c ∷ cs) hint w.calls),
  )
  run_ask-Told (c ∷ cs) hint false w = inr (
    ground arith,
    answered-Told (c ∷ cs) hint false w (ask rt.content rt.service (c ∷ cs) hint w.calls),
  )
