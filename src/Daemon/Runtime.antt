-- ===== src/Daemon/Runtime.antt =====
-- apps/kittd/src/main.rs: what the daemon's parts share, and `run_ask` and `transcribe`, which the
-- dispatcher and the voice pipeline call. An operation takes the daemon's world and returns its
-- result with the world after it. Starting the HUD's window is I/O and leaves one mark.
pub mod Asking
mod Tests
use kitt_assistant.Application
use kitt_assistant.Application.{AssistantService, ask}
use kitt_assistant.Domain.{
  AssistantError, model, memory, transcription, speech_output, configuration, io, RouteHint,
  RoutedAnswer, History,
}
use kitt_assistant.Base.{
  refl, ◌≡◌, ◌≢◌, ◌↔◌, ◌⊎◌, inl, inr, sym, ap, subst, ◌∙◌, Bool, true, false, not, ◌&&◌, ◌||◌,
  Option, none, some, List, [], ◌∷◌, ◌++◌, map, reverse, ℕ, zero, suc, ◌+◌, ◌-◌, ◌*◌, ◌/◌, ◌%◌, ◌^◌,
  ◌≤◌, ◌<◌, min, max, arith, String, Text, ltb, leb, ◌==◌, if◌then◌else◌, Result, ok, err, ◌>>=◌,
  ◌>>◌, refuse_if, ok_or, map_err, length, take, drop, all, any, All, codes, bytes, text_eq,
  text_eq_iff, is_empty, starts_with, Bool-cases, Option-cases, Result-cases, if-of_true,
  if-of_false, and-true, decimal, trim, to_ascii_lowercase, is_blank, join, ok_or-eq-ok, retain,
  strip_prefix, texts_eq, >>=-eq-ok,
}

-- The states and events of the HUD protocol that the code names.
pub data HudState : Type 0 where
  thinking listening error : HudState

pub data HudEvent : Type 0 where
  status : HudState → Option Text → HudEvent
  text : Text → ℕ → HudEvent
  image : Text → Option Text → ℕ → HudEvent

-- What the daemon does to its surroundings, one mark for each call.
pub data Effect : Type 0 where
  hud_ensured : Effect
  hud_sent : HudEvent → Effect
  asked : Text → RouteHint → Effect
  transcribed : Text → Effect
  spoken : Text → Effect
  paused : Bool → Effect
  audio_removed : Text → Effect
  warmup : Effect
  slept : ℕ → Effect

-- `log` has the newest effect first, as `calls` has the newest call of a port.
pub record World : Type 0 where
  pub calls : History
  pub log : List Effect

pub record Runtime (R F : Type 0) : Type 0 where
  pub service : AssistantService R F
  pub content : R → Text
  pub hud_ttl_ms : ℕ

-- `(code, message)`
abbrev pub Failure : Type 0
Failure = Text × Text

-- `AssistantError`'s `Display`
unfoldable pub error_text : AssistantError → Text
error_text (model e) = codes "model: " ++ codes e
error_text (memory e) = codes "memory: " ++ codes e
error_text (transcription e) = codes "transcription: " ++ codes e
error_text (speech_output e) = codes "speech output: " ++ codes e
error_text (configuration e) = codes "configuration: " ++ codes e
error_text (io e) = codes "I/O: " ++ codes e

abbrev pub mark : Effect → World → World
mark e w = record w { log = e ∷ w.log }

-- `ensure_hud` and `hud.send` of a request that shows itself.
abbrev pub show : HudEvent → World → World
show event w = mark (hud_sent event) w

abbrev pub show_if : Bool → HudEvent → World → World
show_if b event w = if b then show event w else w

abbrev pub ensure_hud_if : Bool → World → World
ensure_hud_if b w = if b then mark hud_ensured w else w

-- A call of the service, between its mark and what follows.
abbrev pub serve :
    {A : Type 0}
    → Effect
    → (History → Result AssistantError A × History)
    → World
    → Result AssistantError A × World
serve e m w = let (r, calls) = m w.calls in (r, record w { calls = calls; log = e ∷ w.log })

module _ {R F : Type 0} (rt : Runtime R F) where
  -- `run_ask` from the call of the service on.
  unfoldable pub answered :
      Bool → Result AssistantError RoutedAnswer × World → Result Failure RoutedAnswer × World
  answered show_hud (ok a, w) = (ok a, show_if show_hud (HudEvent.text a.text rt.hud_ttl_ms) w)
  answered show_hud (err e, w) = (
    err (codes "assistant_error", error_text e),
    show_if show_hud (status HudState.error (some (error_text e))) w,
  )

  unfoldable pub run_ask : Text → RouteHint → Bool → World → Result Failure RoutedAnswer × World
  run_ask words hint show_hud w =
      if is_empty words
      then (err (codes "empty_text", codes "text cannot be empty"), w)
      else let shown =
          show_if show_hud (status HudState.thinking (some (codes "K.I.T.T.")))
            (ensure_hud_if show_hud w) in
        answered show_hud (serve (asked words hint) (ask rt.content rt.service words hint) shown)

  -- `transcribe` of the dispatcher.
  unfoldable pub heard : Bool → Result AssistantError Text × World → Result Failure Text × World
  heard show_hud (ok t, w) = (ok t, show_if show_hud (HudEvent.text t rt.hud_ttl_ms) w)
  heard show_hud (err e, w) = (err (codes "transcription_error", error_text e), w)

  unfoldable pub transcribe_request :
      Text → Option Text → Bool → World → Result Failure Text × World
  transcribe_request path locale show_hud w =
      if is_empty (trim path)
      then (err (codes "empty_path", codes "audio path cannot be empty"), w)
      else let shown =
          show_if show_hud (status HudState.listening (some (codes "Transcrevendo…")))
            (ensure_hud_if show_hud w) in
        heard show_hud (
          serve (transcribed (trim path))
            (Application.transcribe rt.content rt.service (trim path) locale none) shown)
