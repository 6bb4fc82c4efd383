-- ===== src/Voice/Pipeline.antt =====
-- apps/kittd/src/voice.rs, `pipeline_loop`: what the voice runtime does with an utterance, up to its
-- command. The clock is the worker's; each call of a service and each question to the worker
-- advances it. The warm-up thread leaves one mark and runs apart.
pub mod Commands
pub mod Loop
pub mod Invariant
pub mod Rounds
pub mod Guards
pub mod Questions
pub mod Workers
pub mod Settling
mod Tests
use kitt_assistant.ControlCenter.Json.{unwrap_or}
use kitt_assistant.Voice.Stt.{stop_owned_stt_worker, Machine, Worker}
use kitt_assistant.Daemon.Runtime.{
  serve, hud_ensured, Effect, error_text, transcribed, hud_sent, World, mark, HudState, HudEvent,
  Runtime, status,
}
use kitt_assistant.Voice.Config.{VoiceConfig, ActivationMode}
use kitt_assistant.Voice.Tracker.{
  record_transcript, inc_stt_restarts, set_state, VoiceState, set_error, VoiceRuntimeTracker,
}
use kitt_assistant.Base.{
  refl, ◌≡◌, ◌≢◌, ◌↔◌, ◌⊎◌, inl, inr, sym, ap, subst, ◌∙◌, Bool, true, false, not, ◌&&◌, ◌||◌,
  Option, none, some, List, [], ◌∷◌, ◌++◌, map, reverse, ℕ, zero, suc, ◌+◌, ◌-◌, ◌*◌, ◌/◌, ◌%◌, ◌^◌,
  ◌≤◌, ◌<◌, min, max, arith, String, Text, ltb, leb, ◌==◌, if◌then◌else◌, Result, ok, err,
  refuse_if, ok_or, map_err, length, take, drop, all, any, All, codes, bytes, text_eq, text_eq_iff,
  is_empty, starts_with, Bool-cases, Option-cases, Result-cases, if-of_true, if-of_false, and-true,
  decimal, trim, to_ascii_lowercase, is_blank, join, ok_or-eq-ok, retain, strip_prefix, texts_eq,
}
use kitt_assistant.Voice.Stt
use kitt_assistant.Voice.Stt.Polling.{ensure_local_stt_ready}
use kitt_assistant.Application
use kitt_assistant.Domain.{AssistantError, TranscriptionResult, History}
use kitt_assistant.Voice.Wake.{WakePhraseMatcher, strip_wake, new_matcher}

pub data LocalInstantCommand : Type 0 where
  cancel voice_status repeat no_command : LocalInstantCommand

-- `detect_instant_command`
unfoldable pub detect_instant_command : Text → LocalInstantCommand
detect_instant_command words =
    let lower = map to_ascii_lowercase (trim words) in
    let cancels =
      map codes
        ("pare" ∷ "parar" ∷ "cancelar" ∷ "cancele" ∷ "silêncio" ∷ "silencio" ∷ "stop" ∷ []) in
    let asks_status =
      map codes ("status da voz" ∷ "status voz" ∷ "status do sistema" ∷ "status" ∷ []) in
    let repeats =
      map codes ("repita" ∷ "repita a resposta" ∷ "o que você disse" ∷ "repetir" ∷ []) in
    if any (text_eq lower) cancels
    then cancel
    else if any (text_eq lower) asks_status
    then voice_status
    else if any (text_eq lower) repeats
    then repeat
    else no_command

-- `mode_name`
unfoldable pub mode_name : ActivationMode → Text
mode_name ActivationMode.auto = codes "auto"
mode_name ActivationMode.wakeword = codes "wakeword"
mode_name ActivationMode.transcript_prefix = codes "transcript_prefix"
mode_name ActivationMode.degraded = codes "degraded"

-- The loop's variables, and what it shares with the rest of the daemon.
pub record Pipeline : Type 0 where
  pub awaiting : Option ℕ
  pub tracker : VoiceRuntimeTracker
  pub worker : Worker
  pub world : World

-- A part of a round: `none` is `continue`.
abbrev pub Step : Type 0 → Type 0
Step A = Pipeline → Option A × Pipeline

abbrev pub go_on : {A B : Type 0} → (A → Step B) → Option A × Pipeline → Option B × Pipeline
go_on f (some a, p) = f a p
go_on f (none, p) = (none, p)

infixl 5 ◌>>=◌ ◌>>◌
abbrev pub ◌>>=◌ : {A B : Type 0} → Step A → (A → Step B) → Step B
◌>>=◌ s f p = go_on f (s p)

abbrev pub ◌>>◌ : {A B : Type 0} → Step A → Step B → Step B
s >> k = s >>= λ _. k

abbrev pub at : VoiceState → Pipeline → Pipeline
at state p = record p { tracker = set_state p.tracker state p.worker.now }

abbrev pub note_error : Text → Pipeline → Pipeline
note_error e p = record p { tracker = set_error p.tracker (some e) }

-- What `ensure_hud` and one `hud.send` leave.
abbrev pub on_hud : HudEvent → Pipeline → Pipeline
on_hud event p = record p { world = mark (hud_sent event) (mark hud_ensured p.world) }

unfoldable pub show_voice_error : Text → Pipeline → Pipeline
show_voice_error message = on_hud (HudEvent.text (codes "KITT Voice: " ++ message) 10000)

-- `show_listening`
unfoldable pub show_listening : ℕ → Pipeline → Pipeline
show_listening ttl_ms p =
    let p' = on_hud (status HudState.listening (some (codes "Ouvindo…"))) p in
    record p' { world = mark (hud_sent (HudEvent.text (codes "Ouvindo…") ttl_ms)) p'.world }

-- `as_millis() as u64`
abbrev pub elapsed : Pipeline → Pipeline → ℕ
elapsed before after = (after.worker.now - before.worker.now) % 2 ^ 64

-- The state of a restart: an error that the speech-to-text worker is blamed for.
abbrev pub recovering_from : Text → Pipeline → Pipeline
recovering_from e p =
    let p' = at VoiceState.recovering p in
    note_error e (record p' { tracker = inc_stt_restarts p'.tracker })

module _ {R F : Type 0} (rt : Runtime R F) (m : Machine) (base_url : Text)
    (config : VoiceConfig F) where
  -- A call of the service takes some time.
  abbrev pub serving :
      {A : Type 0}
      → Effect
      → (History → Result AssistantError A × History)
      → Pipeline
      → Result AssistantError A × Pipeline
  serving e f p =
      let (r, world) = serve e f p.world in
      (r, record p { world = world; worker = Stt.asked m p.worker })

  -- `none` is never met: waiting for the worker ends.
  unfoldable pub stt_checked : Option (Result Text (Unit {0})) → Step (Unit {0})
  stt_checked none p = (none, p)
  stt_checked (some (ok _)) p = (some tt, p)
  stt_checked (some (err e)) p = (
    none,
    at VoiceState.idle (
        show_voice_error (codes "STT local indisponível: " ++ e)
          (recovering_from (codes "stt startup: " ++ e) p)),
  )

  unfoldable pub ready_stt : Step (Unit {0})
  ready_stt p =
      let warming = at VoiceState.stt_warming p in
      if Application.transcriber_is_local rt.content rt.service
      then (let (r, w) = ensure_local_stt_ready m base_url config warming.worker in
          stt_checked r (record warming { worker = w }))
      else (some tt, warming)

  -- `match transcription_res`, and the test for an empty transcript.
  unfoldable pub transcript_heard :
      ℕ → Result AssistantError (TranscriptionResult F) → Step (Text × ℕ)
  transcript_heard t_duration (err e) p =
      let blamed = recovering_from (codes "transcription: " ++ error_text e) p in
      let stopped = record blamed { worker = stop_owned_stt_worker blamed.worker } in
      (
        none,
        at VoiceState.idle
            (show_voice_error (codes "Reconhecimento reiniciado: " ++ error_text e) stopped),
      )
  transcript_heard t_duration (ok res) p =
      if is_empty (trim res.text)
      then (none, at VoiceState.idle p)
      else (some (trim res.text, t_duration), p)

  -- The transcript, and the time that it took.
  unfoldable pub transcribe_utterance : Text → Option Text → Step (Text × ℕ)
  transcribe_utterance path prompt p =
      let before = at VoiceState.transcribing p in
      let (r, after) =
        serving (transcribed path)
          (Application.transcribe_rich rt.content rt.service path (some config.locale) prompt)
          before in
      let t_duration = elapsed before after in
      transcript_heard t_duration r
        (record after { tracker = record_transcript after.tracker t_duration })

module _ (alphanumeric : ℕ → Bool) (matcher : WakePhraseMatcher) where
  -- `match mode`: the command of a transcript that is addressed to the assistant.
  unfoldable pub addressed : ActivationMode → Bool → Text → Option Text
  addressed ActivationMode.wakeword was_waiting transcript =
      if was_waiting
      then some (unwrap_or transcript (strip_wake alphanumeric matcher transcript))
      else none
  addressed ActivationMode.degraded was_waiting transcript = none
  addressed _ was_waiting transcript =
      if was_waiting then some transcript else strip_wake alphanumeric matcher transcript

  -- The state that a transcript leaves which is not.
  abbrev pub unaddressed_state : ActivationMode → VoiceState
  unaddressed_state ActivationMode.degraded = VoiceState.degraded
  unaddressed_state _ = VoiceState.idle

  unfoldable pub command_of : ActivationMode → Bool → Text → Step Text
  command_of mode was_waiting transcript p = elim (addressed mode was_waiting transcript) [
    | some command ↦ (some command, p)
    | none ↦ (none, at (unaddressed_state mode) p)
  ]
