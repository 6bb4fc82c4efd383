-- ===== src/Domain.antt =====
-- crates/kitt-domain/src/lib.rs: the types that the layers exchange, and the ports through which the
-- service reaches models, memory, transcription and speech. A port's answer may depend on all
-- calls made before it, so each operation of a port takes the history of calls, newest first.
pub mod Routing
use kitt_assistant.Base.{ℕ, Bool, Option, List, Text, String, Result, ok, err, none}

pub data AssistantError : Type 0 where
  model memory transcription speech_output configuration io : String → AssistantError

pub record ModelRequest : Type 0 where
  pub system : Text
  pub user : Text

pub record ModelAnswer : Type 0 where
  pub text : Text

pub data ModelTier : Type 0 where
  fast heavy : ModelTier

pub data RouteHint : Type 0 where
  auto fast heavy : RouteHint

pub record RoutedAnswer : Type 0 where
  pub text : Text
  pub tier : ModelTier
  pub fallback_used : Bool

pub record RoutingPolicy : Type 0 where
  pub fast_max_chars : ℕ
  pub fast_max_lines : ℕ

-- `RoutingPolicy::default`
abbrev pub default_policy : RoutingPolicy
default_policy = record { fast_max_chars = 360; fast_max_lines = 4 }

-- `F` stands for `f32`.
pub record TranscriptionResult (F : Type 0) : Type 0 where
  pub text : Text
  pub language : Option Text
  pub language_probability : Option F
  pub avg_logprob : Option F
  pub duration_ms : ℕ

pub from_text : {F : Type 0} → Text → TranscriptionResult F
from_text t = record {
  text = t;
  language = none;
  language_probability = none;
  avg_logprob = none;
  duration_ms = 0;
}

-- One call of a port. `model_call` names the service's slot that was asked.
pub data Call : Type 0 where
  model_call : ModelTier → ModelRequest → Call
  recall_call : Text → Bool → Call
  episode_call : Text → Call
  explicit_call : Text → Call
  transcribe_call : Text → Option Text → Option Text → Call
  speak_call : Text → Option Text → Call

abbrev pub History : Type 0
History = List Call

pub record ModelPort : Type 0 where
  pub complete : History → ModelRequest → Result AssistantError ModelAnswer
  pub is_local : Bool

pub record TranscriptionPort (F : Type 0) : Type 0 where
  pub transcribe_rich :
      History → Text → Option Text → Option Text → Result AssistantError (TranscriptionResult F)
  pub is_local : Bool

pub record SpeechOutputPort : Type 0 where
  pub speak : History → Text → Option Text → Result AssistantError (Unit {0})

-- `R` stands for `MemoryRecord`, which the memory library defines.
pub record MemoryPort (R : Type 0) : Type 0 where
  pub recall_for_model : History → Text → Bool → Result AssistantError (List R)
  pub remember_episode : History → Text → Result AssistantError (Unit {0})
  pub remember_explicit : History → Text → Result AssistantError Text

-- The default method `TranscriptionPort::transcribe`.
unfoldable pub transcribe_text :
    {F : Type 0} → Result AssistantError (TranscriptionResult F) → Result AssistantError Text
transcribe_text (ok r) = ok r.text
transcribe_text (err e) = err e
