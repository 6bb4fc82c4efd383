-- ===== src/Daemon/Protocol.antt =====
-- What the dispatcher of apps/kittd/src/main.rs uses of the protocol library: the requests, with the
-- fields that it reads, the payloads of its answers, and the library's encoding.
use kitt_assistant.Base.{Bool, Option, List, ℕ, Text, Result}
use kitt_assistant.ControlCenter.Json.{Json}
use kitt_assistant.Daemon.Conversions.{MemoryDto, ProtocolKind, ProtocolSensitivity, ProtocolScope}
use kitt_assistant.Daemon.Requests.{ModelRoute, RoutedAskResponse}

-- The kinds of request, which the protocol's texts tell apart.
pub data Kind : Type 0 where
  system_ping_request assistant_ask_request assistant_ask_routed_request : Kind
  assistant_transcribe_request assistant_remember_request memory_remember_request : Kind
  memory_recall_request memory_forget_request hud_image_request hud_subscribe_request : Kind
  unknown : Text → Kind

pub record Envelope : Type 0 where
  pub id : Text
  pub kind : Kind
  pub correlation_id : Option Text
  pub payload : Json

pub record AuthenticatedFrame : Type 0 where
  pub token : Text
  pub envelope : Envelope

pub record AskRequest : Type 0 where
  pub text : Text
  pub show_hud : Bool

pub record RoutedAskRequest : Type 0 where
  pub text : Text
  pub route : ModelRoute
  pub show_hud : Bool

pub record TranscribeRequest : Type 0 where
  pub path : Text
  pub locale : Option Text
  pub show_hud : Bool

pub record HudImageRequest : Type 0 where
  pub src : Text
  pub alt : Option Text

pub record MemoryRecallRequest : Type 0 where
  pub namespace : Text
  pub workspace_id : Text
  pub scope_key : Option Text
  pub query : Text
  pub limit : ℕ
  pub as_of : Option Text
  pub allow_private : Bool
  pub allow_secret : Bool

-- `importance` and `confidence` in hundredths.
pub record MemoryRememberRequest : Type 0 where
  pub namespace : Text
  pub workspace_id : Text
  pub kind : ProtocolKind
  pub content : Text
  pub sensitivity : ProtocolSensitivity
  pub scope : ProtocolScope
  pub scope_key : Option Text
  pub importance : ℕ
  pub confidence : ℕ
  pub pinned : Bool
  pub ttl_seconds : Option ℕ

-- The payload of a response.
pub data Answer : Type 0 where
  status answered transcript identified : Text → Answer
  routed : RoutedAskResponse → Answer
  records : List MemoryDto → Answer
  deleted shown : Bool → Answer

-- The library: a response's kind is that of its request. `E` stands for its envelopes of replies. A decoder of
-- a payload is `serde_json::from_value`.
pub record Protocol (E : Type 0) : Type 0 where
  pub max_frame_bytes : ℕ
  pub decode : List ℕ → Result Text AuthenticatedFrame
  pub response : Kind → Text → Answer → Result Text E
  pub error : Option Text → Text → Text → E
  pub validate : E → Result Text (Unit {0})
  pub to_string : E → Result Text Text
  pub subscribed : Text → Result Text Text
  pub as_ask : Json → Result Text AskRequest
  pub as_ask_routed : Json → Result Text RoutedAskRequest
  pub as_transcribe : Json → Result Text TranscribeRequest
  pub as_assistant_remember : Json → Result Text Text
  pub as_memory_remember : Json → Result Text MemoryRememberRequest
  pub as_memory_recall : Json → Result Text MemoryRecallRequest
  pub as_memory_forget : Json → Result Text Text
  pub as_hud_image : Json → Result Text HudImageRequest
