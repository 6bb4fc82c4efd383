-- ===== src/Daemon/Dispatch.antt =====
-- What a client's frame does: `handle_client` and `dispatch` with their replies and the requests for the
-- memory. The envelopes and their encoding are the protocol library's, so they are parameters;
-- the lines that are written to the client are the newest first.
use kitt_assistant.Base.{
  Bool, true, List, [], ◌∷◌, ◌++◌, map, ℕ, min, String, Text, Result, ok, err, map_err, codes, trim,
}
use kitt_assistant.ControlCenter.Json.{Json, object, no_fields}
use kitt_assistant.Memory.{NewMemory, RecallQuery}
use kitt_assistant.Daemon.Conversions.{
  MemoryRecord, MemoryDto, memory_to_dto, protocol_kind_to_core, protocol_sensitivity_to_core,
  protocol_scope_to_core,
}
use kitt_assistant.Daemon.Broadcaster.{Sockets, HudBroadcaster}
use kitt_assistant.Daemon.Protocol.{
  shown, deleted, records, identified, transcript, routed, answered, status, Kind,
  MemoryRecallRequest, MemoryRememberRequest, Answer, Protocol,
}
use kitt_assistant.Daemon.Requests.{ImageFile, ask_request, ask_routed, show_image}
use kitt_assistant.Daemon.Runtime.{Runtime, World, Failure, transcribe_request, error_text}
use kitt_assistant.Application.{remember}

-- A call of the memory's store by a request.
pub data StoreCall : Type 0 where
  recalled : RecallQuery → StoreCall
  remembered : NewMemory → StoreCall
  forgotten : Text → StoreCall

-- `store_calls` and `written` have the newest first.
pub record Server (S : Type 0) : Type 0 where
  pub world : World
  pub store_calls : List StoreCall
  pub hud : HudBroadcaster S
  pub written : List Text

-- The store answers from its calls before.
pub record Store : Type 0 where
  pub recall : List StoreCall → RecallQuery → Result String (List MemoryRecord)
  pub remember : List StoreCall → NewMemory → Result String MemoryRecord
  pub forget : List StoreCall → Text → Result String Bool

unfoldable pub recall_query : MemoryRecallRequest → RecallQuery
recall_query request = record {
  namespace = request.namespace;
  workspace_id = request.workspace_id;
  scope_key = request.scope_key;
  text = request.query;
  limit = min request.limit 50;
  as_of = request.as_of;
  allow_private = request.allow_private;
  allow_secret = request.allow_secret;
}

unfoldable pub new_memory : MemoryRememberRequest → NewMemory
unfolding protocol_kind_to_core protocol_sensitivity_to_core protocol_scope_to_core
new_memory request = record {
  namespace = request.namespace;
  workspace_id = request.workspace_id;
  kind = protocol_kind_to_core request.kind;
  content = request.content;
  sensitivity = protocol_sensitivity_to_core request.sensitivity;
  scope = protocol_scope_to_core request.scope;
  scope_key = request.scope_key;
  importance = request.importance;
  confidence = request.confidence;
  pinned = request.pinned;
  ttl_seconds = request.ttl_seconds;
  metadata_json = codes "{}";
}

unfoldable pub ensure_empty_payload : Json → Result Failure (Unit {0})
ensure_empty_payload (object no_fields) = ok tt
ensure_empty_payload _ = err (codes "invalid_payload", codes "expected empty object payload")

-- What the daemon is built from.
pub record Daemon (R F E S : Type 0) : Type 0 where
  pub runtime : Runtime R F
  pub store : Store
  pub protocol : Protocol E
  pub sockets : Sockets S
  pub token : Text
  pub base64 : List ℕ → Text
  pub images : Text → ImageFile

abbrev memory_error : String → Failure
memory_error e = (codes "memory_error", codes e)

abbrev with_world :
    {A S : Type 0} → Server S → Result Failure A × World → Result Failure A × Server S
with_world s (r, w) = (r, record s { world = w })

abbrev map_answer : {A B : Type 0} → (A → B) → Result Failure A → Result Failure B
map_answer f (ok a) = ok (f a)
map_answer f (err e) = err e

module _ {R F E S : Type 0} (d : Daemon R F E S) where
  open d use {runtime, store, protocol, sockets}

  unfoldable pub memory_recall :
      MemoryRecallRequest → Server S → Result Failure (List MemoryDto) × Server S
  unfolding memory_to_dto
  memory_recall request s =
      let query = recall_query request in
      (
        map_answer (map memory_to_dto) (map_err memory_error (store.recall s.store_calls query)),
        record s { store_calls = recalled query ∷ s.store_calls },
      )

  unfoldable pub memory_remember : MemoryRememberRequest → Server S → Result Failure Text × Server S
  memory_remember request s =
      let memory = new_memory request in
      (
        map_answer (λ row. row.id) (map_err memory_error (store.remember s.store_calls memory)),
        record s { store_calls = remembered memory ∷ s.store_calls },
      )

  -- A handler on the payload that it can read.
  abbrev pub on_payload :
      {P : Type 0}
      → Result Text P
      → (P → Server S → Result Failure Answer × Server S)
      → Server S
      → Result Failure Answer × Server S
  on_payload (err e) handler s = (err (codes "invalid_payload", e), s)
  on_payload (ok payload) handler s = handler payload s

  abbrev answer_with :
      {A : Type 0} → (A → Answer) → Result Failure A × Server S → Result Failure Answer × Server S
  answer_with f (r, s) = (map_answer f r, s)

  -- The arms of `dispatch` but for the subscription, up to the answer.
  unfoldable pub answer_request : Kind → Json → Server S → Result Failure Answer × Server S
  unfolding ask_request ask_routed transcribe_request show_image
  answer_request Kind.system_ping_request payload s =
      (map_answer (λ u. status (codes "ok")) (ensure_empty_payload payload), s)
  answer_request Kind.assistant_ask_request payload s =
      on_payload (protocol.as_ask payload)
        (λ p s. answer_with answered (with_world s (ask_request runtime p.text p.show_hud s.world)))
        s
  answer_request Kind.assistant_ask_routed_request payload s =
      on_payload (protocol.as_ask_routed payload)
        (λ p s.
          answer_with routed (with_world s (ask_routed runtime p.text p.route p.show_hud s.world)))
        s
  answer_request Kind.assistant_transcribe_request payload s =
      on_payload (protocol.as_transcribe payload)
        (λ p s.
          answer_with transcript
            (with_world s (transcribe_request runtime p.path p.locale p.show_hud s.world)))
        s
  answer_request Kind.assistant_remember_request payload s =
      on_payload (protocol.as_assistant_remember payload)
        (λ text s.
          let (r, calls) = remember runtime.content runtime.service (trim text) s.world.calls in
          (
            map_answer identified (map_err (λ e. (codes "assistant_error", error_text e)) r),
            record s { world = record s.world { calls = calls } },
          ))
        s
  answer_request Kind.memory_remember_request payload s =
      on_payload (protocol.as_memory_remember payload)
        (λ p s. answer_with identified (memory_remember p s)) s
  answer_request Kind.memory_recall_request payload s =
      on_payload (protocol.as_memory_recall payload)
        (λ p s. answer_with records (memory_recall p s)) s
  answer_request Kind.memory_forget_request payload s =
      on_payload (protocol.as_memory_forget payload)
        (λ id s. (
          map_answer deleted (map_err memory_error (store.forget s.store_calls id)),
          record s { store_calls = forgotten id ∷ s.store_calls },
        ))
        s
  answer_request Kind.hud_image_request payload s =
      on_payload (protocol.as_hud_image payload)
        (λ p s.
          answer_with (λ u. shown true)
            (with_world s (show_image runtime d.base64 d.images p.src p.alt s.world)))
        s
  answer_request Kind.hud_subscribe_request payload s = (err (codes "unknown_kind", []), s)
  answer_request (Kind.unknown kind) payload s =
      (err (codes "unknown_kind", codes "unknown envelope kind: " ++ kind), s)
