-- ===== src/Daemon/Serving/Kept.antt =====
-- What the arms of `dispatch` keep of the server.
use kitt_assistant.Base.{refl, ◌≡◌, inl, inr, ◌≤◌, arith, All, Result-cases}
use kitt_assistant.ControlCenter.Json.{Json}
use kitt_assistant.Daemon.Dispatch.{
  Daemon, Server, answer_request, recall_query, memory_recall, memory_remember, StoreCall, recalled,
}
use kitt_assistant.Daemon.Protocol.{MemoryRecallRequest, Kind}

-- A recall asks for at most fifty memories.
abbrev pub IsModest : StoreCall → Type 0
IsModest (recalled query) = query.limit ≤ 50
IsModest _ = Unit

-- What a request's arm keeps of the server.
abbrev pub Keeps : {S : Type 0} → Server S → Server S → Type 0
Keeps s s' = (s'.written ≡ s.written) × (All IsModest s.store_calls → All IsModest s'.store_calls)

module _ {R F E S : Type 0} (d : Daemon R F E S) where
  limit-le : (request : MemoryRecallRequest) → (recall_query request).limit ≤ 50
  unfolding recall_query
  limit-le request = omega arith

  pub answer_request-Keeps :
      (kind : Kind) (payload : Json) (s : Server S) → Keeps s (answer_request d kind payload s).1
  unfolding answer_request memory_recall memory_remember
  answer_request-Keeps Kind.system_ping_request payload s = (refl, λ m. m)
  answer_request-Keeps Kind.assistant_ask_request payload s =
      elim (Result-cases (d.protocol.as_ask payload)) [
        | inl (p, e) ↦ rw (e, answer_request) (refl, λ m. m)
        | inr (x, e) ↦ rw (e, answer_request) (refl, λ m. m)
      ]
  answer_request-Keeps Kind.assistant_ask_routed_request payload s =
      elim (Result-cases (d.protocol.as_ask_routed payload)) [
        | inl (p, e) ↦ rw (e, answer_request) (refl, λ m. m)
        | inr (x, e) ↦ rw (e, answer_request) (refl, λ m. m)
      ]
  answer_request-Keeps Kind.assistant_transcribe_request payload s =
      elim (Result-cases (d.protocol.as_transcribe payload)) [
        | inl (p, e) ↦ rw (e, answer_request) (refl, λ m. m)
        | inr (x, e) ↦ rw (e, answer_request) (refl, λ m. m)
      ]
  answer_request-Keeps Kind.assistant_remember_request payload s =
      elim (Result-cases (d.protocol.as_assistant_remember payload)) [
        | inl (p, e) ↦ rw (e, answer_request) (refl, λ m. m)
        | inr (x, e) ↦ rw (e, answer_request) (refl, λ m. m)
      ]
  answer_request-Keeps Kind.memory_remember_request payload s =
      elim (Result-cases (d.protocol.as_memory_remember payload)) [
        | inl (p, e) ↦ rw (e, answer_request) (refl, λ m. (tt, m))
        | inr (x, e) ↦ rw (e, answer_request) (refl, λ m. m)
      ]
  answer_request-Keeps Kind.memory_recall_request payload s =
      elim (Result-cases (d.protocol.as_memory_recall payload)) [
        | inl (p, e) ↦ rw (e, answer_request) (refl, λ m. (limit-le p, m))
        | inr (x, e) ↦ rw (e, answer_request) (refl, λ m. m)
      ]
  answer_request-Keeps Kind.memory_forget_request payload s =
      elim (Result-cases (d.protocol.as_memory_forget payload)) [
        | inl (p, e) ↦ rw (e, answer_request) (refl, λ m. (tt, m))
        | inr (x, e) ↦ rw (e, answer_request) (refl, λ m. m)
      ]
  answer_request-Keeps Kind.hud_image_request payload s =
      elim (Result-cases (d.protocol.as_hud_image payload)) [
        | inl (p, e) ↦ rw (e, answer_request) (refl, λ m. m)
        | inr (x, e) ↦ rw (e, answer_request) (refl, λ m. m)
      ]
  answer_request-Keeps Kind.hud_subscribe_request payload s = (refl, λ m. m)
  answer_request-Keeps (Kind.unknown kind) payload s = (refl, λ m. m)
