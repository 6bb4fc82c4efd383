-- ===== src/Daemon/Serving/Tests.antt =====
-- A client that asks for a thousand memories, and the properties of serving it.
use kitt_assistant.Daemon.Access.{bitwise, differences, secure_eq}
use kitt_assistant.Base.{
  refl, ◌≡◌, ◌⊎◌, true, false, Option, none, some, List, [], ◌∷◌, ℕ, Text, ok, err, codes, bytes,
}
use kitt_assistant.ControlCenter.Json.{null}
use kitt_assistant.Daemon.Serving.{
  reply, reply_response, answer_done, dispatch_kind, dispatch, serve_request, serve_frame,
  handle_client,
}
use kitt_assistant.Daemon.Serving.Replies.{Answers, handle_client-Answers}
use kitt_assistant.Daemon.Serving.Guards.{IsAdmitted, Untouched, handle_client-IsAdmitted}
use kitt_assistant.Daemon.Dispatch.{
  memory_recall, answer_request, Daemon, Server, Store, recalled, recall_query,
}
use kitt_assistant.Daemon.Protocol.{Kind, MemoryRecallRequest, Protocol, AuthenticatedFrame}
use kitt_assistant.Daemon.Broadcaster.{new_broadcaster}
use kitt_assistant.Application.{AssistantService}
use kitt_assistant.Domain.{default_policy, AssistantError, from_text}

abbrev service : AssistantService Text (Unit {0})
service = record {
  fast_model = record { complete = λ h r. err (AssistantError.model "offline"); is_local = true };
  heavy_model = record { complete = λ h r. err (AssistantError.model "offline"); is_local = true };
  transcriber = record {
    transcribe_rich = λ h p l q. ok (from_text (codes "bom dia"));
    is_local = true;
  };
  speaker = record { speak = λ h t l. ok tt };
  memory = record {
    recall_for_model = λ h q b. ok [];
    remember_episode = λ h t. ok tt;
    remember_explicit = λ h t. ok t;
  };
  routing = default_policy;
}

abbrev store : Store
store = record {
  recall = λ calls q. ok [];
  remember = λ calls n. err "read only";
  forget = λ calls id. ok false;
}

abbrev frame : AuthenticatedFrame
frame = record {
  token = codes "secret";
  envelope = record {
    id = codes "1";
    kind = Kind.memory_recall_request;
    correlation_id = none;
    payload = null;
  };
}

abbrev thousand : MemoryRecallRequest
thousand = record {
  namespace = codes "assistant";
  workspace_id = codes "global";
  scope_key = none;
  query = codes "tea";
  limit = 1000;
  as_of = none;
  allow_private = false;
  allow_secret = false;
}

-- An envelope is its line; only the recall's payload can be read.
abbrev protocol : Protocol Text
protocol = record {
  max_frame_bytes = 100;
  decode = λ content. ok frame;
  response = λ kind id answer. ok (codes "done");
  error = λ id code message. code;
  validate = λ envelope. ok tt;
  to_string = λ envelope. ok envelope;
  subscribed = λ id. ok id;
  as_ask = λ v. err [];
  as_ask_routed = λ v. err [];
  as_transcribe = λ v. err [];
  as_assistant_remember = λ v. err [];
  as_memory_remember = λ v. err [];
  as_memory_recall = λ v. ok thousand;
  as_memory_forget = λ v. err [];
  as_hud_image = λ v. err [];
}

abbrev daemon : Daemon Text (Unit {0}) Text ℕ
daemon = record {
  runtime = record { service = service; content = λ r. r; hud_ttl_ms = 8000 };
  store = store;
  protocol = protocol;
  sockets = record { can_clone = λ s. true; write_all = λ s line. true };
  token = codes "secret";
  base64 = λ content. [];
  images = λ path. record { metadata = err []; extension = none; read = err [] };
}

abbrev fresh : Server ℕ
fresh = record {
  world = record { calls = []; log = [] };
  store_calls = [];
  hud = new_broadcaster;
  written = [];
}

abbrev request_line : Option (List ℕ)
request_line = some (b'{' ∷ b'}' ∷ b'\n' ∷ [])

answered_once :
    ((handle_client daemon 1 request_line fresh).written ≡ codes "done" ∷ [])
    × ((handle_client daemon 1 request_line fresh).store_calls
        ≡ recalled (recall_query thousand) ∷ [])
unfolding handle_client serve_frame secure_eq bytes differences bitwise serve_request dispatch
    dispatch_kind answer_done answer_request memory_recall reply_response reply
answered_once = (refl, refl)

handle_client-Answers_example : Answers daemon 1 fresh (handle_client daemon 1 request_line fresh)
handle_client-Answers_example = handle_client-Answers daemon 1 request_line fresh tt

handle_client-IsAdmitted_example :
    IsAdmitted daemon 1 request_line
    ⊎ Untouched daemon 1 fresh (handle_client daemon 1 request_line fresh)
handle_client-IsAdmitted_example = handle_client-IsAdmitted daemon 1 request_line fresh
