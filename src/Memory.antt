-- ===== src/Memory.antt =====
-- crates/kitt-infrastructure/src/lib.rs, `AssistantMemory`: the memory port over the memory library.
-- The store and the egress policy's decision are that library's, so they are parameters.
pub mod Laws
use kitt_assistant.Base.{
  ℕ, ◌*◌, Bool, true, false, Option, none, some, List, Text, String, Result, ok, err, map_err,
  ◌>>=◌, codes, retain,
}
use kitt_assistant.Domain.{AssistantError, History, MemoryPort}

pub data Sensitivity : Type 0 where
  public personal private secret ephemeral : Sensitivity

pub data MemoryKind : Type 0 where
  user_preference project_rule architecture_decision technical_fact working_pattern : MemoryKind
  failed_approach open_issue project_state episodic personal_fact routine : MemoryKind

pub data MemoryScope : Type 0 where
  global workspace conversation : MemoryScope

pub record EgressPolicy : Type 0 where
  pub is_local_provider : Bool
  pub allow_personal_remote : Bool

pub record RecallQuery : Type 0 where
  pub namespace : Text
  pub workspace_id : Text
  pub scope_key : Option Text
  pub text : Text
  pub limit : ℕ
  pub as_of : Option Text
  pub allow_private : Bool
  pub allow_secret : Bool

-- `importance` and `confidence` in hundredths.
pub record NewMemory : Type 0 where
  pub namespace : Text
  pub workspace_id : Text
  pub kind : MemoryKind
  pub content : Text
  pub sensitivity : Sensitivity
  pub scope : MemoryScope
  pub scope_key : Option Text
  pub importance : ℕ
  pub confidence : ℕ
  pub pinned : Bool
  pub ttl_seconds : Option ℕ
  pub metadata_json : Text

-- What the code uses of the memory library: its store, over records `R`, and the policy's answer.
pub record MemoryStore (R : Type 0) : Type 0 where
  pub recall : History → RecallQuery → Result String (List R)
  pub remember : History → NewMemory → Result String R
  pub id : R → Text
  pub content : R → Text
  pub sensitivity : R → Sensitivity
  pub allows : EgressPolicy → Sensitivity → Bool

pub record AssistantMemory (R : Type 0) : Type 0 where
  pub store : MemoryStore R
  pub workspace_id : Text
  pub allow_personal_remote : Bool

module _ {R : Type 0} (m : AssistantMemory R) where
  pub policy : Bool → EgressPolicy
  policy is_local_provider = record {
    is_local_provider = is_local_provider;
    allow_personal_remote = m.allow_personal_remote;
  }

  -- The policy lets this record reach a provider that is local, or is not.
  pub is_allowed : Bool → R → Bool
  is_allowed is_local r = m.store.allows (policy is_local) (m.store.sensitivity r)

  pub recall_query : Text → Bool → RecallQuery
  recall_query text is_local_provider = record {
    namespace = codes "assistant";
    workspace_id = m.workspace_id;
    scope_key = none;
    text = text;
    limit = 6;
    as_of = none;
    allow_private = is_local_provider;
    allow_secret = is_local_provider;
  }

  unfoldable pub recall_for_model : History → Text → Bool → Result AssistantError (List R)
  unfolding is_allowed policy recall_query
  recall_for_model h query is_local_provider = do
    rows ← map_err AssistantError.memory (m.store.recall h (recall_query query is_local_provider))
    ok (retain (is_allowed is_local_provider) rows)

  pub episode : Text → NewMemory
  episode text = record {
    namespace = codes "assistant";
    workspace_id = m.workspace_id;
    kind = MemoryKind.episodic;
    content = text;
    sensitivity = Sensitivity.private;
    scope = MemoryScope.global;
    scope_key = none;
    importance = 25;
    confidence = 100;
    pinned = false;
    ttl_seconds = some (30 * 24 * 3600);
    metadata_json = codes "{\"source\":\"assistant_session\"}";
  }

  unfoldable pub remember_episode : History → Text → Result AssistantError (Unit {0})
  unfolding episode
  remember_episode h text = do
    _ ← map_err AssistantError.memory (m.store.remember h (episode text))
    ok tt

  pub explicit_memory : Text → NewMemory
  explicit_memory text = record {
    namespace = codes "assistant";
    workspace_id = m.workspace_id;
    kind = MemoryKind.personal_fact;
    content = text;
    sensitivity = Sensitivity.private;
    scope = MemoryScope.global;
    scope_key = none;
    importance = 80;
    confidence = 100;
    pinned = true;
    ttl_seconds = none;
    metadata_json = codes "{\"source\":\"explicit_remember\"}";
  }

  unfoldable pub remember_explicit : History → Text → Result AssistantError Text
  unfolding explicit_memory
  remember_explicit h text = do
    memory ← map_err AssistantError.memory (m.store.remember h (explicit_memory text))
    ok (m.store.id memory)

  -- `impl MemoryPort for AssistantMemory`
  abbrev pub memory_port : MemoryPort R
  memory_port = record {
    recall_for_model = recall_for_model;
    remember_episode = remember_episode;
    remember_explicit = remember_explicit;
  }
