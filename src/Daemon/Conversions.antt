-- ===== src/Daemon/Conversions.antt =====
-- The conversions between the protocol's memory types and the store's.
pub mod RoundTrip
use kitt_assistant.Base.{ℕ, Bool, Option, Text}
use kitt_assistant.Memory.{MemoryKind, Sensitivity, MemoryScope}

-- The protocol's own copies of the three types.
pub data ProtocolKind : Type 0 where
  user_preference project_rule architecture_decision technical_fact working_pattern : ProtocolKind
  failed_approach open_issue project_state episodic personal_fact routine : ProtocolKind

pub data ProtocolSensitivity : Type 0 where
  public personal private secret ephemeral : ProtocolSensitivity

pub data ProtocolScope : Type 0 where
  global workspace conversation : ProtocolScope

unfoldable pub protocol_kind_to_core : ProtocolKind → MemoryKind
protocol_kind_to_core ProtocolKind.user_preference = MemoryKind.user_preference
protocol_kind_to_core ProtocolKind.project_rule = MemoryKind.project_rule
protocol_kind_to_core ProtocolKind.architecture_decision = MemoryKind.architecture_decision
protocol_kind_to_core ProtocolKind.technical_fact = MemoryKind.technical_fact
protocol_kind_to_core ProtocolKind.working_pattern = MemoryKind.working_pattern
protocol_kind_to_core ProtocolKind.failed_approach = MemoryKind.failed_approach
protocol_kind_to_core ProtocolKind.open_issue = MemoryKind.open_issue
protocol_kind_to_core ProtocolKind.project_state = MemoryKind.project_state
protocol_kind_to_core ProtocolKind.episodic = MemoryKind.episodic
protocol_kind_to_core ProtocolKind.personal_fact = MemoryKind.personal_fact
protocol_kind_to_core ProtocolKind.routine = MemoryKind.routine

unfoldable pub core_kind_to_protocol : MemoryKind → ProtocolKind
core_kind_to_protocol MemoryKind.user_preference = ProtocolKind.user_preference
core_kind_to_protocol MemoryKind.project_rule = ProtocolKind.project_rule
core_kind_to_protocol MemoryKind.architecture_decision = ProtocolKind.architecture_decision
core_kind_to_protocol MemoryKind.technical_fact = ProtocolKind.technical_fact
core_kind_to_protocol MemoryKind.working_pattern = ProtocolKind.working_pattern
core_kind_to_protocol MemoryKind.failed_approach = ProtocolKind.failed_approach
core_kind_to_protocol MemoryKind.open_issue = ProtocolKind.open_issue
core_kind_to_protocol MemoryKind.project_state = ProtocolKind.project_state
core_kind_to_protocol MemoryKind.episodic = ProtocolKind.episodic
core_kind_to_protocol MemoryKind.personal_fact = ProtocolKind.personal_fact
core_kind_to_protocol MemoryKind.routine = ProtocolKind.routine

unfoldable pub protocol_sensitivity_to_core : ProtocolSensitivity → Sensitivity
protocol_sensitivity_to_core ProtocolSensitivity.public = Sensitivity.public
protocol_sensitivity_to_core ProtocolSensitivity.personal = Sensitivity.personal
protocol_sensitivity_to_core ProtocolSensitivity.private = Sensitivity.private
protocol_sensitivity_to_core ProtocolSensitivity.secret = Sensitivity.secret
protocol_sensitivity_to_core ProtocolSensitivity.ephemeral = Sensitivity.ephemeral

unfoldable pub core_sensitivity_to_protocol : Sensitivity → ProtocolSensitivity
core_sensitivity_to_protocol Sensitivity.public = ProtocolSensitivity.public
core_sensitivity_to_protocol Sensitivity.personal = ProtocolSensitivity.personal
core_sensitivity_to_protocol Sensitivity.private = ProtocolSensitivity.private
core_sensitivity_to_protocol Sensitivity.secret = ProtocolSensitivity.secret
core_sensitivity_to_protocol Sensitivity.ephemeral = ProtocolSensitivity.ephemeral

unfoldable pub protocol_scope_to_core : ProtocolScope → MemoryScope
protocol_scope_to_core ProtocolScope.global = MemoryScope.global
protocol_scope_to_core ProtocolScope.workspace = MemoryScope.workspace
protocol_scope_to_core ProtocolScope.conversation = MemoryScope.conversation

unfoldable pub core_scope_to_protocol : MemoryScope → ProtocolScope
core_scope_to_protocol MemoryScope.global = ProtocolScope.global
core_scope_to_protocol MemoryScope.workspace = ProtocolScope.workspace
core_scope_to_protocol MemoryScope.conversation = ProtocolScope.conversation

-- A stored record and what a client is shown of it; times are the store's texts.
pub record MemoryRecord : Type 0 where
  pub id : Text
  pub namespace : Text
  pub workspace_id : Text
  pub kind : MemoryKind
  pub content : Text
  pub sensitivity : Sensitivity
  pub scope : MemoryScope
  pub scope_key : Option Text
  pub importance : ℕ
  pub confidence : ℕ
  pub pinned : Bool
  pub created_at : Text
  pub updated_at : Text

pub record MemoryDto : Type 0 where
  pub id : Text
  pub namespace : Text
  pub workspace_id : Text
  pub kind : ProtocolKind
  pub content : Text
  pub sensitivity : ProtocolSensitivity
  pub scope : ProtocolScope
  pub scope_key : Option Text
  pub importance : ℕ
  pub confidence : ℕ
  pub pinned : Bool
  pub created_at : Text
  pub updated_at : Text

unfoldable pub memory_to_dto : MemoryRecord → MemoryDto
memory_to_dto row = record {
  id = row.id;
  namespace = row.namespace;
  workspace_id = row.workspace_id;
  kind = core_kind_to_protocol row.kind;
  content = row.content;
  sensitivity = core_sensitivity_to_protocol row.sensitivity;
  scope = core_scope_to_protocol row.scope;
  scope_key = row.scope_key;
  importance = row.importance;
  confidence = row.confidence;
  pinned = row.pinned;
  created_at = row.created_at;
  updated_at = row.updated_at;
}
