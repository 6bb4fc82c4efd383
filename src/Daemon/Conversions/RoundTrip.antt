-- ===== src/Daemon/Conversions/RoundTrip.antt =====
-- The conversions lose nothing.
use kitt_assistant.Base.{refl, ◌≡◌}
use kitt_assistant.Memory.{MemoryKind, Sensitivity, MemoryScope}
use kitt_assistant.Daemon.Conversions.{
  ProtocolKind, ProtocolSensitivity, ProtocolScope, protocol_kind_to_core, core_kind_to_protocol,
  protocol_sensitivity_to_core, core_sensitivity_to_protocol, protocol_scope_to_core,
  core_scope_to_protocol, MemoryRecord, memory_to_dto, MemoryDto,
}

kind_back : (x : MemoryKind) → protocol_kind_to_core (core_kind_to_protocol x) ≡ x
unfolding core_kind_to_protocol protocol_kind_to_core
kind_back MemoryKind.user_preference = refl
kind_back MemoryKind.project_rule = refl
kind_back MemoryKind.architecture_decision = refl
kind_back MemoryKind.technical_fact = refl
kind_back MemoryKind.working_pattern = refl
kind_back MemoryKind.failed_approach = refl
kind_back MemoryKind.open_issue = refl
kind_back MemoryKind.project_state = refl
kind_back MemoryKind.episodic = refl
kind_back MemoryKind.personal_fact = refl
kind_back MemoryKind.routine = refl

sensitivity_back :
    (x : Sensitivity) → protocol_sensitivity_to_core (core_sensitivity_to_protocol x) ≡ x
unfolding core_sensitivity_to_protocol protocol_sensitivity_to_core
sensitivity_back Sensitivity.public = refl
sensitivity_back Sensitivity.personal = refl
sensitivity_back Sensitivity.private = refl
sensitivity_back Sensitivity.secret = refl
sensitivity_back Sensitivity.ephemeral = refl

scope_back : (x : MemoryScope) → protocol_scope_to_core (core_scope_to_protocol x) ≡ x
unfolding core_scope_to_protocol protocol_scope_to_core
scope_back MemoryScope.global = refl
scope_back MemoryScope.workspace = refl
scope_back MemoryScope.conversation = refl

kind_forth : (x : ProtocolKind) → core_kind_to_protocol (protocol_kind_to_core x) ≡ x
unfolding protocol_kind_to_core core_kind_to_protocol
kind_forth ProtocolKind.user_preference = refl
kind_forth ProtocolKind.project_rule = refl
kind_forth ProtocolKind.architecture_decision = refl
kind_forth ProtocolKind.technical_fact = refl
kind_forth ProtocolKind.working_pattern = refl
kind_forth ProtocolKind.failed_approach = refl
kind_forth ProtocolKind.open_issue = refl
kind_forth ProtocolKind.project_state = refl
kind_forth ProtocolKind.episodic = refl
kind_forth ProtocolKind.personal_fact = refl
kind_forth ProtocolKind.routine = refl

sensitivity_forth :
    (x : ProtocolSensitivity) → core_sensitivity_to_protocol (protocol_sensitivity_to_core x) ≡ x
unfolding protocol_sensitivity_to_core core_sensitivity_to_protocol
sensitivity_forth ProtocolSensitivity.public = refl
sensitivity_forth ProtocolSensitivity.personal = refl
sensitivity_forth ProtocolSensitivity.private = refl
sensitivity_forth ProtocolSensitivity.secret = refl
sensitivity_forth ProtocolSensitivity.ephemeral = refl

scope_forth : (x : ProtocolScope) → core_scope_to_protocol (protocol_scope_to_core x) ≡ x
unfolding protocol_scope_to_core core_scope_to_protocol
scope_forth ProtocolScope.global = refl
scope_forth ProtocolScope.workspace = refl
scope_forth ProtocolScope.conversation = refl

-- Converting a kind, a sensitivity and a scope to the store's types and back gives what was sent.
protocol_to_core_back :
    (kind : ProtocolKind) (sensitivity : ProtocolSensitivity) (scope : ProtocolScope)
    → (core_kind_to_protocol (protocol_kind_to_core kind) ≡ kind)
      × (core_sensitivity_to_protocol (protocol_sensitivity_to_core sensitivity) ≡ sensitivity)
      × (core_scope_to_protocol (protocol_scope_to_core scope) ≡ scope)
protocol_to_core_back kind sensitivity scope =
    (kind_forth kind, sensitivity_forth sensitivity, scope_forth scope)

-- The stored record that a shown one stands for.
abbrev pub restored : MemoryDto → MemoryRecord
restored dto = record {
  id = dto.id;
  namespace = dto.namespace;
  workspace_id = dto.workspace_id;
  kind = protocol_kind_to_core dto.kind;
  content = dto.content;
  sensitivity = protocol_sensitivity_to_core dto.sensitivity;
  scope = protocol_scope_to_core dto.scope;
  scope_key = dto.scope_key;
  importance = dto.importance;
  confidence = dto.confidence;
  pinned = dto.pinned;
  created_at = dto.created_at;
  updated_at = dto.updated_at;
}

-- What a client is shown of a record determines the record: every field comes back, the kind, the
-- sensitivity and the scope through the opposite conversions.
restored-memory_to_dto : (row : MemoryRecord) → restored (memory_to_dto row) ≡ row
unfolding memory_to_dto
restored-memory_to_dto row = λ i. record row {
  kind = kind_back row.kind i;
  sensitivity = sensitivity_back row.sensitivity i;
  scope = scope_back row.scope i;
}
