-- ===== src/Application/Tests.antt =====
-- A service whose fast model fails, and the properties applied to it.
use kitt_assistant.Base.{
  count_lines, retain, ◌≡◌, refl, List, [], ◌∷◌, Text, codes, ok, err, true, false, Bool, All,
}
use kitt_assistant.Domain.{AssistantError, ModelTier, RouteHint, default_policy, from_text}
use kitt_assistant.Domain.Routing.{choose, has_heavy_marker}
use kitt_assistant.Memory.{
  AssistantMemory, MemoryStore, Sensitivity, public, private, EgressPolicy, memory_port,
  recall_for_model,
}
use kitt_assistant.Application.{AssistantService, ask, complete_with}
use kitt_assistant.Application.Ask.{Reported, FailedLast, ask-Reported}
use kitt_assistant.Application.Egress.{service, IsCleared, ask-All-IsCleared}

-- A record is its text and its sensitivity.
abbrev Note : Type 0
Note = Text × Sensitivity

abbrev notes : List Note
notes = (codes "likes tea", public) ∷ (codes "pin 1234", private) ∷ []

-- The policy of the example: only a local provider sees what is not public.
abbrev public_or_local : EgressPolicy → Sensitivity → Bool
public_or_local p public = true
public_or_local p _ = p.is_local_provider

abbrev store : MemoryStore Note
store = record {
  recall = λ h q. ok notes;
  remember = λ h n. ok (n.content, n.sensitivity);
  id = λ r. r.0;
  content = λ r. r.0;
  sensitivity = λ r. r.1;
  allows = public_or_local;
}

abbrev memory : AssistantMemory Note
memory = record { store = store; workspace_id = codes "global"; allow_personal_remote = false }

abbrev failing_fast : AssistantService Note (Unit {0})
failing_fast = record {
  fast_model = record { complete = λ h r. err (AssistantError.model "offline"); is_local = false };
  heavy_model = record { complete = λ h r. ok (record { text = codes "heavy" }); is_local = true };
  transcriber = record {
    transcribe_rich = λ h p l q. ok (from_text (codes "texto"));
    is_local = true;
  };
  speaker = record { speak = λ h t l. ok tt };
  memory = memory_port memory;
  routing = default_policy;
}

abbrev failing_both : AssistantService Note (Unit {0})
failing_both = record failing_fast {
  heavy_model = record {
    complete = λ h r. err (AssistantError.model "heavy offline");
    is_local = true;
  };
}

escalates :
    (ask store.content failing_fast (codes "Oi") RouteHint.auto []).0
    ≡ ok (record { text = codes "heavy"; tier = ModelTier.heavy; fallback_used = true })
unfolding ask choose has_heavy_marker complete_with recall_for_model count_lines retain
escalates = refl

ask-Reported_example :
    Reported
      (choose default_policy (codes "Oi") RouteHint.auto)
      []
      (ask store.content failing_both (codes "Oi") RouteHint.auto []).1
      (ask store.content failing_both (codes "Oi") RouteHint.auto []).0
    × FailedLast store.content failing_both
        (codes "Oi")
        (choose default_policy (codes "Oi") RouteHint.auto)
        []
        (ask store.content failing_both (codes "Oi") RouteHint.auto []).1
        (ask store.content failing_both (codes "Oi") RouteHint.auto []).0
ask-Reported_example = ask-Reported store.content failing_both (codes "Oi") RouteHint.auto []

both_failed :
    (ask store.content failing_both (codes "Oi") RouteHint.auto []).0
    ≡ err (AssistantError.model "heavy offline")
unfolding ask choose has_heavy_marker complete_with recall_for_model count_lines retain
both_failed = refl

ask-All-IsCleared_example :
    All
      (IsCleared memory failing_fast)
      (ask store.content (service memory failing_fast) (codes "Oi") RouteHint.auto []).1
ask-All-IsCleared_example = ask-All-IsCleared memory failing_fast (codes "Oi") RouteHint.auto [] tt
