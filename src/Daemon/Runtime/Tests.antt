-- ===== src/Daemon/Runtime/Tests.antt =====
-- A question that the service answers, shown on the HUD.
use kitt_assistant.Daemon.Runtime.{Runtime, World, run_ask}
use kitt_assistant.Base.{◌≡◌, ◌≢◌, ◌⊎◌, true, [], Text, ok, err, codes}
use kitt_assistant.Daemon.Runtime.Asking.{Told, run_ask-Told}
use kitt_assistant.Application.{AssistantService, ask}
use kitt_assistant.Domain.{default_policy, AssistantError, RouteHint, from_text}

abbrev service : AssistantService Text (Unit {0})
service = record {
  fast_model = record {
    complete = λ h r. ok (record { text = codes "Bom dia." });
    is_local = true;
  };
  heavy_model = record { complete = λ h r. err (AssistantError.model "offline"); is_local = true };
  transcriber = record {
    transcribe_rich = λ h p l q. ok (from_text (codes "bom dia"));
    is_local = true;
  };
  speaker = record { speak = λ h t l. ok tt };
  memory = record {
    recall_for_model = λ h q b. ok [];
    remember_episode = λ h t. ok tt;
    remember_explicit = λ h t. ok t;
  };
  routing = default_policy;
}

abbrev runtime : Runtime Text (Unit {0})
runtime = record { service = service; content = λ r. r; hud_ttl_ms = 8000 }

abbrev quiet : World
quiet = record { calls = []; log = [] }

run_ask-Told_example :
    ((codes "Oi" ≡ [])
      × (run_ask runtime (codes "Oi") RouteHint.auto true quiet
          ≡ (err (codes "empty_text", codes "text cannot be empty"), quiet)))
    ⊎ ((codes "Oi" ≢ [])
        × Told runtime true
            (codes "Oi")
            RouteHint.auto
            quiet
            (ask (λ r. r) service (codes "Oi") RouteHint.auto [])
            (run_ask runtime (codes "Oi") RouteHint.auto true quiet))
run_ask-Told_example = run_ask-Told runtime (codes "Oi") RouteHint.auto true quiet
