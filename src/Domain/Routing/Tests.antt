-- ===== src/Domain/Routing/Tests.antt =====
-- The routing decision on the texts of the source's tests.
use kitt_assistant.Domain.Routing.Laws.{choose-eq-fast_iff, IsMarkerFree}
use kitt_assistant.Base.{◌≤◌, length, ◌↔◌, ◌≡◌, refl, codes, count_lines}
use kitt_assistant.Domain.{default_policy, ModelTier, RouteHint}
use kitt_assistant.Domain.Routing.{choose, has_heavy_marker}

short_to_fast : choose default_policy (codes "Que horas são?") RouteHint.auto ≡ ModelTier.fast
unfolding choose has_heavy_marker count_lines
short_to_fast = refl

complex_to_heavy :
    choose default_policy (codes "Analise esta arquitetura e refatore o código") RouteHint.auto
    ≡ ModelTier.heavy
unfolding choose has_heavy_marker count_lines
complex_to_heavy = refl

choose-eq-fast_iff_example :
    ((choose default_policy (codes "Que horas são?") RouteHint.auto ≡ ModelTier.fast) ↔ (
      IsMarkerFree (codes "Que horas são?")
      × (length (codes "Que horas são?") ≤ default_policy.fast_max_chars)
      × (count_lines (codes "Que horas são?") ≤ default_policy.fast_max_lines)))
    × (choose default_policy (codes "Que horas são?") RouteHint.fast ≡ ModelTier.fast)
    × (choose default_policy (codes "Que horas são?") RouteHint.heavy ≡ ModelTier.heavy)
choose-eq-fast_iff_example = choose-eq-fast_iff default_policy (codes "Que horas são?")
