-- ===== src/Domain/Routing/Laws.antt =====
-- What the routing decision means, with an independent reading of "contains".
use kitt_assistant.Base.{
  ◌≤◌, ◌≡◌, refl, ◌↔◌, false, map, arith, length, contains, to_ascii_lowercase, count_lines, All,
  Text, Occurs, contains_iff, any-false_iff,
}
use kitt_assistant.Domain.{ModelTier, RouteHint, RoutingPolicy}
use kitt_assistant.Domain.Routing.{heavy_markers, has_heavy_marker, choose}

abbrev pub lowered : Text → Text
lowered = map to_ascii_lowercase

-- No marker of the list stands in the lowered text.
abbrev pub IsMarkerFree : Text → Type 0
IsMarkerFree text = All (λ m. ¬ Occurs m (lowered text)) heavy_markers

has_heavy_marker-eq-false_iff : (text : Text) → (has_heavy_marker text ≡ false) ↔ IsMarkerFree text
unfolding has_heavy_marker
has_heavy_marker-eq-false_iff text =
    any-false_iff (contains (lowered text)) (λ m. Occurs m (lowered text)) heavy_markers
      (contains_iff (lowered text))

-- Without a hint, a text goes to the fast tier exactly when no heavy marker occurs in it after
-- lowering ASCII letters, and it has at most the policy's characters and at most its lines; with a
-- hint it goes to the tier that the hint names.
pub choose-eq-fast_iff :
    (p : RoutingPolicy) (text : Text)
    → ((choose p text RouteHint.auto ≡ ModelTier.fast) ↔ (
        IsMarkerFree text
        × (length text ≤ p.fast_max_chars)
        × (count_lines text ≤ p.fast_max_lines)))
      × (choose p text RouteHint.fast ≡ ModelTier.fast)
      × (choose p text RouteHint.heavy ≡ ModelTier.heavy)
unfolding choose
choose-eq-fast_iff p text =
    let (to, from) = has_heavy_marker-eq-false_iff text in
    (
      (
        λ e. (to (ground arith), ground arith, ground arith),
        λ (free, few_chars, few_lines).
            let unmarked : has_heavy_marker text ≡ false = from free in ground arith,
      ),
      refl,
      refl,
    )
