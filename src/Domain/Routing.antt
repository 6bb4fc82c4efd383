-- ===== src/Domain/Routing.antt =====
-- crates/kitt-domain/src/lib.rs: which model tier answers a text.
pub mod Laws
mod Tests
use kitt_assistant.Base.{
  ℕ, Bool, true, false, ◌&&◌, List, [], ◌∷◌, map, Text, length, leb, any, codes, contains,
  to_ascii_lowercase, count_lines, if◌then◌else◌,
}
use kitt_assistant.Domain.{ModelTier, RouteHint, RoutingPolicy}

unfoldable pub heavy_markers : List Text
heavy_markers = map codes (
    "```" ∷ "analis" ∷ "analy" ∷ "arquitet" ∷ "architect" ∷ "implementar" ∷ "implement" ∷ "refator"
    ∷ "refactor" ∷ "debug" ∷ "investig" ∷ "pesquis" ∷ "research" ∷ "compar" ∷ "planej" ∷ "design"
    ∷ "código" ∷ "codigo" ∷ "codebase" ∷ "stack trace" ∷ [])

-- The scan over the markers, on the lowered text.
unfoldable pub has_heavy_marker : Text → Bool
unfolding heavy_markers contains to_ascii_lowercase
has_heavy_marker text =
    let normalized = map to_ascii_lowercase text in any (contains normalized) heavy_markers

unfoldable pub choose : RoutingPolicy → Text → RouteHint → ModelTier
choose p text RouteHint.fast = ModelTier.fast
choose p text RouteHint.heavy = ModelTier.heavy
choose p text RouteHint.auto =
    if has_heavy_marker text
    then ModelTier.heavy
    else if leb (length text) p.fast_max_chars && leb (count_lines text) p.fast_max_lines
    then ModelTier.fast
    else ModelTier.heavy
