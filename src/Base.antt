-- ===== src/Base.antt =====
-- The names that every component shares: those of the libraries, passed on, and the children's.
-- Texts that the program walks are lists of Unicode scalar values (`Text`); keys, paths and
-- messages that it only compares are native strings.
mod Tests
mod Lists
mod Chars
mod Utf8
mod Results
mod Substrings
mod Numbers
unfoldable pub use Tests.*
unfoldable pub use Lists.*
unfoldable pub use Utf8.*
unfoldable pub use Chars.*
unfoldable pub use Results.*
unfoldable pub use Numbers.*
pub use Substrings.*
pub use Prim.Native.Nat.{ℕ, zero, suc, ◌+◌, ◌-◌, ◌*◌, ◌/◌, ◌%◌, ◌^◌, ◌≤◌, ◌<◌, min, max}
pub use Prim.Native.String.{String}
pub use mathlib.Core.Path.{◌≡◌, refl, sym, ap, subst, ◌∙◌}
pub use mathlib.Core.Logic.{◌≢◌, ◌↔◌, ◌⊎◌, inl, inr}
pub use mathlib.Core.Bool.{Bool, true, false, not, ◌&&◌, ◌||◌}
pub use mathlib.Core.Option.{Option, none, some}
pub use mathlib.Core.List.{List, [], ◌∷◌, ◌++◌, map, reverse, append_assoc, append-nil}
pub use native.Mathlib.Omega.{arith}
