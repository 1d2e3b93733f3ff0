-- ===== src/Base.antt =====
-- Names that all modules share: the libraries' names passed on, Boolean tests, lists over the
-- native numbers, insertion-ordered maps (the language's `Map` and `Set`) and results.
mod Tests
mod Lists
mod Maps
mod Results
mod Int
mod Sorting
mod Perms
mod Members
unfoldable pub use Int.*
unfoldable pub use Sorting.*
unfoldable pub use Perms.*
pub use Members.*
unfoldable pub use Tests.*
unfoldable pub use Lists.*
unfoldable pub use Maps.*
unfoldable pub use Results.*
pub use Prim.Native.Nat.{ℕ, zero, suc, ◌+◌, ◌-◌, ◌*◌, ◌/◌, ◌%◌, ◌^◌, ◌≤◌, ◌<◌, min}
pub use Prim.Native.String.{String}
pub use mathlib.Core.Path.{◌≡◌, refl, sym, ap, subst, ◌∙◌}
pub use mathlib.Core.Logic.{◌≢◌, ◌↔◌, ◌⊎◌, inl, inr}
pub use mathlib.Core.Bool.{Bool, true, false, not, ◌&&◌, ◌||◌}
pub use mathlib.Core.Option.{Option, none, some}
pub use mathlib.Core.List.{List, [], ◌∷◌, ◌++◌, map}
pub use native.Mathlib.Omega.{arith}
unfoldable pub use native.Mathlib.Decide.{dec_lt, ℕ_discrete}
