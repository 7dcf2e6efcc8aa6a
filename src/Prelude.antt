-- ===== src/Prelude.antt =====
-- The names that the other modules share: the libraries', passed on, and those of the children.
mod Tests
mod Lists
mod Bytes
mod Maps
pub mod Int
pub mod Decimal
pub use Tests.*
pub use Lists.*
unfoldable pub use Bytes.{◌==◌, strip_prefix, split, join, trim_space}
pub use Bytes.{
  Text, text, ==_refl, eq_iff, strip_prefix-append, strip_prefix-eq-some, Lacks, split-append,
  split-Lacks,
}
unfoldable pub use Maps.{lookup, insert}
pub use Maps.{
  Dict, lookup-cons, lookup-insert, DistinctKeys, insert-DistinctKeys, contains, or_else,
}
pub use Prim.Native.Nat.{ℕ, zero, suc, ◌+◌, ◌-◌, ◌*◌, ◌/◌, ◌%◌, ◌^◌, ◌≤◌, ◌<◌}
pub use mathlib.Core.Path.{◌≡◌, refl, sym, ap, ap₂, subst, ◌∙◌}
pub use mathlib.Core.Logic.{◌≢◌, ◌↔◌, ◌⊎◌, inl, inr}
pub use mathlib.Core.Bool.{Bool, true, false, ◌&&◌, ◌||◌, not}
pub use mathlib.Core.Option.{Option, none, some}
pub use mathlib.Core.List.{List, [], ◌∷◌, ◌++◌, map}
pub use native.Mathlib.Omega.{arith}
