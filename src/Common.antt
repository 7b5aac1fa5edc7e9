-- ===== src/Common.antt =====
-- The names that the other modules share: the libraries', passed on, and those of the children.
mod Base
mod Text
mod Guards
mod Dictionary
mod Results
mod SortedSet
pub mod Int
pub mod Float
pub mod Fixed
pub mod Json
pub use Base.*
pub use Text.{
  ◌≟◌, starts_with, before, truthy, truthy?, is_in, ≟_refl, ≟→≡, size-take, take_all, size-append,
}
unfoldable pub use Text.{
  lower, upper, take, size, decimal, ends_with, has_text, join, underscore, before_point, live_name,
}
pub use Guards.*
pub use Results.*
pub use SortedSet.{is_empty-sorted_set, mem-sorted_set}
unfoldable pub use SortedSet.{sorted_set}
pub use Dictionary.{Dict, get-put, get-pop}
unfoldable pub use Dictionary.{get, put, pop}
pub use Prim.Native.Nat.{ℕ, zero, suc, ◌+◌, ◌-◌, ◌*◌, ◌/◌, ◌%◌, ◌^◌, ◌≤◌, ◌<◌}
pub use Prim.Native.String.{String}
pub use mathlib.Core.Path.{◌≡◌, refl, sym, ap, ◌∙◌}
pub use mathlib.Core.Logic.{◌≢◌, ◌↔◌, ◌⊎◌, inl, inr}
pub use mathlib.Core.Bool.{Bool, true, false, not, ◌&&◌, ◌||◌}
pub use mathlib.Core.Option.{Option, none, some}
pub use mathlib.Core.List.{List, [], ◌∷◌, ◌++◌, map, Memᴰ}
pub use native.Mathlib.Omega.{arith}
