-- ===== src/Prelude.antt =====
-- The names that the other modules share: the libraries', passed on, and those of the children.
mod Tests
mod Lists
mod Keys
mod Counting
mod Dicts
mod Errors
mod Integers
mod Sorting
mod Members
pub use Tests.*
pub use Lists.*
pub use Keys.*
pub use Counting.*
pub use Members.*
pub use Errors.*
pub use Integers.*
unfoldable pub use Sorting.*
pub use Dicts.{
  Dict, keys, values, get, put, setdefault, pop, get_or, get-put, get-setdefault, get-pop, keys-put,
  keys-setdefault, has, has-get, get-none, keys-put_same, Distinct-keys-put,
  Distinct-keys-setdefault, has-put, has-pop, get-has,
}
pub use Prim.Native.Nat.{ℕ, zero, suc, ◌+◌, ◌-◌, ◌*◌, ◌/◌, ◌%◌, ◌^◌, ◌≤◌, ◌<◌, min, max}
pub use Prim.Native.String.{String}
pub use mathlib.Core.Path.{◌≡◌, refl, sym, ap, ◌∙◌, subst}
pub use mathlib.Core.Logic.{◌≢◌, ◌↔◌, ◌⊎◌, inl, inr}
pub use mathlib.Core.Bool.{Bool, true, false, not, ◌&&◌, ◌||◌}
pub use mathlib.Core.Option.{Option, none, some}
pub use mathlib.Core.List.{List, [], ◌∷◌, ◌++◌, map}
pub use native.Mathlib.Omega.{arith}
