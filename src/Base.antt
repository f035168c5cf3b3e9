-- ===== src/Base.antt =====
-- What every part of the model shares: the libraries' names, tests, lists, dicts and sets.
mod Tests
mod Lists
mod Dicts
mod Removal
mod Cursor
pub use Tests.*
pub use Lists.*
unfoldable pub use Dicts.*
unfoldable pub use Removal.*
pub use Cursor.*
pub use Prim.Native.Nat.{ℕ, zero, suc, ◌+◌, ◌-◌, ◌*◌, ◌≤◌, ◌<◌, max, min}
pub use Prim.Native.String.{String}
pub use mathlib.Core.Path.{◌≡◌, refl, sym, ap, ◌∙◌, subst}
pub use mathlib.Core.Logic.{◌≢◌, ◌↔◌, ◌⊎◌, inl, inr}
pub use mathlib.Core.Bool.{Bool, true, false, not, ◌&&◌, ◌||◌}
pub use mathlib.Core.Option.{Option, none, some}
pub use mathlib.Core.List.{List, [], ◌∷◌, ◌++◌, map, append-nil, append_assoc}
pub use native.Mathlib.Omega.{arith}
