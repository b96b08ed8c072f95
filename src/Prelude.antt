-- ===== src/Prelude.antt =====
-- The names that the other modules share: the libraries', passed on, and those of the children.
mod Tests
mod Lists
mod Int
pub use Tests.*
pub use Lists.{
  length-append, length-set, length-take, length-drop, length-replicate, length-map, get_or-append,
  get_or-take, get_or-drop, get_or-past, get_elem?-set_self, get_elem?-set_ne, take_all,
  take-append_at, drop-append_at, drop-replicate, get_elem?-get_or, get_elem?-lt, get_elem?-past,
  get_or-set, get_or-set_self, get_or-set_ne, set-set, set-get_elem?,
}
unfoldable pub use Lists.{length, get_elem?, set, get_or, take, drop, replicate}
unfoldable pub use Int.*
pub use Prim.Native.Nat.{
  ℕ, zero, suc, ◌+◌, ◌-◌, ◌*◌, ◌/◌, ◌%◌, ◌^◌, ◌≤◌, ◌<◌, min, max, bit_and, bit_or, bit_xor,
}
pub use mathlib.Core.Path.{◌≡◌, refl, sym, ap, ◌∙◌, fun_ext, subst}
pub use mathlib.Core.Logic.{◌≢◌, ◌↔◌, ◌⊎◌, inl, inr}
pub use mathlib.Core.Bool.{Bool, true, false, ◌&&◌, ◌||◌, not}
pub use mathlib.Core.Option.{Option, none, some, some-injective}
pub use mathlib.Core.List.{List, [], ◌∷◌, ◌++◌, map, append_assoc, append-nil}
pub use native.Mathlib.Omega.{arith}
