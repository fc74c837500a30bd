-- ===== src/Base.antt =====
-- The names that the other modules share: the libraries' passed on, tests and lists over the native
-- numbers, memory as a function of the address, and 32-bit words.
mod Tests
mod Lists
mod Memory
mod Word
mod Table
mod Links
mod Outcomes
pub use Tests.*
pub use Lists.*
pub use Memory.*
pub use Word.*
unfoldable pub use Table.{all_below}
pub use Table.{all_below_sound}
pub use Links.{
  head, last_or, NotIn, Distinct, Apart, Chain, NotIn-null, NotIn-append, NotIn-last_or,
  Chain-neighbours, Chain-kept, Chain-append, Chain-unlink, Distinct-cut, last_or-append,
  Distinct-append, Chain-insert, Distinct-insert, NotIn-head, ∷≢[],
}
pub use Outcomes.*
pub use Prim.Native.Nat.{
  ℕ, zero, suc, ◌+◌, ◌-◌, ◌*◌, ◌/◌, ◌%◌, ◌^◌, ◌≤◌, ◌<◌, min, bit_and, bit_or, bit_xor,
}
pub use mathlib.Core.Path.{◌≡◌, refl, sym, ap, ◌∙◌}
pub use mathlib.Core.Logic.{◌≢◌, ◌↔◌, ◌⊎◌, inl, inr}
pub use mathlib.Core.Bool.{Bool, true, false, not, ◌&&◌, ◌||◌}
pub use mathlib.Core.Option.{Option, none, some}
pub use mathlib.Core.List.{List, [], ◌∷◌, ◌++◌, map}
pub use native.Mathlib.Omega.{arith}
unfoldable pub use native.Mathlib.Decide.{dec_lt, ℕ_discrete}
