-- ===== src/Prelude.antt =====
-- The names that the other modules share: the libraries', passed on, and those of the children.
mod Tests
mod Lists
mod Results
mod Text
mod Int
pub use Tests.*
pub use Lists.{
  length, length-append, length-take, take-whole, All, All-append, All-map, All-member, All-both,
  all-All, All-all, All-Memᴰ, any-Memᴰ, none-Memᴰ, Distinct, contains-append, contains_head,
}
unfoldable pub use Lists.{any, all, contains, take}
pub use Results.{
  Result, ok, err, ◌>>=◌, ◌>>◌, reject, Check, is_ok, >>=-eq-ok, >>-eq-ok, reject-eq-ok, reject-ok,
  for_each-eq-ok, for_each-All,
}
unfoldable pub use Results.{for_each}
pub use Text.{Bytes, bytes, bytes_beq_iff, bytes_eq}
unfoldable pub use Text.{bytes_beq}
pub use Int.{ℤ, pos, negsuc, int_beq, int_beq_iff, int_eq, ltb_ℤ}
pub use Prim.Native.Nat.{ℕ, zero, suc, ◌+◌, ◌-◌, ◌*◌, ◌/◌, ◌%◌, ◌^◌, ◌≤◌, ◌<◌}
pub use mathlib.Core.Path.{◌≡◌, refl, sym, ap, ◌∙◌}
pub use mathlib.Core.Logic.{◌≢◌, ◌↔◌, ◌⊎◌, inl, inr}
pub use mathlib.Core.Bool.{Bool, true, false, not, ◌&&◌, ◌||◌}
pub use mathlib.Core.Option.{Option, none, some}
pub use mathlib.Core.List.{List, [], ◌∷◌, ◌++◌, map, reverse}
pub use native.Mathlib.Omega.{arith}
