-- ===== src/Prelude.antt =====
-- Names that the other modules share: the libraries', passed on, and those of the children.
mod Tests
mod Lists
mod Results
mod Bytes
pub use Tests.*
pub use Lists.*
pub use Results.*
unfoldable pub use Bytes.*
pub use Prim.Native.Nat.{ℕ, zero, suc, ◌+◌, ◌-◌, ◌*◌, ◌/◌, ◌%◌, ◌^◌, ◌≤◌, ◌<◌}
pub use Prim.Native.String.{String}
pub use mathlib.Core.Path.{◌≡◌, refl, sym, ap, ◌∙◌, subst}
pub use mathlib.Core.Logic.{◌≢◌, ◌↔◌, ◌⊎◌, inl, inr}
pub use mathlib.Core.Bool.{Bool, true, false, not, ◌&&◌, ◌||◌}
pub use mathlib.Core.Option.{Option, none, some}
pub use mathlib.Core.List.{List, [], ◌∷◌, ◌++◌, map, append_assoc, append-nil}
pub use native.Mathlib.Omega.{arith}
use native.Mathlib.Nat.{suc-mod, mod-eq_of_lt}

-- The wrap-around of a uint64.
abbrev pub u64 : ℕ → ℕ
u64 n = n % 2 ^ 64

pub suc-u64 : (n : ℕ) → u64 (suc (u64 n)) ≡ u64 (suc n)
suc-u64 n = sym (suc-mod n (2 ^ 64))

pub u64_small : (n : ℕ) → n < 2 ^ 64 → u64 n ≡ n
u64_small n h = mod-eq_of_lt h
