-- ===== src/Base/BitSearch.antt =====
-- The kernel's searches in a bitmap, `find_next_bit` and `find_next_zero_bit` (and their `_le`
-- forms). They are not part of the repository: an interface with what their documentation says,
-- and a plain scan that meets it.
pub mod Scan
use Prim.Native.Nat.{ℕ, ◌≤◌, ◌<◌}
use mathlib.Core.Path.{◌≡◌, refl}
use mathlib.Core.Bool.{Bool, true, false, not}
use native.Mathlib.Omega.{arith}
use hoit_f2fs.Base.Tests.{if◌then◌else◌, Bool-cases}
use mathlib.Core.Logic.{inl, inr}
use hoit_f2fs.Base.Arrays.{Array}

-- `find size offset` is the first index from `offset` on whose bit is `wanted`, or `size`.
pub record IsSearch (wanted : Bool) (find : Array Bool → ℕ → ℕ → ℕ) : Type 0 where
  pub within : (map : Array Bool) (size offset : ℕ) → find map size offset ≤ size
  pub found :
      (map : Array Bool) (size offset : ℕ)
      → find map size offset < size
      → (offset ≤ find map size offset) × (map (find map size offset) ≡ wanted)
  pub first :
      (map : Array Bool) (size offset i : ℕ)
      → offset ≤ i
      → i < find map size offset
      → map i ≡ not wanted

pub record BitSearch : Type 0 where
  pub find_next_bit : Array Bool → ℕ → ℕ → ℕ
  pub find_next_zero_bit : Array Bool → ℕ → ℕ → ℕ
  pub next_bit : IsSearch true find_next_bit
  pub next_zero_bit : IsSearch false find_next_zero_bit
