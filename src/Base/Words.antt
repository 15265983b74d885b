-- ===== src/Base/Words.antt =====
-- `unsigned int` and `u32` arithmetic, with the wrap-around written out.
use Prim.Native.Nat.{ℕ, ◌+◌, ◌-◌, ◌*◌, ◌%◌, ◌^◌}

abbrev pub u32_mod : ℕ
u32_mod = 2 ^ 32

infixl 65 ◌+32◌ ◌-32◌
infixl 70 ◌*32◌
abbrev pub ◌+32◌ : ℕ → ℕ → ℕ
a +32 b = (a + b) % u32_mod

abbrev pub ◌-32◌ : ℕ → ℕ → ℕ
a -32 b = (a + u32_mod - b) % u32_mod

abbrev pub ◌*32◌ : ℕ → ℕ → ℕ
a *32 b = (a * b) % u32_mod
