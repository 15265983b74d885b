-- ===== src/Base/Bits/Powers.antt =====
-- `^` with a power of two, and `&` with the number before one.
use Prim.Native.Nat.{
  ℕ, zero, suc, ◌+◌, ◌*◌, ◌-◌, ◌/◌, ◌%◌, ◌^◌, ◌≤◌, ◌<◌, min, differ, bit_and, bit_xor,
  bit_xor-bitwise,
}
use mathlib.Core.Path.{◌≡◌, refl, ◌∙◌, ap}
use native.Mathlib.Omega.{arith}
use native.Mathlib.Nat as Nat
use hoit_f2fs.Base.Bits.{lowest_digit, bit_and_digit, bit_and-zero}

pub bit_xor_digit : (a b : ℕ) → bit_xor a b ≡ bit_xor (a / 2) (b / 2) * 2 + differ (a % 2) (b % 2)
bit_xor_digit zero b = omega (arith, bit_xor-bitwise zero b, bit_xor-bitwise zero (b / 2))
bit_xor_digit (suc a) b =
    bit_xor-bitwise (suc a) b
    ∙ lowest_digit (λ low. low) differ a b
    ∙ omega (arith, bit_xor-bitwise (suc a / 2) (b / 2))

differ_zero : (d : ℕ) → differ d 0 ≡ d
differ_zero zero = refl
differ_zero (suc d) = refl

xor_zero : (bound a : ℕ) → a ≤ bound → bit_xor a 0 ≡ a
xor_zero bound zero h = bit_xor-bitwise zero 0
xor_zero (suc bound) (suc a) h =
    let halved = xor_zero bound (suc a / 2) (omega arith) in
    omega (arith, bit_xor_digit (suc a) 0, halved, differ_zero (suc a % 2))
xor_zero zero (suc a) h = elim h [ ]

pub bit_xor-zero : (a : ℕ) → bit_xor a 0 ≡ a
bit_xor-zero a = xor_zero a a (omega arith)

-- The lowest digit changes.
pub bit_xor-one : (h : ℕ) → bit_xor h 1 ≡ h / 2 * 2 + (1 - h % 2)
bit_xor-one h =
    let high = bit_xor-zero (h / 2) in
    let low = lowest h in bit_xor_digit h 1 ∙ omega (arith, high, low)
  where
    digit : (d : ℕ) → d < 2 → differ d 1 ≡ 1 - d
    digit zero small = refl
    digit (suc zero) small = refl
    digit (suc (suc d)) small = absurd (omega arith)

    lowest : (h : ℕ) → differ (h % 2) 1 ≡ 1 - h % 2
    lowest h = digit (h % 2) (omega arith)

-- `^` with 2 ^ k changes the lowest digit of what stands above k digits.
pub bit_xor-power :
    (k h o : ℕ) → o < 2 ^ k → bit_xor (h * 2 ^ k + o) (2 ^ k) ≡ bit_xor h 1 * 2 ^ k + o
bit_xor-power zero h o small = ap (λ n. bit_xor n 1) {y = h} (omega arith) ∙ omega arith
bit_xor-power (suc k) h o small =
    let p : 2 ^ suc k ≡ 2 ^ k * 2 = omega (arith, Nat.two-pow-succ k) in
    let above : h * 2 ^ suc k ≡ (h * 2 ^ k) * 2 = ap (λ n. h * n) p ∙ omega arith in
    let x = h * 2 ^ suc k + o in
    let half : x / 2 ≡ h * 2 ^ k + o / 2 = omega (arith, above) in
    let ih = bit_xor-power k h (o / 2) (omega (arith, p)) in
    let same : bit_xor (x / 2) (2 ^ suc k / 2) ≡ bit_xor (h * 2 ^ k + o / 2) (2 ^ k) =
      ap (λ n. bit_xor n (2 ^ suc k / 2)) half
      ∙ ap (λ n. bit_xor (h * 2 ^ k + o / 2) n) (omega (arith, p)) in
    let low : differ (x % 2) (2 ^ suc k % 2) ≡ o % 2 =
      ap (λ n. differ (x % 2) n) {y = 0} (omega (arith, p))
      ∙ differ_zero (x % 2)
      ∙ omega (arith, above) in
    let out : bit_xor h 1 * 2 ^ suc k ≡ (bit_xor h 1 * 2 ^ k) * 2 =
      ap (λ n. bit_xor h 1 * n) p ∙ omega arith in
    bit_xor_digit x (2 ^ suc k) ∙ omega (arith, same, ih, low, out)

-- A number is twice its half and its lowest digit.
halve_mod : (x p : ℕ) → 0 < p → (x / 2 % p) * 2 + x % 2 ≡ x % (p * 2)
halve_mod x p h =
    let y = x / 2 in
    let q = y / p in
    let parts = Nat.mod-add-div' y p in
    let less = Nat.mod-lt y h in
    let whole : x ≡ (y % p * 2 + x % 2) + q * (p * 2) = omega (arith, parts, Nat.mul_assoc q p 2) in
    let rest = Nat.add-mul-mod_self_right (y % p * 2 + x % 2) q (p * 2) in
    let small = Nat.mod-eq_of_lt {n = y % p * 2 + x % 2} {m = p * 2} (omega (arith, less)) in
    omega (arith, ap (λ n. n % (p * 2)) whole, rest, small)

pub two_pos : (k : ℕ) → 0 < 2 ^ k
two_pos zero = omega arith
two_pos (suc k) = omega (arith, Nat.two-pow-succ k, two_pos k)

pub bit_and-mask : (k x : ℕ) → bit_and x (2 ^ k - 1) ≡ x % 2 ^ k
bit_and-mask zero x = bit_and-zero x ∙ omega arith
bit_and-mask (suc k) x =
    let p : 2 ^ suc k ≡ 2 ^ k * 2 = omega (arith, Nat.two-pow-succ k) in
    let pos = two_pos k in
    let same : bit_and (x / 2) ((2 ^ suc k - 1) / 2) ≡ bit_and (x / 2) (2 ^ k - 1) =
      ap (λ n. bit_and (x / 2) n) (omega (arith, p, pos)) in
    let ih = bit_and-mask k (x / 2) in
    let low : min (x % 2) ((2 ^ suc k - 1) % 2) ≡ x % 2 = omega (arith, p, pos) in
    bit_and_digit x (2 ^ suc k - 1)
    ∙ omega (arith, same, ih, low)
    ∙ halve_mod x (2 ^ k) pos
    ∙ ap (λ n. x % n) {y = 2 ^ suc k} (omega (arith, p))
