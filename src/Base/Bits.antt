-- ===== src/Base/Bits.antt =====
-- Laws of `&` and `|` at variables, from the binary digits that the native operations stand for:
-- one law for the lowest digit of each, and what they do with 0.
pub mod Powers
use Prim.Native.Nat.{
  ℕ, zero, suc, ◌+◌, ◌*◌, ◌-◌, ◌/◌, ◌%◌, ◌≤◌, min, max, bit_and, bit_or, digits, bit_and-bitwise,
  bit_or-bitwise,
}
use mathlib.Core.Path.{◌≡◌, refl, ◌∙◌, ap}
use native.Mathlib.Omega.{arith}

-- `rest` is the result for a first number of no digits, `join` that for two digits.
module _ (rest : ℕ → ℕ) (join : ℕ → ℕ → ℕ) where
  -- One round more than needed changes nothing.
  one_more_round :
      (rounds a b : ℕ)
      → a ≤ rounds
      → digits rest join (suc rounds) a b ≡ digits rest join rounds a b
  one_more_round zero zero b enough = refl
  one_more_round (suc rounds) zero b enough = refl
  one_more_round (suc rounds) (suc a) b enough =
      ap (λ high. high * 2 + join (suc a % 2) (b % 2))
        (one_more_round rounds (suc a / 2) (b / 2) (omega arith))
  one_more_round zero (suc a) b enough = elim enough [ ]

  more_rounds : (extra a b : ℕ) → digits rest join (extra + a) a b ≡ digits rest join a a b
  more_rounds zero a b = ap (λ n. digits rest join n a b) (omega arith)
  more_rounds (suc extra) a b =
      ap (λ n. digits rest join n a b) {y = suc (extra + a)} (omega arith)
      ∙ one_more_round (extra + a) a b (omega arith)
      ∙ more_rounds extra a b

  pub lowest_digit :
      (a b : ℕ)
      → digits rest join (suc a) (suc a) b
        ≡ digits rest join (suc a / 2) (suc a / 2) (b / 2) * 2 + join (suc a % 2) (b % 2)
  lowest_digit a b =
      let extra = suc a - 1 - suc a / 2 in
      ap (λ high. high * 2 + join (suc a % 2) (b % 2))
        (ap (λ n. digits rest join n (suc a / 2) (b / 2)) (omega arith)
          ∙ more_rounds extra (suc a / 2) (b / 2))

pub bit_and_digit : (a b : ℕ) → bit_and a b ≡ bit_and (a / 2) (b / 2) * 2 + min (a % 2) (b % 2)
bit_and_digit zero b = omega (arith, bit_and-bitwise zero b, bit_and-bitwise zero (b / 2))
bit_and_digit (suc a) b =
    bit_and-bitwise (suc a) b
    ∙ lowest_digit (λ _. zero) min a b
    ∙ omega (arith, bit_and-bitwise (suc a / 2) (b / 2))

pub bit_or_digit : (a b : ℕ) → bit_or a b ≡ bit_or (a / 2) (b / 2) * 2 + max (a % 2) (b % 2)
bit_or_digit zero b = omega (arith, bit_or-bitwise zero b, bit_or-bitwise zero (b / 2))
bit_or_digit (suc a) b =
    bit_or-bitwise (suc a) b
    ∙ lowest_digit (λ low. low) max a b
    ∙ omega (arith, bit_or-bitwise (suc a / 2) (b / 2))

-- By induction on a bound of the number.
with_zero : (bound a : ℕ) → a ≤ bound → (bit_and a 0 ≡ 0) × (bit_or a 0 ≡ a)
with_zero bound zero h = (bit_and-bitwise zero 0, bit_or-bitwise zero 0)
with_zero (suc bound) (suc a) h =
    let (conj, disj) = with_zero bound (suc a / 2) (omega arith) in
    (omega (arith, bit_and_digit (suc a) 0, conj), omega (arith, bit_or_digit (suc a) 0, disj))
with_zero zero (suc a) h = elim h [ ]

pub bit_and-zero : (a : ℕ) → bit_and a 0 ≡ 0
bit_and-zero a = (with_zero a a (omega arith)).0

pub bit_or-zero : (a : ℕ) → bit_or a 0 ≡ a
bit_or-zero a = (with_zero a a (omega arith)).1
