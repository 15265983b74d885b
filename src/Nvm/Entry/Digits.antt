-- ===== src/Nvm/Entry/Digits.antt =====
-- The operations on table entries as arithmetic: the masks and flags of nvm.h take or set one of
-- the three lowest digits.
use hoit_f2fs.Base.{ℕ, ◌+◌, ◌*◌, ◌/◌, ◌%◌, ◌<◌, ◌≡◌, ap, max, bit_and, bit_or, arith}
use hoit_f2fs.Base.Words.{u32_mod}
use hoit_f2fs.Base.Bits.{bit_and_digit, bit_or_digit, bit_and-zero, bit_or-zero}
use hoit_f2fs.Nvm.Entry.{
  entry, value, map_flag, redirect_flag, double_flag, with_map, with_redirect, with_double,
  without_redirect, without_double,
}

-- A mask of one digit, and the mask of the two lowest digits.
masks :
    (a : ℕ)
    → (bit_and a 1 ≡ a % 2)
      × (bit_and a 2 ≡ a / 2 % 2 * 2)
      × (bit_and a 3 ≡ a % 4)
      × (bit_and a 4 ≡ a / 4 % 2 * 4)
masks a =
    let d = λ (k x : ℕ). bit_and_digit x k in
    let last = λ (x : ℕ). bit_and-zero (x / 2) in
    (
      omega (arith, d 1 a, last a),
      omega (arith, d 2 a, d 1 (a / 2), last (a / 2)),
      omega (arith, d 3 a, d 1 (a / 2), last (a / 2)),
      omega (arith, d 4 a, d 2 (a / 2), d 1 (a / 2 / 2), last (a / 2 / 2)),
    )

half_twice_half : (b : ℕ) → b < 8 → b / 2 / 2 / 2 ≡ 0
half_twice_half b h = omega arith

-- `|` with a number of three digits, digit by digit.
pub bit_or_low :
    (a b : ℕ)
    → b < 8
    → bit_or a b
      ≡ a / 8 * 8
        + max (a / 4 % 2) (b / 4) * 4
        + max (a / 2 % 2) (b / 2 % 2) * 2
        + max (a % 2) (b % 2)
bit_or_low a b h = omega (
  arith,
  bit_or_digit a b,
  bit_or_digit (a / 2) (b / 2),
  bit_or_digit (a / 2 / 2) (b / 2 / 2),
  ap (bit_or (a / 2 / 2 / 2)) (half_twice_half b h),
  bit_or-zero (a / 2 / 2 / 2),
)

pub flag_digits :
    (e : ℕ)
    → (map_flag e ≡ e % 2) × (redirect_flag e ≡ e / 2 % 2 * 2) × (double_flag e ≡ e / 4 % 2 * 4)
unfolding map_flag redirect_flag double_flag
flag_digits e = ((masks e).0, (masks e).1, (masks e).3)

pub value_digits : (e : ℕ) → value e ≡ e / 8
unfolding value
value_digits e = omega arith

pub entry_digits :
    (offset flags : ℕ) → flags < 8 → entry offset flags ≡ (offset * 8) % u32_mod + flags
unfolding entry
entry_digits offset flags h = omega (arith, bit_or_low ((offset * 8) % u32_mod) flags h)

pub with_digits :
    (e : ℕ)
    → (with_map e ≡ e / 2 * 2 + 1)
      × (with_redirect e ≡ e / 4 * 4 + 2 + e % 2)
      × (with_double e ≡ e / 8 * 8 + 4 + e % 4)
unfolding with_map with_redirect with_double
with_digits e = (
  omega (arith, bit_or_low e 1 (omega arith)),
  omega (arith, bit_or_low e 2 (omega arith)),
  omega (arith, bit_or_low e 4 (omega arith)),
)

-- Clearing the redirect flag clears one digit, and clearing the double flag clears two.
pub without_digits :
    (e : ℕ)
    → e < u32_mod
    → (without_redirect e ≡ e / 4 * 4 + e % 2) × (without_double e ≡ e / 16 * 16 + e % 4)
unfolding without_redirect without_double
without_digits e h = (
  omega (
    arith,
    ap (bit_or ((e / 4 * 4) % u32_mod)) (masks e).0,
    bit_or_low ((e / 4 * 4) % u32_mod) (e % 2) (omega arith),
  ),
  omega (
    arith,
    ap (bit_or ((e / 16 * 16) % u32_mod)) (masks e).2,
    bit_or_low ((e / 16 * 16) % u32_mod) (e % 4) (omega arith),
  ),
)
