-- ===== src/Nvm/Entry/Fields.antt =====
-- What the setters and getters of nvm.h's table entries do to one another.
use hoit_f2fs.Base.{ℕ, ◌*◌, ◌/◌, ◌^◌, ◌<◌, ◌≡◌, arith}
use hoit_f2fs.Base.Words.{u32_mod}
use hoit_f2fs.Nvm.Entry.{
  entry, value, map_flag, redirect_flag, double_flag, with_map, with_redirect, with_double,
  without_redirect, without_double,
}
use hoit_f2fs.Nvm.Entry.Digits.{
  flag_digits, value_digits, entry_digits, with_digits, without_digits,
}

-- The four parts of an entry.
pub record HasFields (e offset map redirect double : ℕ) : Type 0 where
  pub has_value : value e ≡ offset
  pub has_map : map_flag e ≡ map
  pub has_redirect : redirect_flag e ≡ redirect
  pub has_double : double_flag e ≡ double

-- An entry that `set_mpt_entry` stores for an offset below 2 ^ 29 and three flags reads back with
-- that offset and those flags.
pub entry-HasFields :
    (offset flags : ℕ)
    → offset < 2 ^ 29
    → flags < 8
    → HasFields
        (entry offset flags)
        offset
        (map_flag flags)
        (redirect_flag flags)
        (double_flag flags)
entry-HasFields offset flags h f = omega (
  arith,
  entry_digits offset flags f,
  value_digits (entry offset flags),
  flag_digits (entry offset flags),
  flag_digits flags,
)

-- Each of `set_map_flag`, `set_redirect_flag` and `set_double_flag` sets its flag and changes
-- nothing else in the entry.
pub with-HasFields :
    (e : ℕ)
    → HasFields (with_map e) (value e) 1 (redirect_flag e) (double_flag e)
      × HasFields (with_redirect e) (value e) (map_flag e) 2 (double_flag e)
      × HasFields (with_double e) (value e) (map_flag e) (redirect_flag e) 4
with-HasFields e = (
  omega (
    arith,
    with_digits e,
    value_digits e,
    value_digits (with_map e),
    flag_digits e,
    flag_digits (with_map e),
  ),
  omega (
    arith,
    with_digits e,
    value_digits e,
    value_digits (with_redirect e),
    flag_digits e,
    flag_digits (with_redirect e),
  ),
  omega (
    arith,
    with_digits e,
    value_digits e,
    value_digits (with_double e),
    flag_digits e,
    flag_digits (with_double e),
  ),
)

-- `clear_redirect_flag` clears its flag and changes nothing else in a 32-bit entry.
pub without_redirect-HasFields :
    (e : ℕ) → e < u32_mod → HasFields (without_redirect e) (value e) (map_flag e) 0 (double_flag e)
without_redirect-HasFields e h = omega (
  arith,
  without_digits e h,
  value_digits e,
  value_digits (without_redirect e),
  flag_digits e,
  flag_digits (without_redirect e),
)

-- `clear_double_flag` clears its flag and keeps the two others of a 32-bit entry, but it also
-- clears the lowest digit of the offset: an odd offset becomes the even one below it.
pub without_double-HasFields :
    (e : ℕ)
    → e < u32_mod
    → HasFields (without_double e) (value e / 2 * 2) (map_flag e) (redirect_flag e) 0
without_double-HasFields e h = omega (
  arith,
  without_digits e h,
  value_digits e,
  value_digits (without_double e),
  flag_digits e,
  flag_digits (without_double e),
)
