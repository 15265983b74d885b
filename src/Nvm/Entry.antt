-- ===== src/Nvm/Entry.antt =====
-- The entries of the mapping table of nvm.h: a segment offset above three flags.
pub mod Digits
pub mod Fields
mod Tests
use hoit_f2fs.Base.{ℕ, ◌+◌, ◌-◌, ◌*◌, ◌/◌, ◌%◌, ◌^◌, ◌<◌, ◌≡◌, max, bit_and, bit_or, arith}
use hoit_f2fs.Base.Words.{u32_mod}

abbrev pub rw_map : ℕ
rw_map = 1

abbrev pub rw_redirect : ℕ
rw_redirect = 2

abbrev pub rw_double : ℕ
rw_double = 4

abbrev pub rw_bits : ℕ
rw_bits = 3

-- `x << k` and `x >> k` on an `unsigned int`.
abbrev pub shl : ℕ → ℕ → ℕ
shl x k = (x * 2 ^ k) % u32_mod

abbrev pub shr : ℕ → ℕ → ℕ
shr x k = x / 2 ^ k

-- The entry that `set_mpt_entry` stores.
pub entry : ℕ → ℕ → ℕ
entry offset rw_flag = bit_or (shl offset rw_bits) rw_flag

pub value : ℕ → ℕ
value e = shr e rw_bits

pub map_flag : ℕ → ℕ
map_flag e = bit_and e rw_map

pub redirect_flag : ℕ → ℕ
redirect_flag e = bit_and e rw_redirect

pub double_flag : ℕ → ℕ
double_flag e = bit_and e rw_double

-- What `set_map_flag`, `set_redirect_flag` and `set_double_flag` store.
pub with_map : ℕ → ℕ
with_map e = bit_or e rw_map

pub with_redirect : ℕ → ℕ
with_redirect e = bit_or e rw_redirect

pub with_double : ℕ → ℕ
with_double e = bit_or e rw_double

-- What `clear_redirect_flag` and `clear_double_flag` store.
pub without_redirect : ℕ → ℕ
without_redirect e =
    let low = bit_and e (rw_redirect - 1) in bit_or (shl (shr e rw_redirect) rw_redirect) low

pub without_double : ℕ → ℕ
without_double e =
    let low = bit_and e (rw_double - 1) in bit_or (shl (shr e rw_double) rw_double) low
