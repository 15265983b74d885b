-- ===== src/Acl/Size.antt =====
-- The size of an ACL tells the number of its entries.
use hoit_f2fs.Base.{ℕ, ◌+◌, ◌-◌, ◌*◌, ◌<◌, ◌≡◌, some, leb, arith, Bool-cases, inl, inr}
use hoit_f2fs.Base.Words.{u32_mod}
use hoit_f2fs.Acl.{acl_size, acl_count}

few : (count : ℕ) → count < 4 → acl_count (4 + count * 4) ≡ some count
unfolding acl_count
few count h = ground arith

many : (count : ℕ) → count < u32_mod → acl_count (20 + count * 8) ≡ some (count + 4)
unfolding acl_count
many count small = ground arith

-- The number of entries that `f2fs_acl_count` finds in the size that `f2fs_acl_size` gives.
pub acl_count-acl_size : (count : ℕ) → count < u32_mod → acl_count (acl_size count) ≡ some count
unfolding acl_size
acl_count-acl_size count small = elim (Bool-cases (leb count 3)) [
  | inl less ↦ ground (arith, few count)
  | inr more ↦ ground (arith, many (count - 4))
]
