-- ===== src/Dir.antt =====
-- Directories in dir.c: the blocks of the hash levels, the search for a place in a dentry block, and the
-- test for an empty directory.
pub mod Dentry
pub mod Empty
pub mod Levels
pub mod Room
mod Tests
use hoit_f2fs.Base.{
  ℕ, zero, suc, ◌+◌, ◌-◌, ◌*◌, ◌/◌, ◌%◌, ◌^◌, ◌≤◌, ltb, Bool, Option, none, some, leb,
  if◌then◌else◌,
}
use hoit_f2fs.Base.Arrays.{Array}
use hoit_f2fs.Base.BitSearch.{BitSearch}

-- `f2fs_room_for_filename` from `next:` on; `none` where it would still go on after that many rounds.
pub room_from : BitSearch → Array Bool → ℕ → ℕ → ℕ → ℕ → Option ℕ
room_from b bitmap slots max_slots zero bit_start = none
room_from b bitmap slots max_slots (suc rounds) bit_start =
    let zero_start = b.find_next_zero_bit bitmap max_slots bit_start in
    let zero_end = b.find_next_bit bitmap max_slots zero_start in
    let rest = room_from b bitmap slots max_slots rounds (zero_end + 1) in
    if leb max_slots zero_start
    then some max_slots
    else if leb slots (zero_end - zero_start)
    then some zero_start
    else if leb max_slots (zero_end + 1)
    then some max_slots
    else rest

-- The rounds are enough (see Dir/Room).
pub room_for_filename : BitSearch → Array Bool → ℕ → ℕ → Option ℕ
unfolding room_from
room_for_filename b bitmap slots max_slots = room_from b bitmap slots max_slots (max_slots + 1) 0

-- A product of two numbers of type `unsigned int`.
unfoldable pub product : ℕ → ℕ → ℕ
product a b = (a * b) % 2 ^ 32

-- MAX_DIR_HASH_DEPTH and MAX_DIR_BUCKETS stand in the kernel's f2fs_fs.h.
module _ (max_depth max_buckets : ℕ) where
  pub dir_buckets : ℕ → ℕ → ℕ
  dir_buckets level dir_level =
      if ltb (level + dir_level) (max_depth / 2) then 2 ^ (level + dir_level) else max_buckets

  pub bucket_blocks : ℕ → ℕ
  bucket_blocks level = if ltb level (max_depth / 2) then 2 else 4

  -- The loop of `dir_block_index`: the blocks of the levels before.
  pub blocks_before : ℕ → ℕ → ℕ
  blocks_before zero dir_level = 0
  blocks_before (suc level) dir_level =
      blocks_before level dir_level + product (dir_buckets level dir_level) (bucket_blocks level)

  pub dir_block_index : ℕ → ℕ → ℕ → ℕ
  dir_block_index level dir_level idx =
      blocks_before level dir_level + product idx (bucket_blocks level)
