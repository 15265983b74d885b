-- ===== src/Dir/Empty.antt =====
-- `f2fs_empty_dir`, and `f2fs_empty_inline_dir` of inline.c.
use hoit_f2fs.Base.{
  ℕ, zero, suc, ◌+◌, ◌≤◌, ◌<◌, ◌≡◌, ◌⊎◌, ltb, ◌==◌, Bool, true, false, Option, none, some,
  if◌then◌else◌, refl, arith, inl, inr, Bool-cases,
}
use hoit_f2fs.Base.Arrays.{Array}
use hoit_f2fs.Base.BitSearch.{BitSearch}
pub mod Tells
mod Tests

-- What `f2fs_get_lock_data_page` gives for a block: its bitmap of dentries, or an error.
pub data BlockRead : Type 0 where
  page : Array Bool → BlockRead
  enoent : BlockRead
  other_error : BlockRead

-- A directory: its inline dentries, so many, with their bitmap, or none where the inode's page cannot
-- be read; or its blocks, and how many there are.
pub data Directory : Type 0 where
  inline_dentries : ℕ → Option (Array Bool) → Directory
  blocks : Array BlockRead → ℕ → Directory

-- The dot entries of the first block do not count.
pub first_bit : ℕ → ℕ
first_bit bidx = if bidx == 0 then 2 else 0

module _ (b : BitSearch) (nr_dentry_in_block : ℕ) where
  -- Whether the loop goes on after a block.
  pub goes_on : BlockRead → ℕ → Bool
  goes_on (page bitmap) bidx =
      if ltb (b.find_next_bit bitmap nr_dentry_in_block (first_bit bidx)) nr_dentry_in_block
      then false
      else true
  goes_on enoent bidx = true
  goes_on other_error bidx = false

  -- The loop of `f2fs_empty_dir` from `bidx` on, over so many blocks.
  pub empty_from : Array BlockRead → ℕ → ℕ → Bool
  empty_from read zero bidx = true
  empty_from read (suc left) bidx =
      let rest = empty_from read left (bidx + 1) in if goes_on (read bidx) bidx then rest else false

  pub empty_inline_dir : ℕ → Option (Array Bool) → Bool
  empty_inline_dir max none = false
  empty_inline_dir max (some bitmap) =
      if ltb (b.find_next_bit bitmap max 2) max then false else true

  pub empty_dir : Directory → Bool
  unfolding empty_from empty_inline_dir
  empty_dir (inline_dentries max read) = empty_inline_dir max read
  empty_dir (blocks read nblock) = empty_from read nblock 0
