-- ===== src/Extent.antt =====
-- extent_cache.c, with extent_info and extent_tree of f2fs.h: the cached runs of consecutive pages
-- of a file that lie on consecutive blocks.
pub mod Lookup
pub mod Map
pub mod Update
use hoit_f2fs.Base.{
  ℕ, ◌+◌, ◌*◌, ◌<◌, ◌≤◌, Bool, true, false, ◌&&◌, List, ltb, leb, ◌==◌, if◌then◌else◌,
}
use hoit_f2fs.Base.Words.{◌+32◌}

pub record Extent : Type 0 where
  pub fofs : ℕ
  pub len : ℕ
  pub blk : ℕ

-- The nodes in the order of the tree, and the flag FI_NO_EXTENT of the inode.
pub record ExtentTree : Type 0 where
  pub extents : List Extent
  pub largest : Extent
  pub no_extent : Bool

-- `e->fofs + e->len`.
abbrev pub extent_end : Extent → ℕ
extent_end e = e.fofs +32 e.len

-- The test of the lookups.
abbrev pub holds_page : Extent → ℕ → Bool
holds_page e ofs = leb e.fofs ofs && ltb ofs (extent_end e)

abbrev pub is_extent_mergeable : Extent → Extent → Bool
is_extent_mergeable back front =
    (extent_end back == front.fofs) && ((back.blk +32 back.len) == front.blk)

-- `__drop_largest_extent` on the largest extent; `fofs + len` has 64 bits.
abbrev pub drop_largest_extent : ℕ → ℕ → Extent → Extent
drop_largest_extent fofs len largest =
    if ltb fofs (extent_end largest) && ltb largest.fofs (fofs + len)
    then record largest { len = 0 }
    else largest

-- `__try_update_largest_extent` on the largest extent.
abbrev pub try_update_largest_extent : Extent → Extent → Extent
try_update_largest_extent e largest = if ltb largest.len e.len then e else largest
