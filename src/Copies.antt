-- ===== src/Copies.antt =====
-- The two copies of each block of the node address table (node.h) and of the segment information
-- (segment.h). A bitmap tells which of them is current.
pub mod Alternate
mod Tests
use hoit_f2fs.Base.{
  ℕ, ◌+◌, ◌-◌, ◌*◌, ◌/◌, ◌%◌, ◌^◌, Bool, not, bit_and, bit_xor, ltb, if◌then◌else◌,
}
use hoit_f2fs.Base.Arrays.{Array, update}

-- A difference of two numbers of type `pgoff_t`.
infixl 65 ◌-64◌
abbrev pub ◌-64◌ : ℕ → ℕ → ℕ
a -64 b = (a + 2 ^ 64 - b) % 2 ^ 64

-- `struct f2fs_nm_info`. `nat_entry_per_block` is the kernel's NAT_ENTRY_PER_BLOCK.
pub record NmInfo : Type 0 where
  pub nat_blkaddr : ℕ
  pub nat_bitmap : Array Bool
  pub nat_entry_per_block : ℕ
  pub log_blocks_per_seg : ℕ

-- NAT_BLOCK_OFFSET.
pub nat_block_offset : NmInfo → ℕ → ℕ
nat_block_offset nm start = start / nm.nat_entry_per_block

pub current_nat_addr : NmInfo → ℕ → ℕ
current_nat_addr nm start =
    let block_off = nat_block_offset nm start in
    let block_addr =
      nm.nat_blkaddr + block_off * 2 - bit_and block_off (2 ^ nm.log_blocks_per_seg - 1) in
    if nm.nat_bitmap block_off then block_addr + 2 ^ nm.log_blocks_per_seg else block_addr

pub next_nat_addr : NmInfo → ℕ → ℕ
next_nat_addr nm block_addr =
    (bit_xor (block_addr -64 nm.nat_blkaddr) (2 ^ nm.log_blocks_per_seg) + nm.nat_blkaddr) % 2 ^ 64

pub set_to_next_nat : NmInfo → ℕ → NmInfo
set_to_next_nat nm start =
    let block_off = nat_block_offset nm start in
    record nm { nat_bitmap = update nm.nat_bitmap block_off (not (nm.nat_bitmap block_off)) }

-- `struct sit_info`. `sit_entry_per_block` is the kernel's SIT_ENTRY_PER_BLOCK.
pub record SitCopies : Type 0 where
  pub sit_base_addr : ℕ
  pub sit_blocks : ℕ
  pub sit_bitmap : Array Bool
  pub sit_entry_per_block : ℕ

-- SIT_BLOCK_OFFSET.
pub sit_block_offset : SitCopies → ℕ → ℕ
sit_block_offset sit start = start / sit.sit_entry_per_block

pub current_sit_addr : SitCopies → ℕ → ℕ
current_sit_addr sit start =
    let offset = sit_block_offset sit start in
    let blk_addr = sit.sit_base_addr + offset in
    if sit.sit_bitmap offset then blk_addr + sit.sit_blocks else blk_addr

pub next_sit_addr : SitCopies → ℕ → ℕ
next_sit_addr sit block_addr =
    let addr = block_addr -64 sit.sit_base_addr in
    (if ltb addr sit.sit_blocks then addr + sit.sit_blocks else addr - sit.sit_blocks)
    + sit.sit_base_addr

pub set_to_next_sit : SitCopies → ℕ → SitCopies
set_to_next_sit sit start =
    let block_off = sit_block_offset sit start in
    record sit { sit_bitmap = update sit.sit_bitmap block_off (not (sit.sit_bitmap block_off)) }
