-- ===== src/Super.antt =====
-- The checks of super.c on what a mount reads: the super block and the checkpoint.
pub mod Boundary
pub mod Sane
pub mod Ckpt
pub mod FileBlocks
mod Tests
use hoit_f2fs.Base.{
  ℕ, zero, suc, ◌+◌, ◌-◌, ◌*◌, ◌/◌, ◌%◌, ◌^◌, Bool, true, false, not, ◌&&◌, ◌||◌, ltb, leb, ◌==◌,
  if◌then◌else◌,
}
use hoit_f2fs.Base.Words.{u32_mod, ◌+32◌}
use hoit_f2fs.Base.Arrays.{Array}

-- The fields of `struct f2fs_super_block` that the checks read.
pub record RawSuper : Type 0 where
  pub magic : ℕ
  pub log_sectorsize : ℕ
  pub log_sectors_per_block : ℕ
  pub log_blocksize : ℕ
  pub log_blocks_per_seg : ℕ
  pub segs_per_sec : ℕ
  pub secs_per_zone : ℕ
  pub block_count : ℕ
  pub section_count : ℕ
  pub segment_count : ℕ
  pub segment_count_ckpt : ℕ
  pub segment_count_sit : ℕ
  pub segment_count_nat : ℕ
  pub segment_count_ssa : ℕ
  pub segment_count_main : ℕ
  pub segment0_blkaddr : ℕ
  pub cp_blkaddr : ℕ
  pub sit_blkaddr : ℕ
  pub nat_blkaddr : ℕ
  pub ssa_blkaddr : ℕ
  pub main_blkaddr : ℕ
  pub root_ino : ℕ
  pub node_ino : ℕ
  pub meta_ino : ℕ
  pub cp_payload : ℕ
  pub extension_count : ℕ
  pub hot_ext_count : ℕ

-- The constants of the kernel's f2fs_fs.h and PAGE_SIZE.
pub record Limits : Type 0 where
  pub super_magic : ℕ
  pub blksize : ℕ
  pub page_size : ℕ
  pub max_log_sector_size : ℕ
  pub min_log_sector_size : ℕ
  pub max_segment : ℕ
  pub min_segments : ℕ
  pub max_extension : ℕ
  pub cp_packs : ℕ

-- The super block in memory, and the flag SBI_NEED_SB_WRITE.
pub record Mount : Type 0 where
  pub raw_super : RawSuper
  pub need_sb_write : Bool

-- `start + (count << log)` of two `u32`.
pub area_end : ℕ → ℕ → ℕ → ℕ
area_end start count log = start +32 ((count * 2 ^ log) % u32_mod)

-- The new count of segments, `(main_end_blkaddr - segment0_blkaddr) >> log` in 64 bits, cut to 32.
pub aligned_count : ℕ → ℕ → ℕ → ℕ
aligned_count main_end segment0 log =
    (((main_end + 2 ^ 64 - segment0) % 2 ^ 64) / 2 ^ log) % u32_mod

-- Where the end of the main area lies before that of the segments. `commit_fails` is what
-- `__f2fs_commit_super` returns for the super block.
pub fix_alignment : (RawSuper → Bool) → Bool → ℕ → Mount → Bool × Mount
fix_alignment commit_fails readonly main_end m =
    let r = m.raw_super in
    let r' = record r {
      segment_count = aligned_count main_end r.segment0_blkaddr r.log_blocks_per_seg;
    } in
    if readonly
    then (false, record { raw_super = r'; need_sb_write = true })
    else (commit_fails r', record m { raw_super = r' })

-- `true` where the super block is refused.
pub sanity_check_area_boundary : (RawSuper → Bool) → Bool → Mount → Bool × Mount
sanity_check_area_boundary commit_fails readonly m =
    let r = m.raw_super in
    let log = r.log_blocks_per_seg in
    let main_end = area_end r.main_blkaddr r.segment_count_main log in
    let seg_end = area_end r.segment0_blkaddr r.segment_count log in
    if not (r.segment0_blkaddr == r.cp_blkaddr)
    then (true, m)
    else if not (area_end r.cp_blkaddr r.segment_count_ckpt log == r.sit_blkaddr)
    then (true, m)
    else if not (area_end r.sit_blkaddr r.segment_count_sit log == r.nat_blkaddr)
    then (true, m)
    else if not (area_end r.nat_blkaddr r.segment_count_nat log == r.ssa_blkaddr)
    then (true, m)
    else if not (area_end r.ssa_blkaddr r.segment_count_ssa log == r.main_blkaddr)
    then (true, m)
    else if ltb seg_end main_end
    then (true, m)
    else if ltb main_end seg_end
    then fix_alignment commit_fails readonly main_end m
    else (false, m)

module _ (l : Limits) where
  -- The checks of the magic number and of the sizes of blocks, segments and sectors.
  pub wrong_sizes : RawSuper → Bool
  wrong_sizes r =
      not (l.super_magic == r.magic)
      || not (l.blksize == l.page_size)
      || not ((2 ^ r.log_blocksize) % u32_mod == l.blksize)
      || not (r.log_blocks_per_seg == 9)
      || (ltb l.max_log_sector_size r.log_sectorsize || ltb r.log_sectorsize l.min_log_sector_size)
      || not (r.log_sectors_per_block +32 r.log_sectorsize == l.max_log_sector_size)

  -- Those of the numbers of segments, sections and zones.
  pub wrong_counts : RawSuper → Bool
  wrong_counts r =
      (ltb l.max_segment r.segment_count || ltb r.segment_count l.min_segments)
      || (ltb r.segment_count r.section_count
          || ltb r.section_count l.min_segments
          || ltb r.segment_count r.segs_per_sec
          || r.segs_per_sec == 0)
      || ltb (r.segment_count / r.segs_per_sec) r.section_count
      || ltb (r.block_count / 2 ^ 9) r.segment_count
      || ltb r.section_count r.secs_per_zone

  -- Those of the extension list, the payload of the checkpoint and the inodes of the file system.
  pub wrong_contents : RawSuper → Bool
  wrong_contents r =
      (ltb l.max_extension r.extension_count
        || ltb l.max_extension r.hot_ext_count
        || ltb l.max_extension (r.extension_count +32 r.hot_ext_count))
      || ltb (2 ^ r.log_blocks_per_seg - l.cp_packs) r.cp_payload
      || (not (r.node_ino == 1) || not (r.meta_ino == 2) || not (r.root_ino == 3))

  pub sanity_check_raw_super : (RawSuper → Bool) → Bool → Mount → Bool × Mount
  sanity_check_raw_super commit_fails readonly m =
      if wrong_sizes m.raw_super
      then (true, m)
      else if wrong_counts m.raw_super
      then (true, m)
      else if wrong_contents m.raw_super
      then (true, m)
      else sanity_check_area_boundary commit_fails readonly m
