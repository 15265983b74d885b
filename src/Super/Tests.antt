-- ===== src/Super/Tests.antt =====
-- Runs of the checks on a small device.
use hoit_f2fs.Base.{◌+◌, ◌≡◌, Bool, true, false, refl, arith}
use hoit_f2fs.Super.{
  RawSuper, Limits, Mount, area_end, aligned_count, fix_alignment, sanity_check_area_boundary,
  wrong_sizes, wrong_counts, wrong_contents, sanity_check_raw_super,
}
use hoit_f2fs.Super.Boundary.{IsLaidOut, Fits}
use hoit_f2fs.Super.Sane.{HasNumbers, sanity_check_raw_super-HasNumbers}
use hoit_f2fs.Super.Ckpt.{Checkpoint, sanity_check_ckpt}

abbrev small_device : RawSuper
small_device = record {
  magic = 4076150800;
  log_sectorsize = 9;
  log_sectors_per_block = 3;
  log_blocksize = 12;
  log_blocks_per_seg = 9;
  segs_per_sec = 1;
  secs_per_zone = 1;
  block_count = 33280;
  section_count = 57;
  segment_count = 64;
  segment_count_ckpt = 2;
  segment_count_sit = 2;
  segment_count_nat = 2;
  segment_count_ssa = 1;
  segment_count_main = 57;
  segment0_blkaddr = 512;
  cp_blkaddr = 512;
  sit_blkaddr = 1536;
  nat_blkaddr = 2560;
  ssa_blkaddr = 3584;
  main_blkaddr = 4096;
  root_ino = 3;
  node_ino = 1;
  meta_ino = 2;
  cp_payload = 0;
  extension_count = 36;
  hot_ext_count = 1;
}

abbrev limits : Limits
limits = record {
  super_magic = 4076150800;
  blksize = 4096;
  page_size = 4096;
  max_log_sector_size = 12;
  min_log_sector_size = 9;
  max_segment = 8388608;
  min_segments = 9;
  max_extension = 64;
  cp_packs = 2;
}

abbrev mounting : RawSuper → Mount
mounting r = record { raw_super = r; need_sb_write = false }

abbrev commit : RawSuper → Bool
commit r = false

small_device_passes :
    sanity_check_raw_super limits commit false (mounting small_device)
    ≡ (false, mounting small_device)
unfolding sanity_check_raw_super wrong_sizes wrong_counts wrong_contents sanity_check_area_boundary
    area_end fix_alignment aligned_count
small_device_passes = refl

-- A count of segments beyond the areas is set right, in memory only on a device that is read.
abbrev last_segment_over : RawSuper
last_segment_over = record small_device { segment_count = 65; block_count = 34000 }

read_only_alignment : sanity_check_raw_super limits commit true (mounting last_segment_over) ≡ (
  false,
  record { raw_super = record small_device { block_count = 34000 }; need_sb_write = true },
)
unfolding sanity_check_raw_super wrong_sizes wrong_counts wrong_contents sanity_check_area_boundary
    area_end fix_alignment aligned_count
read_only_alignment = refl

-- An area of 2^23 segments more than it has passes, since its blocks are counted in 32 bits.
abbrev wrapped_area : RawSuper
wrapped_area = record small_device { segment_count_ckpt = 8388610 }

wrapped_area_passes :
    sanity_check_raw_super limits commit false (mounting wrapped_area)
    ≡ (false, mounting wrapped_area)
unfolding sanity_check_raw_super wrong_sizes wrong_counts wrong_contents sanity_check_area_boundary
    area_end fix_alignment aligned_count
wrapped_area_passes = refl

abbrev later_ckpt : Checkpoint
later_ckpt = record {
  rsvd_segment_count = 8;
  overprov_segment_count = 10;
  cur_node_segno = λ i. i + 3;
  cur_node_blkoff = λ i. 511;
  cur_data_segno = λ i. i;
  cur_data_blkoff = λ i. 0;
}

log_beyond_main :
    sanity_check_ckpt limits small_device
      (record later_ckpt { cur_data_segno = λ i. i + 55 })
      512
      false
    ≡ true
unfolding sanity_check_ckpt
log_beyond_main = refl

sanity_check_raw_super-HasNumbers_example :
    HasNumbers limits small_device
    × (small_device ≡ record small_device { segment_count = 64 })
    × IsLaidOut (record small_device { segment_count = 64 })
sanity_check_raw_super-HasNumbers_example =
    sanity_check_raw_super-HasNumbers limits (omega arith) commit false (mounting small_device)
      (mounting small_device) (omega arith) (omega arith) small_device_passes

small_device-Fits : Fits small_device
small_device-Fits = record { log = refl; addresses = omega arith; segments = omega arith }
