-- ===== src/Nvm/Segments/Tests.antt =====
-- Runs of the segment operations on a device of four segments beside an SSD of eight.
use hoit_f2fs.Base.{◌+◌, ◌<◌, ◌≡◌, ◌≢◌, ℕ, refl, true, false, arith}
use hoit_f2fs.Base.Arrays.{count}
use hoit_f2fs.Base.BitSearch.Scan.{scan, scanning}
use hoit_f2fs.Nvm.Entry.{map_flag}
use hoit_f2fs.Nvm.Entry.Digits.{flag_digits}
use hoit_f2fs.Nvm.Segments.{
  Nvm, segment, create_mapping, allocate_segment, search, take_segment, unset_mapping,
}
use hoit_f2fs.Nvm.Segments.Consistent.{Consistent}
use hoit_f2fs.Nvm.Segments.Allocate.{TakesFree, after, after-TakesFree, allocate_segment-TakesFree}
use hoit_f2fs.Nvm.Segments.Unset.{Releases, unset_mapping-Releases}

abbrev pub empty : Nvm
empty = record {
  mpt = λ i. 0;
  mpt_dirty_map = λ i. false;
  segment_map = λ i. false;
  main_segment_nums = 4;
  main_segment_free_nums = 4;
  cur_alloc_nvm_segoff = 7;
  nsb_dirty = false;
}

pub no_flag : map_flag 0 ≡ 0
no_flag = omega (arith, flag_digits 0)

pub empty-Consistent : Consistent 8 empty
unfolding count
empty-Consistent = record {
  small = omega arith;
  ssd_side = λ k h mapped. absurd (mapped no_flag);
  nvm_side = λ n h mapped. absurd (mapped no_flag);
  counted = refl;
}

-- SSD segment 5 mapped to NVM segment 0.
abbrev mapped : Nvm
mapped = after 1024 5 true 0 empty

mapped-TakesFree : TakesFree 8 5 true empty mapped 0
mapped-TakesFree =
    after-TakesFree 1024 scanning 8 5 true empty 0 empty-Consistent (omega arith) no_flag
      (omega arith) (omega arith) refl

mapped_flag : map_flag (mapped.mpt (mapped.main_segment_nums + 5)) ≢ 0
unfolding create_mapping take_segment
mapped_flag z = omega (arith, mapped-TakesFree.flagged)

mapped_free : 0 < mapped.main_segment_free_nums
mapped_free = omega (arith, mapped-TakesFree.one_less)

-- The position 7 lies past the bitmap, and the search starts again.
allocates_from_start : (allocate_segment 1024 scanning 5 false empty).0 ≡ segment 0
unfolding allocate_segment search scan
allocates_from_start = refl

allocate_segment-TakesFree_example :
    (n : ℕ) × (s' : Nvm) × (allocate_segment 1024 scanning 5 true empty ≡ (segment n, s'))
    × TakesFree 8 5 true empty s' n
allocate_segment-TakesFree_example =
    allocate_segment-TakesFree 1024 scanning 8 5 true empty empty-Consistent (omega arith) no_flag
      (omega arith)

unset_mapping-Releases_example : Releases 8 5 mapped (unset_mapping 1024 5 mapped)
unset_mapping-Releases_example =
    unset_mapping-Releases 1024 8 5 mapped mapped-TakesFree.consistent (omega arith) mapped_flag
