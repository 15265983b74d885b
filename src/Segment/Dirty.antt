-- ===== src/Segment/Dirty.antt =====
-- The dirty segments: `struct dirty_seglist_info` of segment.h and its functions in segment.c. The
-- flag that `f2fs_bug_on` sets for a segment of no type is left out.
pub mod Counted
pub mod Invalidate
pub mod Locate
pub mod Tests
use hoit_f2fs.Base.{
  ℕ, ◌+◌, ◌-◌, ◌/◌, ◌%◌, ◌^◌, Bool, true, false, ◌||◌, leb, ltb, ◌==◌, if◌then◌else◌,
}
use hoit_f2fs.Base.Arrays.{Array, update}
use hoit_f2fs.Segment.Sit.{
  SitInfo, BlockAddr, null_addr, new_addr, block, lost, update_sit_entry, get_valid_blocks,
}

-- The types of `enum dirty_type`: 0 to 5 are those of the logs.
abbrev pub dirty : ℕ
dirty = 6

abbrev pub pre : ℕ
pre = 7

pub record DirtySeglist : Type 0 where
  pub dirty_segmap : Array (Array Bool)
  pub nr_dirty : Array ℕ
  pub victim_secmap : Array Bool

-- `test_and_set_bit` and `test_and_clear_bit` on the bitmap of a type, with its count.
pub set_dirty : ℕ → ℕ → DirtySeglist → DirtySeglist
set_dirty t segno d = record d {
  dirty_segmap = update d.dirty_segmap t (update (d.dirty_segmap t) segno true);
  nr_dirty =
      update d.nr_dirty t (if d.dirty_segmap t segno then d.nr_dirty t else d.nr_dirty t + 1);
}

pub clear_dirty : ℕ → ℕ → DirtySeglist → DirtySeglist
clear_dirty t segno d = record d {
  dirty_segmap = update d.dirty_segmap t (update (d.dirty_segmap t) segno false);
  nr_dirty =
      update d.nr_dirty t (if d.dirty_segmap t segno then d.nr_dirty t - 1 else d.nr_dirty t);
}

-- `dirty_segments`.
pub dirty_segments : DirtySeglist → ℕ
dirty_segments d =
    d.nr_dirty 0 + d.nr_dirty 1 + d.nr_dirty 2 + d.nr_dirty 3 + d.nr_dirty 4 + d.nr_dirty 5

-- IS_CURSEG: `cursegs` has the segment of each log.
unfoldable pub is_curseg : Array ℕ → ℕ → Bool
is_curseg cursegs segno =
    (segno == cursegs 0)
    || (segno == cursegs 1)
    || (segno == cursegs 2)
    || (segno == cursegs 3)
    || (segno == cursegs 4)
    || (segno == cursegs 5)

abbrev pub null_segno : ℕ
null_segno = 2 ^ 32 - 1

module _ (segs_per_sec : ℕ) (cursegs : Array ℕ) (s : SitInfo) where
  -- `__locate_dirty_segment`.
  pub locate_in : ℕ → ℕ → DirtySeglist → DirtySeglist
  unfolding set_dirty
  locate_in segno dirty_type d =
      let t = (s.sentries segno).log_type in
      let located = set_dirty dirty_type segno d in
      if is_curseg cursegs segno
      then d
      else if dirty_type == dirty
      then (if leb dirty t then located else set_dirty t segno located)
      else located

  -- `__remove_dirty_segment`.
  pub remove_from : ℕ → ℕ → DirtySeglist → DirtySeglist
  unfolding clear_dirty
  remove_from segno dirty_type d =
      let removed = clear_dirty dirty_type segno d in
      let both = clear_dirty (s.sentries segno).log_type segno removed in
      if dirty_type == dirty
      then (if get_valid_blocks segs_per_sec segno true s == 0
          then record both {
            victim_secmap = update both.victim_secmap (segno / segs_per_sec) false;
          }
          else both)
      else removed

  module _ (blocks_per_seg : ℕ) where
    pub locate_dirty_segment : ℕ → DirtySeglist → DirtySeglist
    unfolding locate_in remove_from
    locate_dirty_segment segno d =
        let valid_blocks = get_valid_blocks segs_per_sec segno false s in
        if (segno == null_segno) || is_curseg cursegs segno
        then d
        else if valid_blocks == 0
        then remove_from segno dirty (locate_in segno pre d)
        else if ltb valid_blocks blocks_per_seg
        then locate_in segno dirty d
        else remove_from segno dirty d

-- How `f2fs_invalidate_blocks` ends; for NULL_ADDR it would go on with the segment NULL_SEGNO,
-- which has no entry.
pub data Invalidated : Type 0 where
  invalidated : SitInfo → DirtySeglist → Invalidated
  bad_address : Invalidated

module _ (blocks_per_seg segs_per_sec : ℕ) (discard_en : Bool) (now : ℕ) (cursegs : Array ℕ) where
  pub invalidate_blocks : BlockAddr → SitInfo → DirtySeglist → Invalidated
  unfolding locate_dirty_segment
  invalidate_blocks null_addr s d = bad_address
  invalidate_blocks new_addr s d = invalidated s d
  invalidate_blocks (block segno offset) s d =
      let t = update_sit_entry blocks_per_seg discard_en now segs_per_sec segno offset lost s in
      invalidated t (locate_dirty_segment segs_per_sec cursegs t blocks_per_seg segno d)
