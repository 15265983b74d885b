-- ===== src/Segment/Dirty/Invalidate.antt =====
-- `f2fs_invalidate_blocks`: an old block is counted no more, and its segment is listed anew.
use hoit_f2fs.Base.{ℕ, ◌+◌, ◌*◌, ◌^◌, ◌<◌, ◌≡◌, Bool, true, false, ◌||◌, ltb, ◌==◌, refl, arith}
use hoit_f2fs.Base.Arrays.{Array, count-le}
use hoit_f2fs.Segment.Sit.{SitInfo, block, lost, update_sit_entry}
use hoit_f2fs.Segment.Sit.Again.{update_sit_entry-log_type, update_sit_entry-Moved}
use hoit_f2fs.Segment.Sit.Counted.{SitCounted}
use hoit_f2fs.Segment.Sit.Entry.{is_set}
use hoit_f2fs.Segment.Sit.Keep.{update_sit_entry-SitCounted}
use hoit_f2fs.Segment.Dirty.{
  dirty, pre, DirtySeglist, is_curseg, null_segno, Invalidated, invalidated, locate_dirty_segment,
  invalidate_blocks,
}
use hoit_f2fs.Segment.Dirty.Counted.{DirtyCounted, IsSplit}
use hoit_f2fs.Segment.Dirty.Locate.{
  locate_dirty_segment-Classifies, locate_dirty_segment-IsSplit, locate_dirty_segment-DirtyCounted,
}

module _ (blocks_per_seg segs_per_sec main_secs : ℕ) (cursegs : Array ℕ) where
  -- What stands for the right counts and lists of all segments.
  pub record Listed (s : SitInfo) (d : DirtySeglist) : Type 0 where
    pub sit : SitCounted blocks_per_seg segs_per_sec main_secs s
    pub counts : DirtyCounted (main_secs * segs_per_sec) d
    pub split : IsSplit (main_secs * segs_per_sec) s d
    pub typed : (seg : ℕ) → seg < main_secs * segs_per_sec → (s.sentries seg).log_type < 6

  -- The block is gone, and the segment is listed by what is left of it.
  pub record Drops (segno : ℕ) (s : SitInfo) (d : DirtySeglist) (r : Invalidated) : Type 0 where
    pub sit : SitInfo
    pub lists : DirtySeglist
    pub ends : r ≡ invalidated sit lists
    pub one_less : (sit.sentries segno).valid_blocks + 1 ≡ (s.sentries segno).valid_blocks
    pub is_dirty : lists.dirty_segmap dirty segno ≡ ltb 0 (sit.sentries segno).valid_blocks
    pub is_pre :
        lists.dirty_segmap pre segno
        ≡ (((sit.sentries segno).valid_blocks == 0) || d.dirty_segmap pre segno)
    pub no_report : sit.need_fsck ≡ s.need_fsck
    pub still : Listed sit lists

  module _ (some_seg : 0 < segs_per_sec) (fits : blocks_per_seg < 1024)
      (small : main_secs * segs_per_sec * blocks_per_seg < 2 ^ 32)
      (few : main_secs * segs_per_sec < null_segno) (discard_en : Bool) (now : ℕ) (s : SitInfo)
      (d : DirtySeglist) (h : Listed s d) (segno offset : ℕ)
      (in_main : segno < main_secs * segs_per_sec) (inside : offset < blocks_per_seg) where
    -- Where the counts and lists are right, `f2fs_invalidate_blocks` on a valid block of a segment
    -- that no log writes to counts one valid block less, lists the segment as prefree if that was the
    -- last one and as dirty if not, reports nothing, and leaves the counts and lists right.
    pub invalidate_blocks-Drops :
        (s.sentries segno).cur_valid_map offset ≡ true
        → is_curseg cursegs segno ≡ false
        → Drops segno s d (
            invalidate_blocks blocks_per_seg segs_per_sec discard_en now cursegs
              (block segno offset)
              s
              d)
    unfolding invalidate_blocks
    invalidate_blocks-Drops set idle =
        let t = update_sit_entry blocks_per_seg discard_en now segs_per_sec segno offset lost s in
        let types =
          update_sit_entry-log_type blocks_per_seg segs_per_sec discard_en now segno offset lost
            s in
        let c = h.sit.entries segno in_main in
        let most = count-le is_set (s.sentries segno).cur_valid_map blocks_per_seg in
        let (gone, quiet) =
          update_sit_entry-Moved blocks_per_seg segs_per_sec discard_en now segno offset lost s fits
            inside c set in
        let sit' =
          update_sit_entry-SitCounted blocks_per_seg segs_per_sec main_secs some_seg fits small
            discard_en now segno offset lost s h.sit in_main inside set in
        let typed' : (seg : ℕ) → seg < main_secs * segs_per_sec → (t.sentries seg).log_type < 6 =
          λ seg less. omega (arith, types seg, h.typed seg less) in
        let split' : IsSplit (main_secs * segs_per_sec) t d =
          λ seg u less known. ground (arith, types seg, h.split seg u less known) in
        let k =
          locate_dirty_segment-Classifies segs_per_sec blocks_per_seg cursegs t segno d
            (typed' segno in_main) idle (omega arith) in
        record {
          sit = t;
          lists = locate_dirty_segment segs_per_sec cursegs t blocks_per_seg segno d;
          ends = refl;
          one_less = gone;
          is_dirty = ground (arith, k.is_dirty, gone, most, c.valid);
          is_pre = k.is_pre;
          no_report = quiet;
          still = record {
            sit = sit';
            counts =
                locate_dirty_segment-DirtyCounted segs_per_sec blocks_per_seg cursegs t segno d
                  (main_secs * segs_per_sec) in_main h.counts;
            split =
                locate_dirty_segment-IsSplit segs_per_sec blocks_per_seg cursegs t segno d
                  (typed' segno in_main) idle (omega arith) (main_secs * segs_per_sec) split';
            typed = typed';
          };
        }
