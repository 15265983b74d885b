-- ===== src/Segment/Sit/Again.antt =====
-- What an update leaves alone, and a block that is set or cleared twice.
use hoit_f2fs.Base.{ℕ, ◌<◌, ◌≡◌, Bool, true, false, ◌==◌, arith}
use hoit_f2fs.Base.Arrays.{Array, keeps-update}
use hoit_f2fs.Segment.Sit.{
  SegEntry, SitInfo, Delta, set_valid, clear_valid, new_valid_blocks, count_ckpt, update_entry,
  update_sit_entry, mark_sit_entry_dirty, set_sit_entry_type,
}
use hoit_f2fs.Segment.Sit.Entry.{
  changes, repeats, EntryCounted, Moved, update_entry-again, update_entry-counts,
  update_entry-Moved,
}
use hoit_f2fs.Segment.Sit.Counted.{valid_of}

module _ (blocks_per_seg segs_per_sec : ℕ) (discard_en : Bool) (now segno offset : ℕ) (del : Delta)
    (s : SitInfo) where
  abbrev after : SitInfo
  after = update_sit_entry blocks_per_seg discard_en now segs_per_sec segno offset del s

  update_entry-log_type :
      (se : SegEntry) (blks : ℕ) (bug : Bool)
      → (count_ckpt offset
          (update_entry blocks_per_seg discard_en now offset del se blks bug)).log_type
        ≡ se.log_type
  unfolding update_entry count_ckpt set_valid clear_valid new_valid_blocks
  update_entry-log_type se blks bug = ground arith

  -- The types of the segments stay.
  pub update_sit_entry-log_type :
      (seg : ℕ) → (after.sentries seg).log_type ≡ (s.sentries seg).log_type
  unfolding update_sit_entry mark_sit_entry_dirty
  update_sit_entry-log_type seg =
      keeps-update (λ (se : SegEntry). se.log_type) s.sentries segno _
        (update_entry-log_type (s.sentries segno) s.discard_blks s.need_fsck) seg

  at_place : (n : ℕ) → (n == n) ≡ true
  at_place n = ground arith

  -- What is left as it was where the block has the bit already, except that it is reported.
  pub record Reported : Type 0 where
    pub report : after.need_fsck ≡ true
    pub same_valid : (seg : ℕ) → (after.sentries seg).valid_blocks ≡ (s.sentries seg).valid_blocks
    pub same_written : after.written_valid_blocks ≡ s.written_valid_blocks
    pub same_sections : (sec : ℕ) → after.sec_valid_blocks sec ≡ s.sec_valid_blocks sec

  module _ (fits : blocks_per_seg < 1024) (inside : offset < blocks_per_seg)
      (c : EntryCounted blocks_per_seg (s.sentries segno)) where
    -- A block set where it is set already, or cleared where it is not, is reported, and no count of
    -- valid blocks changes.
    pub update_sit_entry-Reported :
        repeats del ((s.sentries segno).cur_valid_map offset) ≡ true → Reported
    unfolding update_sit_entry mark_sit_entry_dirty
    update_sit_entry-Reported twice =
        let (kept, bits, none, bug) =
          update_entry-again blocks_per_seg discard_en now fits offset inside (s.sentries segno) c
            s.discard_blks s.need_fsck del twice in
        record {
          report = bug;
          same_valid = keeps-update valid_of s.sentries segno _ kept;
          same_written = ground (arith, none);
          same_sections = λ sec. ground (arith, none);
        }

    -- The counted block of the segment, and no report.
    pub update_sit_entry-Moved :
        changes del ((s.sentries segno).cur_valid_map offset) ≡ true
        → Moved del (valid_of (s.sentries segno)) (valid_of (after.sentries segno))
          × (after.need_fsck ≡ s.need_fsck)
    unfolding update_sit_entry mark_sit_entry_dirty
    update_sit_entry-Moved fresh =
        let (moved, now_is) =
          update_entry-Moved blocks_per_seg discard_en now fits offset inside (s.sentries segno) c
            s.discard_blks s.need_fsck del fresh in
        let (e, left, bug) =
          update_entry-counts blocks_per_seg discard_en now fits offset inside (s.sentries segno) c
            s.discard_blks s.need_fsck del fresh in
        (rw (at_place segno) moved, bug)

-- A segment that changes its type keeps all else.
module _ (f : SegEntry → Array Bool) (log_type segno : ℕ) (s : SitInfo)
    (same_else : (se : SegEntry) → f (record se { log_type = log_type }) ≡ f se) where
  pub set_sit_entry_type-keeps :
      (modified : Bool) (seg : ℕ)
      → f ((set_sit_entry_type log_type segno modified s).sentries seg) ≡ f (s.sentries seg)
  unfolding set_sit_entry_type mark_sit_entry_dirty
  set_sit_entry_type-keeps true seg =
      keeps-update f s.sentries segno _ (same_else (s.sentries segno)) seg
  set_sit_entry_type-keeps false seg =
      keeps-update f s.sentries segno _ (same_else (s.sentries segno)) seg
