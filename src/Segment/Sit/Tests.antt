-- ===== src/Segment/Sit/Tests.antt =====
-- Runs of the updates.
use hoit_f2fs.Base.{◌≡◌, true, false, ltb, ◌&&◌, refl, arith, inl, inr}
use hoit_f2fs.Segment.Sit.{
  SegEntry, SitInfo, gained, lost, count_ckpt, update_entry, set_valid, clear_valid,
  new_valid_blocks, update_sit_entry, mark_sit_entry_dirty,
}
use hoit_f2fs.Segment.Sit.Entry.{EntryCounted}
use hoit_f2fs.Segment.Sit.Counted.{SitCounted}
use hoit_f2fs.Segment.Sit.Keep.{update_sit_entry-SitCounted}
use hoit_f2fs.Segment.Sit.Again.{Reported, update_sit_entry-Reported}

-- The blocks 0 and 1 of four are valid; the last checkpoint has the blocks 1 and 2.
abbrev pub half : SegEntry
half = record {
  log_type = 4;
  valid_blocks = 2;
  ckpt_valid_blocks = 3;
  cur_valid_map = λ i. ltb i 2;
  ckpt_valid_map = λ i. ltb 0 i && ltb i 3;
  discard_map = λ i. false;
  mtime = 5;
}

-- Two sections of two such segments.
abbrev pub halves : SitInfo
halves = record {
  sentries = λ seg. half;
  sec_valid_blocks = λ sec. 4;
  dirty_sentries_bitmap = λ i. false;
  dirty_sentries = 0;
  written_valid_blocks = 8;
  max_mtime = 6;
  discard_blks = 0;
  need_fsck = false;
}

pub half-EntryCounted : EntryCounted 4 half
unfolding hoit_f2fs.Base.Arrays.count
half-EntryCounted = record { valid = refl; ckpt_valid = refl }

pub halves-SitCounted : SitCounted 4 2 2 halves
unfolding hoit_f2fs.Base.Arrays.count hoit_f2fs.Base.Arrays.sum
halves-SitCounted = record {
  entries = λ seg less. half-EntryCounted;
  written = refl;
  sections = λ sec many less. refl;
  dirty = refl;
  newest = λ seg less. omega arith;
}

-- A node block that is new counts for the checkpoint at once, and goes on doing so when it is old.
node_kept :
    ((update_sit_entry 4 false 9 2 1 3 lost
        (update_sit_entry 4 false 8 2 1 3 gained halves)).sentries
      1).ckpt_valid_blocks
    ≡ 4
unfolding update_sit_entry mark_sit_entry_dirty count_ckpt update_entry set_valid clear_valid
    new_valid_blocks
node_kept = refl

update_sit_entry-SitCounted_example :
    SitCounted 4 2 2 (update_sit_entry 4 true 9 2 3 2 gained halves)
update_sit_entry-SitCounted_example =
    update_sit_entry-SitCounted 4 2 2 (omega arith) (omega arith) (omega arith) true 9 3 2 gained
      halves halves-SitCounted (omega arith) (omega arith) refl

update_sit_entry-Reported_example : Reported 4 2 true 9 3 1 gained halves
update_sit_entry-Reported_example =
    update_sit_entry-Reported 4 2 true 9 3 1 gained halves (omega arith) (omega arith)
      half-EntryCounted refl
