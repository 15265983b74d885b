-- ===== src/Segment/Sit/Counted.antt =====
-- What the counts of the segment information stand for.
use hoit_f2fs.Base.{ℕ, ◌+◌, ◌*◌, ◌≤◌, ◌<◌, ◌≡◌, true, ltb}
use hoit_f2fs.Base.Arrays.{Array, count, sum}
use hoit_f2fs.Segment.Sit.{SegEntry, SitInfo}
use hoit_f2fs.Segment.Sit.Entry.{is_set, EntryCounted}

abbrev pub valid_of : SegEntry → ℕ
valid_of se = se.valid_blocks

-- The entries of a section.
abbrev pub section_entries : ℕ → SitInfo → ℕ → Array SegEntry
section_entries segs_per_sec s sec i = s.sentries (sec * segs_per_sec + i)

-- Each count is that of the bitmaps below it; sections are counted where they have more than one
-- segment.
pub record SitCounted (blocks_per_seg segs_per_sec main_secs : ℕ) (s : SitInfo) : Type 0 where
  pub entries :
      (seg : ℕ) → seg < main_secs * segs_per_sec → EntryCounted blocks_per_seg (s.sentries seg)
  pub written : s.written_valid_blocks ≡ sum valid_of s.sentries (main_secs * segs_per_sec)
  pub sections :
      (sec : ℕ)
      → ltb 1 segs_per_sec ≡ true
      → sec < main_secs
      → s.sec_valid_blocks sec ≡ sum valid_of (section_entries segs_per_sec s sec) segs_per_sec
  pub dirty : s.dirty_sentries ≡ count is_set s.dirty_sentries_bitmap (main_secs * segs_per_sec)
  pub newest : (seg : ℕ) → seg < main_secs * segs_per_sec → (s.sentries seg).mtime ≤ s.max_mtime
