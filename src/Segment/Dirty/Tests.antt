-- ===== src/Segment/Dirty/Tests.antt =====
-- Runs of the lists.
use hoit_f2fs.Base.{◌+◌, if◌then◌else◌, true, false, ◌==◌, ◌&&◌, refl, arith}
use hoit_f2fs.Base.Arrays.{count}
use hoit_f2fs.Segment.Sit.{block}
use hoit_f2fs.Segment.Sit.Tests.{halves, halves-SitCounted}
use hoit_f2fs.Segment.Dirty.{DirtySeglist, is_curseg, invalidate_blocks}
use hoit_f2fs.Segment.Dirty.Counted.{DirtyCounted}
use hoit_f2fs.Segment.Dirty.Invalidate.{Listed, Drops, invalidate_blocks-Drops}

-- No segment is dirty, and the segment 2 is prefree.
abbrev pub one_prefree : DirtySeglist
one_prefree = record {
  dirty_segmap = λ t seg. (t == 7) && (seg == 2);
  nr_dirty = λ t. if t == 7 then 1 else 0;
  victim_secmap = λ sec. false;
}

pub one_prefree-DirtyCounted : DirtyCounted 4 one_prefree
unfolding count
one_prefree-DirtyCounted = record { counts = λ t. ground arith }

one_prefree-Listed : Listed 4 2 2 (λ log. log + 20) halves one_prefree
one_prefree-Listed = record {
  sit = halves-SitCounted;
  counts = one_prefree-DirtyCounted;
  split = λ seg t less known. ground arith;
  typed = λ seg less. omega arith;
}

invalidate_blocks-Drops_example :
    Drops 4 2 2
      (λ log. log + 20)
      3
      halves
      one_prefree
      (invalidate_blocks 4 2 true 9 (λ log. log + 20) (block 3 1) halves one_prefree)
unfolding is_curseg
invalidate_blocks-Drops_example =
    invalidate_blocks-Drops 4 2 2 (λ log. log + 20) (omega arith) (omega arith) (omega arith)
      (omega arith) true 9 halves one_prefree one_prefree-Listed 3 1 (omega arith) (omega arith)
      refl refl
