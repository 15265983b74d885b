-- ===== src/Segment/Prefree/Tests.antt =====
-- Runs of the two functions.
use hoit_f2fs.Base.{
  ℕ, ◌≡◌, true, false, ◌||◌, ◌&&◌, Option, none, some, ◌==◌, if◌then◌else◌, refl, arith,
}
use hoit_f2fs.Base.BitSearch.Scan.{scanning, scan}
use hoit_f2fs.Nvm.Segments.Tests.{empty, empty-Consistent, no_flag}
use hoit_f2fs.Nvm.Segments.Allocate.{TakesFree, after, after-TakesFree}
use hoit_f2fs.Nvm.Lfu.Tests.{read}
use hoit_f2fs.Segment.Free.Tests.{three_used, three_used-IsCounted}
use hoit_f2fs.Segment.Dirty.{pre, DirtySeglist}
use hoit_f2fs.Segment.Dirty.Tests.{one_prefree, one_prefree-DirtyCounted}
use hoit_f2fs.Segment.Prefree.{
  Segments, set_prefree_as_free_segments, Discards, clear_prefree_segments, clear_prefree,
  clear_bits, skip_sections,
}
use hoit_f2fs.Segment.Prefree.Frees.{Frees, set_prefree_as_free_segments-Frees}
use hoit_f2fs.Segment.Prefree.Clears.{Cleared, clear_prefree_segments-Cleared}

-- The prefree segment 2 is mapped to the NVM segment 0.
abbrev both : Segments
both = record { free = three_used; nvm = after 1024 2 true 0 empty; lfu = read }

mapped-TakesFree : TakesFree 8 2 true empty both.nvm 0
mapped-TakesFree =
    after-TakesFree 1024 scanning 8 2 true empty 0 empty-Consistent (omega arith) no_flag
      (omega arith) (omega arith) refl

set_prefree_as_free_segments-Frees_example :
    Frees 2 4
      (one_prefree.dirty_segmap pre)
      8
      both
      (set_prefree_as_free_segments 2 1024 scanning 8 one_prefree both)
set_prefree_as_free_segments-Frees_example =
    set_prefree_as_free_segments-Frees 2 1024 4 scanning (omega arith) one_prefree both
      (record { counted = three_used-IsCounted; consistent = mapped-TakesFree.consistent })

abbrev no_discard : Discards
no_discard = record { discard = false; force = false; trim_start = 0; trim_end = 0; lfs = true }

clear_prefree_segments-Cleared_example :
    (d' : DirtySeglist) × (clear_prefree_segments scanning 2 4 no_discard one_prefree ≡ some d')
    × Cleared 4 one_prefree d'
clear_prefree_segments-Cleared_example =
    clear_prefree_segments-Cleared scanning 2 4 no_discard (λ start end. refl) one_prefree
      one_prefree-DirtyCounted

-- With discards by whole sections of four segments, the second prefree segment of the section is
-- passed over and stays prefree.
abbrev two_prefree : DirtySeglist
two_prefree = record {
  dirty_segmap = λ t seg. (t == 7) && ((seg == 0) || (seg == 2));
  nr_dirty = λ t. if t == 7 then 2 else 0;
  victim_secmap = λ sec. false;
}

abbrev by_sections : Discards
by_sections = record { discard = true; force = false; trim_start = 0; trim_end = 0; lfs = true }

abbrev left_over : Option DirtySeglist → ℕ
left_over (some d) = d.nr_dirty pre
left_over none = 0

second_stays_prefree : left_over (clear_prefree_segments scanning 4 8 by_sections two_prefree) ≡ 1
unfolding clear_prefree_segments clear_prefree clear_bits skip_sections scan
second_stays_prefree = refl
