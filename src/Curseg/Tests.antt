-- ===== src/Curseg/Tests.antt =====
-- Runs of the two moves of a log.
use hoit_f2fs.Base.{◌≡◌, true, false, some, arith}
use hoit_f2fs.Base.Arrays.{count}
use hoit_f2fs.Base.BitSearch.Scan.{scanning}
use hoit_f2fs.Nvm.Segments.Tests.{empty, empty-Consistent, no_flag}
use hoit_f2fs.Nvm.Lfu.Tests.{read}
use hoit_f2fs.Segment.Free.Tests.{three_used, three_used-IsCounted}
use hoit_f2fs.Segment.Sit.Tests.{halves}
use hoit_f2fs.Segment.Dirty.Counted.{DirtyCounted}
use hoit_f2fs.Segment.Dirty.Tests.{one_prefree}
use hoit_f2fs.Victim.{lfs}
use hoit_f2fs.Curseg.{Logs, Options, next_hint, new_curseg, change_curseg}
use hoit_f2fs.Curseg.Opens.{Opens, new_curseg-Opens}
use hoit_f2fs.Curseg.Reuses.{ReusesSegment, change_curseg-ReusesSegment}

abbrev two_zones : Options
two_zones = record {
  geometry = record { segs_per_sec = 2; main_secs = 4; secs_per_zone = 2 };
  blocks_per_seg = 4;
  noheap = false;
  reuse = false;
  last_alloc = 0;
  entries_per_blk = 1024;
}

-- All logs stand on segment 1; the warm data log is to move to segment 2, if it is to move to a used
-- one.
abbrev at_one : Logs
at_one = record {
  logs = λ log. record { alloc_type = lfs; segno = 1; next_blkoff = 4; zone = 0; next_segno = 2 };
  segs = record { free = three_used; nvm = empty; lfu = read };
  sit = halves;
  lists = one_prefree;
}

lists-DirtyCounted : DirtyCounted 8 one_prefree
unfolding count
lists-DirtyCounted = record { counts = λ t. ground arith }

new_curseg-Opens_example :
    (l' : Logs) × (new_curseg scanning two_zones 1 true true at_one ≡ some l')
    × Opens two_zones 1 true at_one l'
unfolding next_hint
new_curseg-Opens_example =
    new_curseg-Opens scanning two_zones 1 at_one
      (record { counted = three_used-IsCounted; consistent = empty-Consistent })
      (λ seg less free. no_flag) (omega arith) true true (omega arith) (omega arith)

change_curseg-ReusesSegment_example :
    ReusesSegment two_zones 1 2 at_one (change_curseg scanning two_zones 1 at_one)
change_curseg-ReusesSegment_example =
    change_curseg-ReusesSegment scanning two_zones 1 at_one three_used-IsCounted lists-DirtyCounted
      (omega arith) (omega arith)
