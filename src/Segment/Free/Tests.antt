-- ===== src/Segment/Free/Tests.antt =====
-- Runs of the operations.
use hoit_f2fs.Base.{◌*◌, ◌≡◌, true, false, ltb, refl, arith}
use hoit_f2fs.Base.BitSearch.Scan.{scanning}
use hoit_f2fs.Segment.Free.{FreeSegmap, set_inuse, set_test_and_free, set_free}
use hoit_f2fs.Segment.Free.Counted.{IsCounted}
use hoit_f2fs.Segment.Free.Keep.{set_inuse-IsCounted, set_free-set_test_and_free}

-- Four sections of two segments, the first three segments in use.
abbrev pub three_used : FreeSegmap
three_used = record {
  free_segments = 5;
  free_sections = 2;
  free_segmap = λ i. ltb i 3;
  free_secmap = λ i. ltb i 2;
}

pub three_used-IsCounted : IsCounted 2 4 three_used
unfolding hoit_f2fs.Base.Arrays.count
three_used-IsCounted = record {
  segments = refl;
  sections = refl;
  used = λ seg h. ground arith;
  some_used = λ sec h. (2 * sec, omega arith, ground arith);
}

set_inuse-IsCounted_example : IsCounted 2 4 (set_inuse 2 4 three_used)
set_inuse-IsCounted_example =
    set_inuse-IsCounted 2 4 4 three_used three_used-IsCounted (omega arith) (omega arith) refl

set_free-set_test_and_free_example :
    set_free 2 scanning 2 three_used ≡ set_test_and_free 2 scanning 2 three_used
set_free-set_test_and_free_example =
    set_free-set_test_and_free 2 4 2 three_used three_used-IsCounted (omega arith) (omega arith)
      scanning refl
