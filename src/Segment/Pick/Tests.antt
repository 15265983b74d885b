-- ===== src/Segment/Pick/Tests.antt =====
-- Runs of the search.
use hoit_f2fs.Base.{◌≡◌, true, ◌==◌, refl, arith}
use hoit_f2fs.Base.BitSearch.Scan.{scanning}
use hoit_f2fs.Segment.Free.Tests.{three_used, three_used-IsCounted}
use hoit_f2fs.Segment.Pick.{Geometry, alloc_left, alloc_right, section, other_zone, get_new_segment}
use hoit_f2fs.Segment.Pick.Takes.{TakesFree, get_new_segment-TakesFree}
use hoit_f2fs.Segment.Pick.Left.{other_zone-stays_left}

-- Two zones of two sections of two segments.
abbrev two_zones : Geometry
two_zones = record { segs_per_sec = 2; main_secs = 4; secs_per_zone = 2 }

-- The zone of the hint's section is in use, as is the first one.
get_new_segment-TakesFree_example :
    TakesFree two_zones three_used
      (get_new_segment scanning two_zones (λ z. z == 1) 1 true alloc_right three_used)
get_new_segment-TakesFree_example =
    get_new_segment-TakesFree scanning two_zones three_used three_used-IsCounted (omega arith)
      (omega arith) (λ z. z == 1) 1 true alloc_right (omega arith)

other_zone-stays_left_example :
    other_zone scanning two_zones (λ z. z == 1) alloc_left 0 (section 2 true) three_used.free_secmap
    ≡ section 2 true
other_zone-stays_left_example =
    other_zone-stays_left scanning two_zones three_used.free_secmap (λ z. z == 1) alloc_left 0 2
      refl (omega arith)
