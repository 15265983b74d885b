-- ===== src/Curseg/Types/Kinds.antt =====
-- A write goes to a log of its own kind.
use hoit_f2fs.Base.{ℕ, ◌<◌, ◌≡◌, true, not, ◌||◌, ◌==◌, arith}
use hoit_f2fs.Segment.Sit.{is_nodeseg}
use hoit_f2fs.Curseg.Types.{
  WriteHint, not_set, no_hint, short, medium, long, extreme, is_data, PageInfo, rw_hint_to_seg_type,
  segment_type_2, segment_type_4, segment_type_6, get_segment_type,
}

hint_type : (h : WriteHint) → rw_hint_to_seg_type h < 3
unfolding rw_hint_to_seg_type
hint_type not_set = omega arith
hint_type no_hint = omega arith
hint_type short = omega arith
hint_type medium = omega arith
hint_type long = omega arith
hint_type extreme = omega arith

-- With two, four or six logs, `__get_segment_type` returns one of the six types of logs, one for
-- nodes exactly where the write is not one of data.
get_segment_type_kind :
    (active_logs : ℕ) (p : PageInfo)
    → ((active_logs == 2) || (active_logs == 4) || (active_logs == 6)) ≡ true
    → ((get_segment_type active_logs p).0 < 6)
      × (is_nodeseg (get_segment_type active_logs p).0 ≡ not (is_data p.page_type))
unfolding get_segment_type segment_type_2 segment_type_4 segment_type_6
get_segment_type_kind active_logs p known =
    let hint = hint_type p.write_hint in (ground (arith, hint), ground (arith, hint))
