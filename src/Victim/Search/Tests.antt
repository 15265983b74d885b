-- ===== src/Victim/Search/Tests.antt =====
-- Runs of the search.
use hoit_f2fs.Base.{ℕ, ◌≡◌, false, Option, none, some, ◌==◌, ◌&&◌, ◌||◌, if◌then◌else◌, refl, arith}
use hoit_f2fs.Base.Arrays.{count}
use hoit_f2fs.Base.BitSearch.Scan.{scanning, scan}
use hoit_f2fs.Segment.Sit.{SitInfo}
use hoit_f2fs.Segment.Sit.Tests.{half, halves}
use hoit_f2fs.Segment.Dirty.{DirtySeglist, null_segno}
use hoit_f2fs.Segment.Dirty.Counted.{DirtyCounted}
use hoit_f2fs.Victim.{
  Config, bg_gc, gc_normal, ssr, VictimState, select_policy, select_gc_type, get_max_cost,
  get_gc_cost, sec_usage_check, check_bg_victims,
}
use hoit_f2fs.Victim.Search.{
  Chosen, search_all, search_victim, consider, step_over, count_bits, take_victim, get_victim,
}
use hoit_f2fs.Victim.Search.Reuse.{Reuses, get_victim-Reuses}

-- Eight segments of four blocks.
abbrev eight : Config
eight = record {
  blocks_per_seg = 4;
  segs_per_sec = 1;
  main_segs = 8;
  gc_mode = gc_normal;
  max_victim_search = 4096;
  noheap = false;
  cursegs = λ log. 7;
}

-- The segment 2 keeps one block, each other one three.
abbrev sit : SitInfo
sit = record halves {
  sentries = λ seg. record half { ckpt_valid_blocks = if seg == 2 then 1 else 3 };
}

-- The segments 2, 4 and 6 are dirty.
abbrev three_dirty : DirtySeglist
three_dirty = record {
  dirty_segmap = λ t seg. (t == 1) && ((seg == 2) || (seg == 4) || (seg == 6));
  nr_dirty = λ t. if t == 1 then 3 else 0;
  victim_secmap = λ sec. false;
}

three_dirty-DirtyCounted : DirtyCounted 8 three_dirty
unfolding count
three_dirty-DirtyCounted = record { counts = λ t. ground arith }

-- The search begins at segment 4.
abbrev at_four : VictimState
at_four = record {
  last_victim = λ mode. 4;
  victim_secmap = λ sec. false;
  cur_victim_sec = null_segno;
  times = record { min_mtime = 3; max_mtime = 9 };
}

abbrev result_of : Option Chosen → ℕ
result_of none = null_segno
result_of (some r) = r.result

-- It turns at the end and finds segment 2.
finds_two : result_of (get_victim scanning eight sit three_dirty null_segno bg_gc 1 ssr at_four) ≡ 2
unfolding get_victim search_all search_victim consider step_over count_bits take_victim
    select_policy select_gc_type get_max_cost get_gc_cost sec_usage_check check_bg_victims scan
finds_two = refl

get_victim-Reuses_example :
    Reuses scanning eight sit three_dirty bg_gc 1 at_four
      (get_victim scanning eight sit three_dirty null_segno bg_gc 1 ssr at_four)
get_victim-Reuses_example =
    get_victim-Reuses scanning eight sit three_dirty bg_gc 1 at_four three_dirty-DirtyCounted
      (omega arith) (omega arith) (omega arith)
