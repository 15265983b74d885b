-- ===== src/Nvm/Cleaner.antt =====
-- The choice of the segments to move in nvm.c: `get_max_k` chooses the NVM segments with the
-- fewest counted reads, and `get_min_k` the SSD segments with the most.
pub mod Choice
mod Tests
use hoit_f2fs.Base.{
  ℕ, ◌+◌, ◌-◌, ◌*◌, ◌/◌, ◌≤◌, Bool, true, false, not, ◌&&◌, ◌||◌, Option, none, some, ltb, leb,
  ◌==◌, if◌then◌else◌,
}
use hoit_f2fs.Nvm.Entry.{value, map_flag, double_flag}
use hoit_f2fs.Nvm.Segments.{Nvm, ssd_index}
use hoit_f2fs.Nvm.Heap.{Kind, largest, smallest, HeapNode, Heap}
use hoit_f2fs.Nvm.Lfu.{Lfu, calc_count}
use hoit_f2fs.Nvm.TopK.{top_k}

-- The segments of the six logs, and what decides on a section.
pub record Sections : Type 0 where
  pub hot_data : ℕ
  pub warm_data : ℕ
  pub cold_data : ℕ
  pub hot_node : ℕ
  pub warm_node : ℕ
  pub cold_node : ℕ
  pub segs_per_sec : ℕ
  pub cur_victim_sec : ℕ

abbrev pub sec_from_seg : Sections → ℕ → ℕ
sec_from_seg c segno = segno / c.segs_per_sec

-- IS_CURSEC.
abbrev pub is_cursec : Sections → ℕ → Bool
is_cursec c secno =
    (secno == sec_from_seg c c.hot_data)
    || (secno == sec_from_seg c c.warm_data)
    || (secno == sec_from_seg c c.cold_data)
    || (secno == sec_from_seg c c.hot_node)
    || (secno == sec_from_seg c c.warm_node)
    || (secno == sec_from_seg c c.cold_node)

abbrev pub sec_usage_check : Sections → ℕ → Bool
sec_usage_check c secno = is_cursec c secno || (c.cur_victim_sec == secno)

pub data Outcome : Type 0 where
  picked no_cold no_hot : Outcome

-- `reset_max_heap` and `reset_min_heap`.
abbrev pub reset_heap : Heap → Heap
reset_heap h = record h { cur_num = 0 }

module _ (s : Nvm) (lfu : Lfu) (c : Sections) where
  -- The NVM segments allocated last: `left_segoff` to `right_segoff`.
  abbrev pub left_segoff : ℕ
  left_segoff = if ltb s.cur_alloc_nvm_segoff 500 then 0 else s.cur_alloc_nvm_segoff - 500

  abbrev pub right_segoff : ℕ
  right_segoff = s.cur_alloc_nvm_segoff + 50

  abbrev pub just_allocated : ℕ → Bool
  just_allocated mpt_index = leb left_segoff mpt_index && leb mpt_index right_segoff

  -- The other conditions of `get_max_k` on an NVM segment, and its count.
  abbrev pub max_candidate : Bool → ℕ → Option ℕ
  max_candidate pre_move mpt_index =
      let e = s.mpt mpt_index in
      let ssd_segno = value e in
      if map_flag e == 0
      then none
      else if pre_move && not (double_flag e == 0)
      then none
      else if sec_usage_check c (sec_from_seg c ssd_segno)
      then none
      else calc_count lfu ssd_segno

  abbrev pub positive : Option ℕ → Option ℕ
  positive none = none
  positive (some n) = if n == 0 then none else some n

  -- The conditions of `get_min_k` on an SSD segment, and its count.
  abbrev pub min_candidate : ℕ → Option ℕ
  min_candidate segoff =
      if not (map_flag (s.mpt (ssd_index s segoff)) == 0)
      then none
      else if sec_usage_check c (sec_from_seg c segoff)
      then none
      else positive (calc_count lfu segoff)

  pub get_max_k : Heap → ℕ → Bool → Outcome × Heap
  get_max_k mh len pre_move =
      let h = top_k largest (max_candidate pre_move) just_allocated right_segoff len mh in
      (if ltb h.cur_num h.k then no_cold else picked, h)

  pub get_min_k : Heap → ℕ → Outcome × Heap
  get_min_k mh len =
      let h = top_k smallest min_candidate (λ segoff. false) 0 len mh in
      (if ltb h.cur_num h.k then no_hot else picked, h)

-- `has_not_enough_free_nvm_secs`, with NVM_LIMIT_FREE.
abbrev pub has_not_enough_free_nvm_secs : ℕ → Nvm → Bool
has_not_enough_free_nvm_secs limit s =
    ltb s.main_segment_free_nums (s.main_segment_nums * limit / 100)
