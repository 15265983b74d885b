-- ===== src/Victim.antt =====
-- The choice of a victim in gc.c, for the cleaning of the SSD and for the reuse of dirty segments
-- (SSR).
pub mod Cost
pub mod Search
use hoit_f2fs.Base.{
  ℕ, zero, suc, ◌+◌, ◌-◌, ◌*◌, ◌/◌, ◌%◌, ◌^◌, ◌≤◌, Bool, true, false, not, ◌&&◌, ◌||◌, Option, none,
  some, leb, ltb, ◌==◌, if◌then◌else◌,
}
use hoit_f2fs.Base.Arrays.{Array, update, count}
use hoit_f2fs.Base.BitSearch.{BitSearch}
use hoit_f2fs.Segment.Free.{sec_of, first_seg}
use hoit_f2fs.Segment.Sit.{SitInfo, is_nodeseg, get_valid_blocks}
use hoit_f2fs.Segment.Dirty.{DirtySeglist, dirty, null_segno}

pub data AllocMode : Type 0 where
  lfs ssr : AllocMode

pub data GcType : Type 0 where
  bg_gc fg_gc force_fg_gc : GcType

-- The mode that sysfs sets.
pub data GcMode : Type 0 where
  gc_normal gc_idle_cb gc_idle_greedy gc_urgent : GcMode

abbrev pub is_ssr : AllocMode → Bool
is_ssr lfs = false
is_ssr ssr = true

abbrev pub is_fg : GcType → Bool
is_fg bg_gc = false
is_fg fg_gc = true
is_fg force_fg_gc = false

abbrev pub is_bg : GcType → Bool
is_bg bg_gc = true
is_bg fg_gc = false
is_bg force_fg_gc = false

abbrev pub is_urgent : GcMode → Bool
is_urgent gc_urgent = true
is_urgent gc_normal = false
is_urgent gc_idle_cb = false
is_urgent gc_idle_greedy = false

-- GC_CB is 0 and GC_GREEDY is 1, the index of the last victim.
pub select_gc_type : GcMode → GcType → ℕ
select_gc_type gc_normal t = if is_bg t then 0 else 1
select_gc_type gc_idle_cb t = 0
select_gc_type gc_idle_greedy t = 1
select_gc_type gc_urgent t = 1

-- `struct victim_sel_policy`, but for the minimum.
pub record Policy : Type 0 where
  pub alloc_mode : AllocMode
  pub greedy : ℕ
  pub dirty_segmap : Array Bool
  pub max_search : ℕ
  pub offset : ℕ
  pub ofs_unit : ℕ

-- What the functions here read and never write: the geometry, options, and the sections of the logs.
pub record Config : Type 0 where
  pub blocks_per_seg : ℕ
  pub segs_per_sec : ℕ
  pub main_segs : ℕ
  pub gc_mode : GcMode
  pub max_victim_search : ℕ
  pub noheap : Bool
  pub cursegs : Array ℕ

-- `last_victim`, and the oldest and newest time of a segment, which the cost function moves.
pub record Times : Type 0 where
  pub min_mtime : ℕ
  pub max_mtime : ℕ

pub record VictimState : Type 0 where
  pub last_victim : Array ℕ
  pub victim_secmap : Array Bool
  pub cur_victim_sec : ℕ
  pub times : Times

abbrev pub cap : Bool → ℕ → ℕ → ℕ
cap capped most n = if capped && ltb most n then most else n

module _ (k : Config) where
  pub select_policy : GcType → ℕ → AllocMode → DirtySeglist → VictimState → Policy
  unfolding select_gc_type
  select_policy t log_type ssr d s = record {
    alloc_mode = ssr;
    greedy = 1;
    dirty_segmap = d.dirty_segmap log_type;
    max_search =
        cap (not (is_fg t) && not (is_urgent k.gc_mode)) k.max_victim_search (d.nr_dirty log_type);
    offset = if k.noheap && ((log_type == 0) || is_nodeseg log_type) then 0 else s.last_victim 1;
    ofs_unit = 1;
  }
  select_policy t log_type lfs d s =
      let mode = select_gc_type k.gc_mode t in
      record {
        alloc_mode = lfs;
        greedy = mode;
        dirty_segmap = d.dirty_segmap dirty;
        max_search =
            cap (not (is_fg t) && not (is_urgent k.gc_mode)) k.max_victim_search (d.nr_dirty dirty);
        offset =
            if k.noheap && ((log_type == 0) || is_nodeseg log_type) then 0 else s.last_victim mode;
        ofs_unit = k.segs_per_sec;
      }

  pub get_max_cost : Policy → ℕ
  get_max_cost p =
      if is_ssr p.alloc_mode
      then k.blocks_per_seg
      else if p.greedy == 1
      then 2 * k.blocks_per_seg * p.ofs_unit
      else 2 ^ 32 - 1

  -- `sec_usage_check`, with IS_CURSEC.
  pub sec_usage_check : ℕ → ℕ → Bool
  sec_usage_check secno cur_victim_sec =
      (secno == sec_of k.segs_per_sec (k.cursegs 0))
      || (secno == sec_of k.segs_per_sec (k.cursegs 1))
      || (secno == sec_of k.segs_per_sec (k.cursegs 2))
      || (secno == sec_of k.segs_per_sec (k.cursegs 3))
      || (secno == sec_of k.segs_per_sec (k.cursegs 4))
      || (secno == sec_of k.segs_per_sec (k.cursegs 5))
      || (cur_victim_sec == secno)

  -- `check_bg_victims`: the first of `n` sections, from `secno` on, that the background cleaning has
  -- chosen and that is not in use.
  pub check_bg_victims : ℕ → ℕ → VictimState → ℕ × VictimState
  unfolding sec_usage_check
  check_bg_victims secno zero s = (null_segno, s)
  check_bg_victims secno (suc n) s =
      let rest = check_bg_victims (secno + 1) n s in
      if s.victim_secmap secno && not (sec_usage_check secno s.cur_victim_sec)
      then (
        first_seg k.segs_per_sec secno,
        record s { victim_secmap = update s.victim_secmap secno false },
      )
      else rest

  module _ (sit : SitInfo) where
    -- The sum of the times of a section's first `n` segments.
    pub section_mtime : ℕ → ℕ → ℕ
    section_mtime start zero = 0
    section_mtime start (suc n) =
        (section_mtime start n + (sit.sentries (start + n)).mtime) % 2 ^ 64

    -- The time is taken into the range of the times seen.
    pub widen : ℕ → Times → Times
    widen mtime t = record {
      min_mtime = if ltb mtime t.min_mtime then mtime else t.min_mtime;
      max_mtime = if ltb t.max_mtime mtime then mtime else t.max_mtime;
    }

    abbrev pub age_of : ℕ → Times → ℕ
    age_of mtime t =
        if t.max_mtime == t.min_mtime
        then 0
        else 100 - (100 * (mtime - t.min_mtime)) / (t.max_mtime - t.min_mtime)

    -- `get_cb_cost`; `u` is at most 100 where no segment has more valid blocks than blocks.
    pub get_cb_cost : ℕ → Times → ℕ × Times
    unfolding section_mtime widen
    get_cb_cost segno times =
        let start = first_seg k.segs_per_sec (sec_of k.segs_per_sec segno) in
        let mtime = section_mtime start k.segs_per_sec / k.segs_per_sec in
        let vblocks = get_valid_blocks k.segs_per_sec segno true sit / k.segs_per_sec in
        let u = (vblocks * 100 / k.blocks_per_seg) % 256 in
        let t = widen mtime times in
        (2 ^ 32 - 1 - (100 * (100 - u) * age_of mtime t) / (100 + u), t)

    pub get_gc_cost : Policy → ℕ → Times → ℕ × Times
    unfolding get_cb_cost
    get_gc_cost p segno t =
        if is_ssr p.alloc_mode
        then ((sit.sentries segno).ckpt_valid_blocks, t)
        else if p.greedy == 1
        then (get_valid_blocks k.segs_per_sec segno true sit, t)
        else get_cb_cost segno t
