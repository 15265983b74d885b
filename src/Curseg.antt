-- ===== src/Curseg.antt =====
-- The logs: `struct curseg_info` of segment.h, and how a log moves to another segment, in
-- segment.c, with the NVM segment that `new_curseg` takes for it. The summary blocks that are written
-- and read on the way are left out.
pub mod Opens
pub mod Reuses
pub mod Types
mod Tests
use hoit_f2fs.Base.{
  ℕ, zero, suc, ◌+◌, ◌-◌, ◌*◌, ◌/◌, ◌%◌, ◌^◌, Bool, true, false, not, ◌&&◌, ◌||◌, Option, none,
  some, leb, ltb, ◌==◌, if◌then◌else◌,
}
use hoit_f2fs.Base.Arrays.{Array, update}
use hoit_f2fs.Base.BitSearch.{BitSearch}
use hoit_f2fs.Nvm.Segments.{Allocated, Nvm, allocate_segment}
use hoit_f2fs.Nvm.Lfu.{Lfu}
use hoit_f2fs.Segment.Free.{FreeSegmap, sec_of, set_test_and_inuse}
use hoit_f2fs.Segment.Pick.{
  Geometry, Direction, alloc_left, alloc_right, Picked, picked, get_new_segment, zone_of,
}
use hoit_f2fs.Segment.Search.{find_rev_next}
use hoit_f2fs.Segment.Sit.{SegEntry, SitInfo, is_nodeseg, set_sit_entry_type}
use hoit_f2fs.Segment.Dirty.{DirtySeglist, dirty, pre, null_segno, remove_from}
use hoit_f2fs.Segment.Prefree.{Segments}
use hoit_f2fs.Victim.{AllocMode, lfs, ssr, is_ssr}

pub record CursegInfo : Type 0 where
  pub alloc_type : AllocMode
  pub segno : ℕ
  pub next_blkoff : ℕ
  pub zone : ℕ
  pub next_segno : ℕ

-- What the logs stand on: the segments of both devices, the valid blocks, the dirty lists.
pub record Logs : Type 0 where
  pub logs : Array CursegInfo
  pub segs : Segments
  pub sit : SitInfo
  pub lists : DirtySeglist

-- The options, the place of the next search and the geometry.
pub record Options : Type 0 where
  pub geometry : Geometry
  pub blocks_per_seg : ℕ
  pub noheap : Bool
  pub reuse : Bool
  pub last_alloc : ℕ
  pub entries_per_blk : ℕ

abbrev pub segnos : Logs → Array ℕ
segnos l log = (l.logs log).segno

-- Is the zone that of a log?
abbrev pub zone_in_use : Logs → ℕ → Bool
zone_in_use l z =
    ((l.logs 0).zone == z)
    || ((l.logs 1).zone == z)
    || ((l.logs 2).zone == z)
    || ((l.logs 3).zone == z)
    || ((l.logs 4).zone == z)
    || ((l.logs 5).zone == z)

-- A block that is valid or that the last checkpoint has.
abbrev pub target_map : SegEntry → Array Bool
target_map se i = se.ckpt_valid_map i || se.cur_valid_map i

-- The counter that `__set_inuse` resets.
pub reset_count : ℕ → Lfu → Lfu
reset_count segno s =
    let now = s.now_lfu_counter in
    record s { lfu_count = update s.lfu_count now (update (s.lfu_count now) segno (some 0)) }

module _ (b : BitSearch) (o : Options) where
  abbrev pub sps : ℕ
  sps = o.geometry.segs_per_sec

  -- `reset_curseg`.
  pub reset_curseg : ℕ → Bool → Logs → Logs
  reset_curseg log_type modified l =
      let c = l.logs log_type in
      let c' = record c {
        segno = c.next_segno;
        zone = zone_of b o.geometry (sec_of sps c.next_segno);
        next_blkoff = 0;
        next_segno = null_segno;
      } in
      record l {
        logs = update l.logs log_type c';
        sit = set_sit_entry_type log_type c.next_segno modified l.sit;
      }

  -- `__get_next_segno`.
  pub next_hint : ℕ → Logs → ℕ
  next_hint log_type l =
      if not (sps == 1)
      then (l.logs log_type).segno
      else if o.noheap && ((log_type == 0) || is_nodeseg log_type)
      then 0
      else if not (o.last_alloc == 0)
      then o.last_alloc
      else if o.reuse
      then 0
      else (l.logs log_type).segno

  -- The direction in which `new_curseg` searches: 1 and 2 are the logs for warm and cold data.
  abbrev pub direction : ℕ → Direction
  direction log_type =
      if (log_type == 1) || (log_type == 2) || o.noheap then alloc_right else alloc_left

  -- The log is put on a segment that `get_new_segment` has taken.
  pub open_segment : ℕ → ℕ → FreeSegmap → Logs → Logs
  unfolding reset_curseg reset_count
  open_segment log_type segno free l =
      let segs = record l.segs { free = free; lfu = reset_count segno l.segs.lfu } in
      let at = record l {
        segs = segs;
        logs = update l.logs log_type (record (l.logs log_type) { next_segno = segno });
      } in
      let t = reset_curseg log_type true at in
      record t { logs = update t.logs log_type (record (t.logs log_type) { alloc_type = lfs }) }

  -- Its NVM segment; what `nvm_allocate_segment` returns is not looked at.
  pub map_to_nvm : ℕ → Logs → Logs
  map_to_nvm segno l =
      let (result, nvm) = allocate_segment o.entries_per_blk b segno true l.segs.nvm in
      record l { segs = record l.segs { nvm = nvm } }

  -- `new_curseg`; `to_nvm` is the answer of `nvm_alloc`. It is `none` at an `f2fs_bug_on` of
  -- `get_new_segment`.
  pub new_curseg : ℕ → Bool → Bool → Logs → Option Logs
  unfolding next_hint open_segment map_to_nvm
  new_curseg log_type new_sec to_nvm l =
      let (result, free) =
        get_new_segment b o.geometry (zone_in_use l) (next_hint log_type l) new_sec
          (direction log_type) l.segs.free in
      elim result [
        | picked segno ↦
            let t = open_segment log_type segno free l in
            let mapped = map_to_nvm segno t in some (if to_nvm then mapped else t)
        | _ ↦ none
      ]

  -- `__next_free_blkoff`.
  pub next_free_blkoff : ℕ → ℕ → Logs → ℕ
  next_free_blkoff segno start l =
      find_rev_next false (target_map (l.sit.sentries segno)) o.blocks_per_seg start

  -- `__refresh_next_blkoff`.
  pub refresh_next_blkoff : ℕ → Logs → Logs
  unfolding next_free_blkoff
  refresh_next_blkoff log_type l =
      let c = l.logs log_type in
      let next =
        if is_ssr c.alloc_type
        then next_free_blkoff c.segno (c.next_blkoff + 1) l
        else c.next_blkoff + 1 in
      record l { logs = update l.logs log_type (record c { next_blkoff = next }) }

  -- `change_curseg`.
  pub change_curseg : ℕ → Logs → Logs
  unfolding reset_curseg next_free_blkoff
  change_curseg log_type l =
      let segno = (l.logs log_type).next_segno in
      let segs = record l.segs { free = set_test_and_inuse sps segno l.segs.free } in
      let lists =
        remove_from sps (segnos l) l.sit segno dirty
          (remove_from sps (segnos l) l.sit segno pre l.lists) in
      let t = reset_curseg log_type true (record l { segs = segs; lists = lists }) in
      record t {
        logs = update t.logs log_type (record (t.logs log_type) {
          alloc_type = ssr;
          next_blkoff = next_free_blkoff segno 0 t;
        });
      }
