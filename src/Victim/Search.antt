-- ===== src/Victim/Search.antt =====
-- The search of `get_victim_by_default` in gc.c.
pub mod Count
pub mod Least
pub mod Reuse
mod Tests
use hoit_f2fs.Base.{
  ℕ, zero, suc, ◌+◌, ◌-◌, ◌*◌, ◌/◌, ◌%◌, ◌^◌, ◌≤◌, Bool, true, false, not, ◌&&◌, ◌||◌, Option, none,
  some, leb, ltb, ◌==◌, if◌then◌else◌,
}
use hoit_f2fs.Base.Arrays.{Array, update, count}
use hoit_f2fs.Base.BitSearch.{BitSearch}
use hoit_f2fs.Segment.Free.{sec_of, first_seg}
use hoit_f2fs.Segment.Sit.{SitInfo, is_nodeseg, get_valid_blocks}
use hoit_f2fs.Segment.Dirty.{DirtySeglist, dirty, null_segno}
use hoit_f2fs.Victim.{
  AllocMode, GcType, Policy, Config, Times, VictimState, is_ssr, is_fg, is_bg, select_policy,
  get_max_cost, sec_usage_check, check_bg_victims, get_gc_cost,
}

-- `count_bits` over `len` bits from `offset` on.
pub count_bits : Array Bool → ℕ → ℕ → ℕ
count_bits map offset zero = 0
count_bits map offset (suc len) = count_bits map offset len + (if map (offset + len) then 1 else 0)

-- The variables of the search; `last` is the last victim of the mode. `min_segno` is NULL_SEGNO until
-- a segment is found.
pub record Scan : Type 0 where
  pub last_segment : ℕ
  pub offset : ℕ
  pub nsearched : ℕ
  pub last : ℕ
  pub min_segno : ℕ
  pub min_cost : ℕ
  pub seen_times : Times

-- The search of `get_victim_by_default`: `eligible` are the two tests before the cost, `cost` is
-- `get_gc_cost`.
module _ (b : BitSearch) (main_segs : ℕ) (map : Array Bool) (ofs_unit max_search last_victim : ℕ)
    (eligible : ℕ → Bool) (cost : ℕ → Times → ℕ × Times) where
  -- A segment is looked at.
  pub consider : ℕ → Scan → Scan
  consider segno st =
      let (c, t) = cost segno st.seen_times in
      if not (eligible segno)
      then st
      else if ltb c st.min_cost
      then record st { min_segno = segno; min_cost = c; seen_times = t }
      else record st { seen_times = t }

  -- The place behind a segment, or behind its section.
  pub step_over : ℕ → Scan → Scan
  unfolding count_bits
  step_over segno st =
      let next = segno + ofs_unit in
      let aligned = next - segno % ofs_unit in
      if ltb 1 ofs_unit
      then record st {
        offset = aligned;
        nsearched = st.nsearched + count_bits map (aligned - ofs_unit) ofs_unit;
      }
      else record st { offset = next; nsearched = st.nsearched + 1 }

  -- Where the search is to begin the next time.
  abbrev pub resume_at : ℕ → Scan → ℕ
  resume_at segno st =
      (if (st.last == 0) && leb segno last_victim then last_victim + 1 else segno + 1) % main_segs

  -- The `while` loop; `none` where it would still go on after that many rounds.
  pub search_victim : ℕ → Scan → Option Scan
  unfolding consider step_over
  search_victim zero st = none
  search_victim (suc rounds) st =
      let segno = b.find_next_bit map st.last_segment st.offset in
      let wrapped = record st { last_segment = st.last; last = 0; offset = 0 } in
      let next = consider segno (step_over segno st) in
      let from_start = search_victim rounds wrapped in
      let onward = search_victim rounds next in
      if leb st.last_segment segno
      then (if st.last == 0 then some st else from_start)
      else if leb max_search next.nsearched
      then some (record next { last = resume_at segno next })
      else onward

-- What `get_victim_by_default` returns, with the value that it leaves in `*result`.
pub record Chosen : Type 0 where
  pub found : Bool
  pub result : ℕ
  pub after : VictimState

module _ (b : BitSearch) (k : Config) (sit : SitInfo) (d : DirtySeglist) where
  -- The label `got_it`, with the test before it.
  pub take_victim : GcType → Policy → ℕ → ℕ → VictimState → Chosen
  take_victim t p min_segno result s =
      let secno = sec_of k.segs_per_sec min_segno in
      let noted =
        if is_ssr p.alloc_mode
        then s
        else if is_fg t
        then record s { cur_victim_sec = secno }
        else record s { victim_secmap = update s.victim_secmap secno true } in
      if min_segno == null_segno
      then record { found = false; result = result; after = s }
      else record { found = true; result = (min_segno / p.ofs_unit) * p.ofs_unit; after = noted }

  -- Both tests on the section of a segment.
  abbrev pub is_eligible : GcType → VictimState → ℕ → Bool
  is_eligible t s segno =
      let secno = sec_of k.segs_per_sec segno in
      not (sec_usage_check k secno s.cur_victim_sec) && not (is_bg t && s.victim_secmap secno)

  abbrev pub scan_start : Policy → VictimState → Scan
  scan_start p s = record {
    last_segment = k.main_segs;
    offset = p.offset;
    nsearched = 0;
    last = s.last_victim p.greedy;
    min_segno = null_segno;
    min_cost = get_max_cost k p;
    seen_times = s.times;
  }

  -- The state behind the search.
  abbrev pub scanned : Policy → Scan → VictimState → VictimState
  scanned p st s = record s {
    last_victim = update s.last_victim p.greedy st.last;
    times = st.seen_times;
  }

  -- The search of a policy, with as many rounds as are enough (see Victim/Search/Least).
  pub search_all : GcType → Policy → VictimState → Option Scan
  unfolding search_victim
  search_all t p s =
      search_victim b k.main_segs p.dirty_segmap p.ofs_unit p.max_search (s.last_victim p.greedy)
        (is_eligible t s) (get_gc_cost k sit p) (2 * k.main_segs + 2) (scan_start p s)

  -- `get_victim_by_default`; `none` where the search would not have ended.
  pub get_victim : ℕ → GcType → ℕ → AllocMode → VictimState → Option Chosen
  unfolding search_all take_victim
  get_victim result t log_type mode s =
      let p = select_policy k t log_type mode d s in
      let (bg_segno, s_bg) = check_bg_victims k 0 (k.main_segs / k.segs_per_sec) s in
      let usable =
        not (is_nodeseg (sit.sentries result).log_type)
        && not (get_valid_blocks k.segs_per_sec result false sit == 0)
        && not (sec_usage_check k (sec_of k.segs_per_sec result) s.cur_victim_sec) in
      if not (result == null_segno)
      then some (record { found = usable; result = result; after = s })
      else if p.max_search == 0
      then some (record { found = false; result = result; after = s })
      else if not (is_ssr p.alloc_mode) && is_fg t && not (bg_segno == null_segno)
      then some (take_victim t p bg_segno result s_bg)
      else elim (search_all t p s) [
        | none ↦ none
        | some st ↦ some (take_victim t p st.min_segno result (scanned p st s))
      ]
