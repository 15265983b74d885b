-- ===== src/Segment/Prefree.antt =====
-- How prefree segments become free: `__set_test_and_free` of segment.h with what it does to the
-- NVM, `set_prefree_as_free_segments`, which a checkpoint calls, and the first part of
-- `f2fs_clear_prefree_segments` of segment.c, which follows the checkpoint. The discards that the
-- latter sends are left out.
pub mod Frees
pub mod Clears
pub mod Ends
mod Tests
use hoit_f2fs.Base.{
  ℕ, zero, suc, ◌+◌, ◌-◌, ◌*◌, ◌/◌, ◌≤◌, Bool, true, false, not, ◌&&◌, ◌||◌, Option, none, some,
  leb, ltb, ◌==◌, if◌then◌else◌,
}
use hoit_f2fs.Base.Arrays.{Array, update}
use hoit_f2fs.Base.BitSearch.{BitSearch}
use hoit_f2fs.Nvm.Entry.{map_flag}
use hoit_f2fs.Nvm.Lfu.{Lfu, free_count}
use hoit_f2fs.Nvm.Segments.{Nvm, ssd_index, unset_mapping}
use hoit_f2fs.Segment.Free.{FreeSegmap, set_test_and_free}
use hoit_f2fs.Segment.Dirty.{pre, DirtySeglist}

-- The segments of both devices.
pub record Segments : Type 0 where
  pub free : FreeSegmap
  pub nvm : Nvm
  pub lfu : Lfu

-- `for_each_set_bit` over the first `size` bits.
unfoldable pub for_each_set_bit {ℓ} : {A : Type ℓ} → Array Bool → (ℕ → A → A) → ℕ → A → A
for_each_set_bit map body zero s = s
for_each_set_bit map body (suc size) s =
    let before = for_each_set_bit map body size s in if map size then body size before else before

module _ (segs_per_sec entries_per_blk : ℕ) (b : BitSearch) where
  -- `__set_test_and_free`.
  pub free_segment : ℕ → Segments → Segments
  free_segment segno s =
      let free = set_test_and_free segs_per_sec b segno s.free in
      if map_flag (s.nvm.mpt (ssd_index s.nvm segno)) == 0
      then record s { free = free }
      else record {
        free = free;
        nvm = unset_mapping entries_per_blk segno s.nvm;
        lfu = free_count segno s.lfu;
      }

  pub set_prefree_as_free_segments : ℕ → DirtySeglist → Segments → Segments
  unfolding free_segment
  set_prefree_as_free_segments main_segs d s =
      for_each_set_bit (d.dirty_segmap pre) free_segment main_segs s

-- The `for` loop that clears the `n` bits from `start` on.
pub clear_bits : ℕ → ℕ → Array Bool → Array Bool
clear_bits start zero map = map
clear_bits start (suc n) map = update (clear_bits start n map) (start + n) false

-- The options that decide over the discards, and the segments that a trim is about.
pub record Discards : Type 0 where
  pub discard : Bool
  pub force : Bool
  pub trim_start : ℕ
  pub trim_end : ℕ
  pub lfs : Bool

module _ (b : BitSearch) (segs_per_sec main_segs : ℕ) (o : Discards) where
  -- Does the loop go on without a look at whole sections?
  abbrev pub by_segments : ℕ → ℕ → Bool
  by_segments start end =
      not o.discard
      || (o.force && leb o.trim_start start && leb (end - 1) o.trim_end)
      || not o.lfs
      || (segs_per_sec == 1)

  -- `goto next`: the first section behind the run, where a round of the loop may still be due.
  pub skip_sections : ℕ → ℕ → ℕ → ℕ
  skip_sections zero start end = start
  skip_sections (suc rounds) start end =
      let start' = (start / segs_per_sec) * segs_per_sec + segs_per_sec in
      let rest = skip_sections rounds start' end in if ltb start' end then rest else start'

  -- The `while` loop; `from` is `end + 1`. It is `none` where it would still go on after that many
  -- rounds.
  pub clear_prefree : ℕ → ℕ → DirtySeglist → Option DirtySeglist
  unfolding clear_bits skip_sections
  clear_prefree zero from d = none
  clear_prefree (suc rounds) from d =
      let map = d.dirty_segmap pre in
      let start = b.find_next_bit map main_segs from in
      let end = b.find_next_zero_bit map main_segs (start + 1) in
      let t = record d {
        dirty_segmap = update d.dirty_segmap pre (clear_bits start (end - start) map);
        nr_dirty = update d.nr_dirty pre (d.nr_dirty pre - (end - start));
      } in
      let rest =
        clear_prefree rounds
          (if by_segments start end then end + 1 else skip_sections main_segs start end) t in
      if leb main_segs start then some d else rest

  -- The bits of `clear_prefree_segments`; the rounds are enough (see Segment/Prefree/Clears).
  pub clear_prefree_segments : DirtySeglist → Option DirtySeglist
  unfolding clear_prefree
  clear_prefree_segments d = clear_prefree (main_segs + 2) 0 d
