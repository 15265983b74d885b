-- ===== src/Nvm/Segments.antt =====
-- The NVM segments: `nvm_allocate_segment`, `create_mapping` and `unset_mapping` of nvm.c and
-- `set_double` of gc_nvm.c, each under the spin locks that it takes.
pub mod Consistent
pub mod Allocate
pub mod Unset
pub mod Cycle
pub mod Others
pub mod Tests
use hoit_f2fs.Base.{
  ℕ, zero, suc, ◌+◌, ◌-◌, ◌*◌, ◌/◌, ◌≤◌, bit_or, Bool, true, false, Option, none, some, ltb, leb,
  ◌==◌, if◌then◌else◌,
}
use hoit_f2fs.Base.Words.{◌+32◌}
use hoit_f2fs.Base.Arrays.{Array, update}
use hoit_f2fs.Base.BitSearch.{BitSearch}
use hoit_f2fs.Nvm.Entry.{rw_map, rw_redirect, entry, value, map_flag, with_double}

-- The fields of `nvm_sb_info` and of its super block that these functions read and write.
-- `nsb_dirty` is the bit NVM_NSB_DIRTY of `nvm_flag`.
pub record Nvm : Type 0 where
  pub mpt : Array ℕ
  pub mpt_dirty_map : Array Bool
  pub segment_map : Array Bool
  pub main_segment_nums : ℕ
  pub main_segment_free_nums : ℕ
  pub cur_alloc_nvm_segoff : ℕ
  pub nsb_dirty : Bool

-- How `nvm_allocate_segment` ends: with a segment, with -ENVMNOSPACE, at an `nvm_assert` that
-- fails, or not at all, since its `goto next` goes on.
pub data Allocated : Type 0 where
  segment : ℕ → Allocated
  no_space bug endless : Allocated

-- The entry of an SSD segment stands behind those of the NVM segments.
abbrev pub ssd_index : Nvm → ℕ → ℕ
ssd_index s ssd_segoff = s.main_segment_nums + ssd_segoff

-- `test_and_set_bit` with the count and the flag that depend on it, and the next position.
pub take_segment : ℕ → Nvm → Nvm
take_segment nvm_segoff s =
    let taken = s.segment_map nvm_segoff in
    record s {
      segment_map = update s.segment_map nvm_segoff true;
      main_segment_free_nums =
          if taken then s.main_segment_free_nums else s.main_segment_free_nums - 1;
      nsb_dirty = if taken then s.nsb_dirty else true;
      cur_alloc_nvm_segoff = nvm_segoff + 1;
    }

module _ (b : BitSearch) where
  -- The search from `next:` on; `none` when it would still go on after that many rounds.
  pub search : ℕ → Nvm → ℕ → Option ℕ
  search zero s segoff = none
  search (suc rounds) s segoff =
      let hit = b.find_next_zero_bit s.segment_map s.main_segment_nums segoff in
      let again = search rounds s 0 in if leb s.main_segment_nums hit then again else some hit

-- `entries_per_blk` is F2FS_BLKSIZE / sizeof(unsigned int).
module _ (entries_per_blk : ℕ) where
  pub create_mapping : ℕ → ℕ → ℕ → Nvm → Nvm
  create_mapping ssd_segoff nvm_segoff rw_flag s =
      let mpt1 = update s.mpt nvm_segoff (entry ssd_segoff rw_flag) in
      let mpt2 = update mpt1 (ssd_index s ssd_segoff) (entry nvm_segoff rw_flag) in
      let dirty1 = update s.mpt_dirty_map (nvm_segoff / entries_per_blk) true in
      let dirty2 = update dirty1 (ssd_index s ssd_segoff / entries_per_blk) true in
      record s { mpt = mpt2; mpt_dirty_map = dirty2 }

  -- The body of `unset_mapping` for a segment that is mapped.
  release : ℕ → Nvm → Nvm
  release ssd_offset s =
      let nvm_offset = value (s.mpt ssd_offset) in
      let dirty1 = update s.mpt_dirty_map (ssd_offset / entries_per_blk) true in
      record s {
        mpt = update (update s.mpt ssd_offset 0) nvm_offset 0;
        mpt_dirty_map = update dirty1 (nvm_offset / entries_per_blk) true;
        segment_map = update s.segment_map nvm_offset false;
        main_segment_free_nums = s.main_segment_free_nums + 1;
      }

  pub unset_mapping : ℕ → Nvm → Nvm
  unset_mapping ssd_segno s =
      let ssd_offset = ssd_index s ssd_segno in
      if map_flag (s.mpt ssd_offset) == 0 then s else release ssd_offset s

  -- The body of `set_double` for a segment that is mapped.
  mark_double : ℕ → Nvm → Nvm
  mark_double ssd_offset s =
      let nvm_offset = value (s.mpt ssd_offset) in
      let mpt1 = update s.mpt ssd_offset (with_double (s.mpt ssd_offset)) in
      let dirty1 = update s.mpt_dirty_map (ssd_offset / entries_per_blk) true in
      record s {
        mpt = update mpt1 nvm_offset (with_double (mpt1 nvm_offset));
        mpt_dirty_map = update dirty1 (nvm_offset / entries_per_blk) true;
      }

  pub set_double : ℕ → Nvm → Nvm
  set_double ssd_segno s =
      let ssd_offset = ssd_index s ssd_segno in
      if map_flag (s.mpt ssd_offset) == 0 then s else mark_double ssd_offset s

  module _ (b : BitSearch) where
    -- Two rounds of the search are enough, or none are (see Nvm/Segments/Allocate).
    pub allocate_segment : ℕ → Bool → Nvm → Allocated × Nvm
    unfolding search take_segment
    allocate_segment ssd_segoff is_create_mapping s =
        if s.main_segment_free_nums == 0
        then (no_space, s)
        else (if ltb s.main_segment_nums s.main_segment_free_nums
            then (bug, s)
            else elim (search b 2 s s.cur_alloc_nvm_segoff) [
              | none ↦ (endless, s)
              | some nvm_segoff ↦
                  let s' = take_segment nvm_segoff s in
                  (
                    segment nvm_segoff,
                    if is_create_mapping
                        then create_mapping ssd_segoff nvm_segoff (bit_or rw_map rw_redirect) s'
                        else s',
                  )
            ])
