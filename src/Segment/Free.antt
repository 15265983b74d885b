-- ===== src/Segment/Free.antt =====
-- The free segments and sections: `struct free_segmap_info` and its functions in segment.h. A bit
-- is set where the segment or section is in use.
pub mod Counted
pub mod Keep
pub mod Tests
use hoit_f2fs.Base.{ℕ, ◌+◌, ◌-◌, ◌*◌, ◌/◌, ◌≤◌, Bool, true, false, not, leb, if◌then◌else◌}
use hoit_f2fs.Base.Arrays.{Array, update}
use hoit_f2fs.Base.BitSearch.{BitSearch}

pub record FreeSegmap : Type 0 where
  pub free_segments : ℕ
  pub free_sections : ℕ
  pub free_segmap : Array Bool
  pub free_secmap : Array Bool

module _ (segs_per_sec : ℕ) where
  -- GET_SEC_FROM_SEG and GET_SEG_FROM_SEC.
  abbrev pub sec_of : ℕ → ℕ
  sec_of segno = segno / segs_per_sec

  abbrev pub first_seg : ℕ → ℕ
  first_seg secno = secno * segs_per_sec

  -- `test_and_set_bit` on the section, with the count that depends on it.
  abbrev pub take_section : ℕ → FreeSegmap → FreeSegmap
  take_section secno s = record s {
    free_secmap = update s.free_secmap secno true;
    free_sections = if s.free_secmap secno then s.free_sections else s.free_sections - 1;
  }

  -- `__set_inuse`, without the read counter.
  pub set_inuse : ℕ → FreeSegmap → FreeSegmap
  set_inuse segno s = take_section (sec_of segno) (record s {
    free_segmap = update s.free_segmap segno true;
    free_segments = s.free_segments - 1;
  })

  -- `__set_test_and_inuse`.
  pub set_test_and_inuse : ℕ → FreeSegmap → FreeSegmap
  unfolding set_inuse
  set_test_and_inuse segno s = if s.free_segmap segno then s else set_inuse segno s

  module _ (b : BitSearch) where
    -- Is no segment of the section in use?
    abbrev pub section_clear : ℕ → Array Bool → Bool
    section_clear secno map =
        leb (first_seg secno + segs_per_sec)
          (b.find_next_bit map (first_seg secno + segs_per_sec) (first_seg secno))

    -- `__set_free`.
    pub set_free : ℕ → FreeSegmap → FreeSegmap
    set_free segno s =
        let map = update s.free_segmap segno false in
        let t = record s { free_segmap = map; free_segments = s.free_segments + 1 } in
        if section_clear (sec_of segno) map
        then record t {
          free_secmap = update s.free_secmap (sec_of segno) false;
          free_sections = s.free_sections + 1;
        }
        else t

    -- The part of `__set_test_and_free` on the two maps.
    pub set_test_and_free : ℕ → FreeSegmap → FreeSegmap
    set_test_and_free segno s =
        let map = update s.free_segmap segno false in
        let t = record s { free_segmap = map; free_segments = s.free_segments + 1 } in
        if not (s.free_segmap segno)
        then record s { free_segmap = map }
        else if section_clear (sec_of segno) map
        then record t {
          free_secmap = update s.free_secmap (sec_of segno) false;
          free_sections =
              if s.free_secmap (sec_of segno) then s.free_sections + 1 else s.free_sections;
        }
        else t
