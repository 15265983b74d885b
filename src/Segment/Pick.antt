-- ===== src/Segment/Pick.antt =====
-- `get_new_segment` of segment.c: the search for the segment that a log continues in.
pub mod Finds
pub mod Left
pub mod Takes
mod Tests
use hoit_f2fs.Base.{
  ℕ, zero, suc, ◌+◌, ◌-◌, ◌*◌, ◌/◌, ◌%◌, ◌≤◌, Bool, true, false, not, ◌&&◌, ◌||◌, Option, none,
  some, leb, ltb, ◌==◌, if◌then◌else◌,
}
use hoit_f2fs.Base.Arrays.{Array}
use hoit_f2fs.Base.BitSearch.{BitSearch}
use hoit_f2fs.Segment.Free.{FreeSegmap, sec_of, first_seg, set_inuse}

pub record Geometry : Type 0 where
  pub segs_per_sec : ℕ
  pub main_secs : ℕ
  pub secs_per_zone : ℕ

pub data Direction : Type 0 where
  alloc_right alloc_left : Direction

abbrev pub goes_left : Direction → Bool
goes_left alloc_right = false
goes_left alloc_left = true

-- Where a search ends: at a section, and whether it has turned left; at an `f2fs_bug_on`; or at a
-- bit before the first one, `hint - 1` for the hint 0.
pub data Section : Type 0 where
  section : ℕ → Bool → Section
  no_section before_first : Section

-- How `get_new_segment` ends.
pub data Picked : Type 0 where
  picked : ℕ → Picked
  bug out_of_range : Picked

module _ (b : BitSearch) (g : Geometry) where
  -- The first free section of all.
  abbrev pub first_free : Array Bool → ℕ
  first_free map = b.find_next_zero_bit map g.main_secs 0

  -- The loop to the left, from `left_start` down.
  seek_left : ℕ → Array Bool → Section
  seek_left zero map =
      if not (map 0)
      then section 0 true
      else if leb g.main_secs (first_free map)
      then no_section
      else section (first_free map) true
  seek_left (suc left) map =
      let rest = seek_left left map in if map (suc left) then rest else section (suc left) true

  -- From `find_other_zone` to `skip_left`. `left_start` is read only where the search has turned
  -- left before, and is then the section that it found.
  pub find_section : Direction → ℕ → Bool → ℕ → Array Bool → Section
  unfolding seek_left
  find_section dir hint go_left left_start map =
      let secno = b.find_next_zero_bit map g.main_secs hint in
      let turned = seek_left (hint - 1) map in
      let again = seek_left left_start map in
      if leb g.main_secs secno
      then (if goes_left dir
          then (if hint == 0 then before_first else turned)
          else if leb g.main_secs (first_free map)
          then no_section
          else section (first_free map) false)
      else if go_left
      then again
      else section secno false

  abbrev pub zone_of : ℕ → ℕ
  zone_of secno = secno / g.secs_per_zone

  abbrev pub total_zones : ℕ
  total_zones = g.main_secs / g.secs_per_zone

  -- Is the section of the first search taken whatever its zone is used for?
  abbrev pub zone_is_final : Direction → ℕ → Bool → ℕ → Bool
  zone_is_final dir old_zoneno go_left zoneno =
      (g.secs_per_zone == 1)
      || (zoneno == old_zoneno)
      || (goes_left dir
          && ((not go_left && leb total_zones (zoneno + 1)) || (go_left && (zoneno == 0))))

  -- The hint of the second search.
  abbrev pub other_hint : Bool → ℕ → ℕ
  other_hint go_left zoneno =
      if go_left
      then zoneno * g.secs_per_zone - 1
      else if leb total_zones (zoneno + 1)
      then 0
      else (zoneno + 1) * g.secs_per_zone

  -- `got_it`.
  pub got_it : ℕ → FreeSegmap → Picked × FreeSegmap
  got_it segno s =
      if s.free_segmap segno then (bug, s) else (picked segno, set_inuse g.segs_per_sec segno s)

  pub skip_left : Section → FreeSegmap → Picked × FreeSegmap
  unfolding got_it
  skip_left (section secno go_left) s = got_it (first_seg g.segs_per_sec secno) s
  skip_left no_section s = (bug, s)
  skip_left before_first s = (out_of_range, s)

  -- Behind the first search: `in_use` tells the zones of the logs.
  pub other_zone : (ℕ → Bool) → Direction → ℕ → Section → Array Bool → Section
  unfolding find_section
  other_zone in_use dir old_zoneno no_section map = no_section
  other_zone in_use dir old_zoneno before_first map = before_first
  other_zone in_use dir old_zoneno (section secno go_left) map =
      let zoneno = zone_of secno in
      if zone_is_final dir old_zoneno go_left zoneno || not (in_use zoneno)
      then section secno go_left
      else find_section dir (other_hint go_left zoneno) go_left secno map

  pub get_new_segment : (ℕ → Bool) → ℕ → Bool → Direction → FreeSegmap → Picked × FreeSegmap
  unfolding find_section other_zone got_it skip_left
  get_new_segment in_use newseg new_sec dir s =
      let hint = sec_of g.segs_per_sec newseg in
      let next_sec = first_seg g.segs_per_sec (hint + 1) in
      let next = b.find_next_zero_bit s.free_segmap next_sec (newseg + 1) in
      let first = find_section dir hint false hint s.free_secmap in
      if not new_sec && not ((newseg + 1) % g.segs_per_sec == 0) && ltb next next_sec
      then got_it next s
      else skip_left
          (other_zone in_use dir (zone_of (sec_of g.segs_per_sec newseg)) first s.free_secmap) s
