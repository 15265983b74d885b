-- ===== src/Segment/Pick/Left.antt =====
-- The search for another zone, after the search has turned left.
use hoit_f2fs.Base.{ℕ, zero, suc, ◌-◌, ◌*◌, ◌<◌, ◌≡◌, Bool, true, false, arith}
use native.Mathlib.Nat as Nat
use hoit_f2fs.Base.Arrays.{Array}
use hoit_f2fs.Base.BitSearch.{BitSearch}
use hoit_f2fs.Segment.Pick.{
  Geometry, Direction, section, seek_left, find_section, zone_of, other_zone,
}

module _ (b : BitSearch) (g : Geometry) (map : Array Bool) where
  seek_left-stays : (left : ℕ) → map left ≡ false → seek_left b g left map ≡ section left true
  unfolding seek_left
  seek_left-stays zero clear = ground arith
  seek_left-stays (suc left) clear = ground arith

  -- Where the search has turned left and come to a free section of the device, `get_new_segment`
  -- keeps this section even where its zone is in use: the search for another zone finds the same
  -- section again.
  pub other_zone-stays_left :
      (in_use : ℕ → Bool) (dir : Direction) (old_zoneno secno : ℕ)
      → map secno ≡ false
      → secno < g.main_secs
      → other_zone b g in_use dir old_zoneno (section secno true) map ≡ section secno true
  unfolding other_zone find_section
  other_zone-stays_left in_use dir old_zoneno secno clear less =
      let hint = zone_of b g secno * g.secs_per_zone - 1 in
      let below = Nat.div-mul-le_self secno g.secs_per_zone in
      let before = b.next_zero_bit.first map g.main_secs hint secno (omega arith) in
      ground (arith, before, seek_left-stays secno clear)
