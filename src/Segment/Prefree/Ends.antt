-- ===== src/Segment/Prefree/Ends.antt =====
-- The loop of `f2fs_clear_prefree_segments` ends, with discards by whole sections too.
use native.Mathlib.Nat as Nat
use hoit_f2fs.Base.{
  ℕ, zero, suc, ◌+◌, ◌-◌, ◌*◌, ◌/◌, ◌≤◌, ◌<◌, ◌≡◌, some, leb, if◌then◌else◌, refl, arith, inl, inr,
  Bool-cases,
}
use hoit_f2fs.Base.Arrays.{update}
use hoit_f2fs.Base.BitSearch.{BitSearch}
use hoit_f2fs.Segment.Dirty.{pre, DirtySeglist}
use hoit_f2fs.Segment.Prefree.{
  Discards, by_segments, clear_bits, skip_sections, clear_prefree, clear_prefree_segments,
}

module _ (b : BitSearch) (segs_per_sec main_segs : ℕ) (o : Discards)
    (some_seg : 0 < segs_per_sec) where
  next_section : (start : ℕ) → start < (start / segs_per_sec) * segs_per_sec + segs_per_sec
  next_section start = omega (arith, Nat.div-add-mod start segs_per_sec, Nat.mod-lt start some_seg)

  -- The rounds of `goto next` lead behind the run.
  skip_sections-behind :
      (rounds start end : ℕ)
      → end ≤ start + rounds
      → end ≤ skip_sections b segs_per_sec main_segs o rounds start end
  unfolding skip_sections
  skip_sections-behind zero start end enough = omega arith
  skip_sections-behind (suc rounds) start end enough =
      let start' = (start / segs_per_sec) * segs_per_sec + segs_per_sec in
      let rest = skip_sections-behind rounds start' end (omega (arith, next_section start)) in
      ground (arith, rest)

  clear_prefree-ends :
      (rounds from : ℕ) (d : DirtySeglist)
      → main_segs + 2 ≤ rounds + from
      → 0 < rounds
      → (d' : DirtySeglist) × (clear_prefree b segs_per_sec main_segs o rounds from d ≡ some d')
  unfolding clear_prefree
  clear_prefree-ends zero from d enough more = absurd (omega arith)
  clear_prefree-ends (suc rounds) from d enough more =
      let map = d.dirty_segmap pre in
      let start = b.find_next_bit map main_segs from in
      let end = b.find_next_zero_bit map main_segs (start + 1) in
      elim (Bool-cases (leb main_segs start)) [
        | inl over ↦ (d, rw over refl)
        | inr inside ↦
            let from_on = b.next_bit.found map main_segs from (ground arith) in
            let stop = b.next_zero_bit.found map main_segs (start + 1) in
            let within = b.next_zero_bit.within map main_segs (start + 1) in
            let behind = skip_sections-behind main_segs start end (omega (arith, within)) in
            let run : start < end = ground (arith, stop) in
            let next =
              if by_segments b segs_per_sec main_segs o start end
              then end + 1
              else skip_sections b segs_per_sec main_segs o main_segs start end in
            let on : from < next = ground (arith, from_on, behind, run) in
            let t = record d {
              dirty_segmap = update d.dirty_segmap pre (clear_bits start (end - start) map);
              nr_dirty = update d.nr_dirty pre (d.nr_dirty pre - (end - start));
            } in
            let left : 0 < rounds = ground (arith, from_on) in
            let (d', e) = clear_prefree-ends rounds next t (omega (arith, on)) left in
            (d', rw inside e)
      ]

  -- With sections of at least one segment, the loop of `f2fs_clear_prefree_segments` ends within two
  -- rounds more than there are segments, whatever the lists hold and however discards are sent, and
  -- each skip to whole sections in it leads behind the run of prefree segments.
  pub clear_prefree_segments-ends :
      (d : DirtySeglist)
      → ((d' : DirtySeglist) × (clear_prefree_segments b segs_per_sec main_segs o d ≡ some d'))
        × ((start end : ℕ)
            → end ≤ main_segs
            → end ≤ skip_sections b segs_per_sec main_segs o main_segs start end)
  unfolding clear_prefree_segments
  clear_prefree_segments-ends d = (
    clear_prefree-ends (main_segs + 2) 0 d (omega arith) (omega arith),
    λ start end le. skip_sections-behind main_segs start end (omega arith),
  )
