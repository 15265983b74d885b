-- ===== src/Segment/Pick/Takes.antt =====
-- Where a section is free, `get_new_segment` takes a free segment.
use native.Mathlib.Nat as Nat
use hoit_f2fs.Base.{
  ℕ, ◌+◌, ◌*◌, ◌/◌, ◌%◌, ◌≤◌, ◌<◌, ◌≡◌, Bool, false, not, ◌&&◌, ◌||◌, ltb, ◌==◌, refl, arith, inl,
  inr, Bool-cases,
}
use hoit_f2fs.Base.Arrays.{count}
use hoit_f2fs.Base.BitSearch.{BitSearch}
use hoit_f2fs.Segment.Free.{FreeSegmap, first_seg, set_inuse}
use hoit_f2fs.Segment.Free.Counted.{IsCounted, in_section, section_in_range}
use hoit_f2fs.Segment.Free.Keep.{set_inuse-IsCounted}
use hoit_f2fs.Segment.Pick.{
  Geometry, Direction, Section, Picked, picked, zone_of, zone_is_final, other_hint, got_it,
  skip_left, other_zone, get_new_segment,
}
use hoit_f2fs.Segment.Pick.Finds.{IsFree, find_section-IsFree}

-- A free segment of the device is taken, and nothing else happens.
pub record TakesFree (g : Geometry) (s : FreeSegmap) (r : Picked × FreeSegmap) : Type 0 where
  pub segno : ℕ
  pub taken : r ≡ (picked segno, set_inuse g.segs_per_sec segno s)
  pub inside : segno < g.main_secs * g.segs_per_sec
  pub was_free : s.free_segmap segno ≡ false

module _ (b : BitSearch) (g : Geometry) (s : FreeSegmap)
    (c : IsCounted g.segs_per_sec g.main_secs s) (some_seg : 0 < g.segs_per_sec)
    (some_free : 0 < s.free_sections) where
  free_secs : 0 < count not s.free_secmap g.main_secs
  free_secs = omega (arith, c.sections)

  got_it-TakesFree :
      (segno : ℕ)
      → segno < g.main_secs * g.segs_per_sec
      → s.free_segmap segno ≡ false
      → TakesFree g s (got_it b g segno s)
  unfolding got_it
  got_it-TakesFree segno inside free = record {
    segno = segno;
    taken = ground arith;
    inside = inside;
    was_free = free;
  }

  first_seg-inside :
      (sec : ℕ)
      → sec < g.main_secs
      → sec * g.segs_per_sec + g.segs_per_sec ≤ g.main_secs * g.segs_per_sec
  first_seg-inside sec less =
      omega
        (arith, Nat.mul-le-mul_right {m = sec + 1} {n = g.main_secs} g.segs_per_sec (omega arith))

  first_seg-free :
      (sec : ℕ) → s.free_secmap sec ≡ false → s.free_segmap (sec * g.segs_per_sec) ≡ false
  first_seg-free sec clear = elim (Bool-cases (s.free_segmap (sec * g.segs_per_sec))) [
    | inl used ↦ absurd (
        let own =
          in_section g.segs_per_sec some_seg sec (sec * g.segs_per_sec) (omega arith)
            (omega arith) in
        ground (arith, c.used (sec * g.segs_per_sec) used))
    | inr free ↦ free
  ]

  skip_left-TakesFree : (r : Section) → IsFree g s.free_secmap r → TakesFree g s (skip_left b g r s)
  unfolding skip_left
  skip_left-TakesFree r f = rw f.is_section (
      got_it-TakesFree (first_seg g.segs_per_sec f.secno)
        (omega (arith, first_seg-inside f.secno f.inside)) (first_seg-free f.secno f.clear))

  other_hint-in_range :
      (go_left : Bool) (secno : ℕ)
      → secno < g.main_secs
      → other_hint b g go_left (zone_of b g secno) ≤ g.main_secs
  other_hint-in_range go_left secno less =
      let below = Nat.div-mul-le_self secno g.secs_per_zone in
      let total = Nat.div-mul-le_self g.main_secs g.secs_per_zone in
      let step =
        Nat.mul-le-mul_right {m = secno / g.secs_per_zone + 1} {n = g.main_secs / g.secs_per_zone}
          g.secs_per_zone in
      ground (arith, below, total, step)

  other_zone-IsFree :
      (in_use : ℕ → Bool) (dir : Direction) (old_zoneno : ℕ) (r : Section)
      → IsFree g s.free_secmap r
      → IsFree g s.free_secmap (other_zone b g in_use dir old_zoneno r s.free_secmap)
  unfolding other_zone
  other_zone-IsFree in_use dir old_zoneno r f =
      let stays =
        zone_is_final b g dir old_zoneno f.go_left (zone_of b g f.secno)
        || not (in_use (zone_of b g f.secno)) in
      rw f.is_section (elim (Bool-cases stays) [
        | inl final ↦ rw final (record {
          secno = f.secno;
          go_left = f.go_left;
          is_section = refl;
          inside = f.inside;
          clear = f.clear;
        })
        | inr again ↦ rw again (
            find_section-IsFree b g s.free_secmap free_secs dir
              (other_hint b g f.go_left (zone_of b g f.secno)) f.go_left f.secno
              (other_hint-in_range f.go_left f.secno f.inside) f.inside)
      ])

  -- Where a section is free, the counts are right and the hint is a segment of the device,
  -- `get_new_segment` returns: it takes a segment of the device that was free, and changes nothing
  -- else, whatever the direction and the zones in use.
  pub get_new_segment-TakesFree :
      (in_use : ℕ → Bool) (newseg : ℕ) (new_sec : Bool) (dir : Direction)
      → newseg < g.main_secs * g.segs_per_sec
      → TakesFree g s (get_new_segment b g in_use newseg new_sec dir s)
  unfolding get_new_segment
  get_new_segment-TakesFree in_use newseg new_sec dir less =
      let hint = newseg / g.segs_per_sec in
      let inside = section_in_range g.segs_per_sec some_seg g.main_secs newseg less in
      let next_sec = first_seg g.segs_per_sec (hint + 1) in
      let next = b.find_next_zero_bit s.free_segmap next_sec (newseg + 1) in
      let near = not new_sec && not ((newseg + 1) % g.segs_per_sec == 0) && ltb next next_sec in
      let first =
        find_section-IsFree b g s.free_secmap free_secs dir hint false hint (omega arith) inside in
      elim (Bool-cases near) [
        | inl same ↦
            let hit : next < next_sec = ground arith in
            let found = b.next_zero_bit.found s.free_segmap next_sec (newseg + 1) hit in
            let within =
              Nat.mul-le-mul_right {m = hint + 1} {n = g.main_secs} g.segs_per_sec (omega arith) in
            rw same (got_it-TakesFree next (omega arith) found.1)
        | inr far ↦
            rw far (skip_left-TakesFree _ (other_zone-IsFree in_use dir (zone_of b g hint) _ first))
      ]

  -- `get_new_segment` keeps the counts right.
  pub get_new_segment-IsCounted :
      (in_use : ℕ → Bool) (newseg : ℕ) (new_sec : Bool) (dir : Direction)
      → newseg < g.main_secs * g.segs_per_sec
      → IsCounted g.segs_per_sec g.main_secs (get_new_segment b g in_use newseg new_sec dir s).1
  get_new_segment-IsCounted in_use newseg new_sec dir less =
      let t = get_new_segment-TakesFree in_use newseg new_sec dir less in
      rw t.taken
        (set_inuse-IsCounted g.segs_per_sec g.main_secs t.segno s c some_seg t.inside t.was_free)
