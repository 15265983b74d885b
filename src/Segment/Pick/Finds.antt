-- ===== src/Segment/Pick/Finds.antt =====
-- Where a section is free, a segment is found.
use hoit_f2fs.Base.{
  ℕ, zero, suc, ◌-◌, ◌≤◌, ◌<◌, ◌≡◌, Bool, true, false, not, leb, ltb, ◌==◌, if◌then◌else◌, refl,
  arith, inl, inr, Bool-cases, lt→leb,
}
use hoit_f2fs.Base.Arrays.{Array, count, count_none}
use hoit_f2fs.Base.BitSearch.{BitSearch}
use hoit_f2fs.Segment.Pick.{
  Geometry, Direction, alloc_left, alloc_right, goes_left, Section, section, no_section,
  before_first, first_free, seek_left, find_section,
}

-- A free section of the device.
pub record IsFree (g : Geometry) (map : Array Bool) (r : Section) : Type 0 where
  pub secno : ℕ
  pub go_left : Bool
  pub is_section : r ≡ section secno go_left
  pub inside : secno < g.main_secs
  pub clear : map secno ≡ false

module _ (b : BitSearch) (g : Geometry) (map : Array Bool)
    (some_free : 0 < count not map g.main_secs) where
  first_free_inside : first_free b g map < g.main_secs
  first_free_inside = elim (Bool-cases (ltb (first_free b g map) g.main_secs)) [
    | inl less ↦ ground arith
    | inr full ↦ absurd (
        let none_free =
          count_none not map g.main_secs
            (λ i less. ground (arith, b.next_zero_bit.first map g.main_secs 0 i)) in
        omega arith)
  ]

  first_free-IsFree : (go_left : Bool) → IsFree g map (section (first_free b g map) go_left)
  first_free-IsFree go_left = record {
    secno = first_free b g map;
    go_left = go_left;
    is_section = refl;
    inside = first_free_inside;
    clear = (b.next_zero_bit.found map g.main_secs 0 first_free_inside).1;
  }

  seek_left-IsFree : (left : ℕ) → left < g.main_secs → IsFree g map (seek_left b g left map)
  unfolding seek_left
  seek_left-IsFree zero less = elim (Bool-cases (map 0)) [
    | inl used ↦
        rw used
          (rw (lt→leb (first_free b g map) g.main_secs first_free_inside) (first_free-IsFree true))
    | inr clear ↦
        rw clear
          (record { secno = 0; go_left = true; is_section = refl; inside = less; clear = clear })
  ]
  seek_left-IsFree (suc left) less = elim (Bool-cases (map (suc left))) [
    | inl used ↦ rw used (seek_left-IsFree left (omega arith))
    | inr clear ↦ rw clear (record {
      secno = suc left;
      go_left = true;
      is_section = refl;
      inside = less;
      clear = clear;
    })
  ]

  -- No section is free from the hint on.
  beyond-IsFree :
      (dir : Direction) (hint : ℕ)
      → hint ≤ g.main_secs
      → leb g.main_secs (b.find_next_zero_bit map g.main_secs hint) ≡ true
      → IsFree g map (
          if goes_left dir
          then (if hint == 0 then before_first else seek_left b g (hint - 1) map)
          else if leb g.main_secs (first_free b g map)
          then no_section
          else section (first_free b g map) false)
  beyond-IsFree alloc_right hint le full =
      rw (lt→leb (first_free b g map) g.main_secs first_free_inside) (first_free-IsFree false)
  beyond-IsFree alloc_left hint le full = elim (Bool-cases (hint == 0)) [
    | inl at_zero ↦ absurd (ground (arith, first_free_inside))
    | inr later ↦ rw later (seek_left-IsFree (hint - 1) (ground arith))
  ]

  -- One is.
  hit-IsFree :
      (hint : ℕ) (turned : Bool) (left_start : ℕ)
      → leb g.main_secs (b.find_next_zero_bit map g.main_secs hint) ≡ false
      → left_start < g.main_secs
      → IsFree g map (
          if turned
          then seek_left b g left_start map
          else section (b.find_next_zero_bit map g.main_secs hint) false)
  hit-IsFree hint true left_start hit less = seek_left-IsFree left_start less
  hit-IsFree hint false left_start hit less = record {
    secno = b.find_next_zero_bit map g.main_secs hint;
    go_left = false;
    is_section = refl;
    inside = ground arith;
    clear = (b.next_zero_bit.found map g.main_secs hint (ground arith)).1;
  }

  -- Where a section is free, `get_new_segment` finds one, without `f2fs_bug_on` and without a look
  -- before the bitmap.
  pub find_section-IsFree :
      (dir : Direction) (hint : ℕ) (turned : Bool) (left_start : ℕ)
      → hint ≤ g.main_secs
      → left_start < g.main_secs
      → IsFree g map (find_section b g dir hint turned left_start map)
  unfolding find_section
  find_section-IsFree dir hint turned left_start le less =
      elim (Bool-cases (leb g.main_secs (b.find_next_zero_bit map g.main_secs hint))) [
        | inl full ↦ rw full (beyond-IsFree dir hint le full)
        | inr hit ↦ rw hit (hit-IsFree hint turned left_start hit less)
      ]
