-- ===== src/Segment/Free/Keep.antt =====
-- Taking and freeing a segment keeps the counts and the sections right.
use hoit_f2fs.Base.{
  ℕ, ◌+◌, ◌*◌, ◌/◌, ◌<◌, ◌≡◌, ◌≢◌, Bool, true, false, not, ◌&&◌, ◌||◌, ◌==◌, if◌then◌else◌, ◌⊎◌, ap,
  ◌∙◌, arith, inl, inr, Bool-cases,
}
use hoit_f2fs.Base.Arrays.{Array, update, count-update}
use hoit_f2fs.Base.BitSearch.{BitSearch}
use hoit_f2fs.Segment.Free.{
  FreeSegmap, sec_of, first_seg, set_inuse, set_test_and_inuse, section_clear, set_free,
  set_test_and_free,
}
use hoit_f2fs.Segment.Free.Counted.{
  IsCounted, section_start, section_end, in_section, section_in_range,
}

module _ (segs_per_sec main_secs segno : ℕ) (s : FreeSegmap)
    (c : IsCounted segs_per_sec main_secs s) (some_seg : 0 < segs_per_sec)
    (inside : segno < main_secs * segs_per_sec) where
  abbrev secno : ℕ
  secno = segno / segs_per_sec

  -- A section in use stays in use where a segment is taken.
  kept_use :
      (sec : ℕ)
      → (secno ≡ sec) ⊎ (s.free_secmap sec ≡ true)
      → (g : ℕ) × (sec_of segs_per_sec g ≡ sec) × (update s.free_segmap segno true g ≡ true)
  kept_use sec (inl e) = (segno, e, ground arith)
  kept_use sec (inr h) = let (g, e, u) = c.some_used sec h in (g, e, ground arith)

  -- A segment that was free: it is taken, and everything else stays.
  pub set_inuse-IsCounted :
      s.free_segmap segno ≡ false
      → IsCounted segs_per_sec main_secs (set_inuse segs_per_sec segno s)
  unfolding set_inuse
  set_inuse-IsCounted free = record {
    segments = ground (
      arith,
      c.segments,
      count-update not s.free_segmap segno true (main_secs * segs_per_sec) inside,
    );
    sections = ground (
      arith,
      c.sections,
      count-update not s.free_secmap secno true main_secs
          (section_in_range segs_per_sec some_seg main_secs segno inside),
    );
    used = λ g h. ground (arith, c.used g);
    some_used = λ sec h. kept_use sec (ground (arith, h));
  }

  module _ (b : BitSearch) where
    abbrev map : Array Bool
    map = update s.free_segmap segno false

    -- What the search says of the section.
    cleared :
        section_clear segs_per_sec b secno map ≡ true
        → (g : ℕ) → g / segs_per_sec ≡ secno
        → map g ≡ false
    cleared clear g e =
        let lo = section_start segs_per_sec some_seg g in
        let hi = section_end segs_per_sec some_seg g in
        let at = ap (λ (t : ℕ). t * segs_per_sec) e in
        b.next_bit.first map (first_seg segs_per_sec secno + segs_per_sec)
          (first_seg segs_per_sec secno) g (omega (arith, lo, at)) (ground (arith, hi, at))

    still_used :
        section_clear segs_per_sec b secno map ≡ false
        → (g : ℕ) × (g / segs_per_sec ≡ secno) × (map g ≡ true)
    still_used busy =
        let first = first_seg segs_per_sec secno in
        let hit = b.find_next_bit map (first + segs_per_sec) first in
        let less : hit < first + segs_per_sec = ground arith in
        let (from, set) = b.next_bit.found map (first + segs_per_sec) first less in
        (hit, in_section segs_per_sec some_seg secno hit from less, set)

    used_else :
        (g : ℕ) → map g ≡ true → g / segs_per_sec ≢ secno → s.free_secmap (g / segs_per_sec) ≡ true
    used_else g h ne = c.used g (ground arith)

    -- Where a section has no segment in use any more, another one keeps its own.
    other_use :
        (sec : ℕ)
        → s.free_secmap sec ≡ true
        → secno ≢ sec
        → (g : ℕ) × (sec_of segs_per_sec g ≡ sec) × (map g ≡ true)
    other_use sec h ne =
        let (g, e, u) = c.some_used sec h in
        let other : segno ≢ g = λ q. ne (ap (λ (t : ℕ). t / segs_per_sec) q ∙ e) in
        (g, e, ground arith)

    kept_used :
        section_clear segs_per_sec b secno map ≡ false
        → (sec : ℕ) → s.free_secmap sec ≡ true
        → (g : ℕ) × (sec_of segs_per_sec g ≡ sec) × (map g ≡ true)
    kept_used busy sec h = elim (Bool-cases (secno == sec)) [
      | inl own ↦ let (g, e, u) = still_used busy in (g, e ∙ ground arith, u)
      | inr other ↦ other_use sec h (ground arith)
    ]

    -- The new maps and counts where the section stays in use,
    busy-IsCounted :
        s.free_segmap segno ≡ true
        → section_clear segs_per_sec b secno map ≡ false
        → IsCounted segs_per_sec main_secs
            (record s { free_segmap = map; free_segments = s.free_segments + 1 })
    busy-IsCounted in_use busy = record {
      segments = ground (
        arith,
        c.segments,
        count-update not s.free_segmap segno false (main_secs * segs_per_sec) inside,
      );
      sections = c.sections;
      used = λ g h. c.used g (ground arith);
      some_used = kept_used busy;
    }

    -- and where it is freed as well.
    clear-IsCounted :
        s.free_segmap segno ≡ true
        → section_clear segs_per_sec b secno map ≡ true
        → IsCounted segs_per_sec main_secs (record s {
          free_segmap = map;
          free_segments = s.free_segments + 1;
          free_secmap = update s.free_secmap secno false;
          free_sections = if s.free_secmap secno then s.free_sections + 1 else s.free_sections;
        })
    clear-IsCounted in_use clear = record {
      segments = ground (
        arith,
        c.segments,
        count-update not s.free_segmap segno false (main_secs * segs_per_sec) inside,
      );
      sections = ground (
        arith,
        c.sections,
        count-update not s.free_secmap secno false main_secs
            (section_in_range segs_per_sec some_seg main_secs segno inside),
      );
      used = λ g h. elim (Bool-cases (secno == g / segs_per_sec)) [
        | inl own ↦ absurd (ground (arith, cleared clear g (ground arith)))
        | inr other ↦ ground (arith, used_else g h)
      ];
      some_used = λ sec h. elim (Bool-cases (secno == sec)) [
        | inl own ↦ absurd (ground arith)
        | inr other ↦ other_use sec (ground arith) (ground arith)
      ];
    }

    same-IsCounted :
        s.free_segmap segno ≡ false
        → IsCounted segs_per_sec main_secs (record s { free_segmap = map })
    same-IsCounted free = record {
      segments = ground (
        arith,
        c.segments,
        count-update not s.free_segmap segno false (main_secs * segs_per_sec) inside,
      );
      sections = c.sections;
      used = λ g h. c.used g (ground arith);
      some_used = λ sec h. let (g, e, u) = c.some_used sec h in (g, e, ground arith);
    }

    -- `__set_test_and_free` keeps the counts of free segments and sections those of the maps, and a
    -- section in use exactly where one of its segments is.
    pub set_test_and_free-IsCounted :
        IsCounted segs_per_sec main_secs (set_test_and_free segs_per_sec b segno s)
    unfolding set_test_and_free
    set_test_and_free-IsCounted = elim (Bool-cases (s.free_segmap segno)) [
      | inl in_use ↦ rw in_use (elim (Bool-cases (section_clear segs_per_sec b secno map)) [
        | inl clear ↦ rw clear (clear-IsCounted in_use clear)
        | inr busy ↦ rw busy (busy-IsCounted in_use busy)
      ])
      | inr free ↦ rw free (same-IsCounted free)
    ]

    -- `__set_free` on a segment in use is `__set_test_and_free`.
    pub set_free-set_test_and_free :
        s.free_segmap segno ≡ true
        → set_free segs_per_sec b segno s ≡ set_test_and_free segs_per_sec b segno s
    unfolding set_free set_test_and_free
    set_free-set_test_and_free in_use = ground (arith, c.used segno in_use)

  pub set_test_and_inuse-IsCounted :
      IsCounted segs_per_sec main_secs (set_test_and_inuse segs_per_sec segno s)
  unfolding set_test_and_inuse
  set_test_and_inuse-IsCounted = elim (Bool-cases (s.free_segmap segno)) [
    | inl in_use ↦ rw in_use c
    | inr free ↦ rw free (set_inuse-IsCounted free)
  ]

pub bit-set_test_and_free :
    (segs_per_sec : ℕ) (b : BitSearch) (segno : ℕ) (s : FreeSegmap) (seg : ℕ)
    → (set_test_and_free segs_per_sec b segno s).free_segmap seg
      ≡ (not (segno == seg) && s.free_segmap seg)
unfolding set_test_and_free
bit-set_test_and_free segs_per_sec b segno s seg = ground arith

pub bit-set_inuse :
    (segs_per_sec segno : ℕ) (s : FreeSegmap) (seg : ℕ)
    → (set_inuse segs_per_sec segno s).free_segmap seg ≡ ((segno == seg) || s.free_segmap seg)
unfolding set_inuse
bit-set_inuse segs_per_sec segno s seg = ground arith

pub bit-set_test_and_inuse :
    (segs_per_sec segno : ℕ) (s : FreeSegmap)
    → (set_test_and_inuse segs_per_sec segno s).free_segmap segno ≡ true
unfolding set_test_and_inuse set_inuse
bit-set_test_and_inuse segs_per_sec segno s = ground arith
