-- ===== src/Segment/Free/Counted.antt =====
-- The counts are those of the maps, and a section is in use where one of its segments is.
use native.Mathlib.Nat as Nat
use hoit_f2fs.Base.{ℕ, ◌+◌, ◌*◌, ◌/◌, ◌≤◌, ◌<◌, ◌≡◌, true, not, arith}
use hoit_f2fs.Base.Arrays.{count}
use hoit_f2fs.Segment.Free.{FreeSegmap, sec_of}

pub record IsCounted (segs_per_sec main_secs : ℕ) (s : FreeSegmap) : Type 0 where
  pub segments : s.free_segments ≡ count not s.free_segmap (main_secs * segs_per_sec)
  pub sections : s.free_sections ≡ count not s.free_secmap main_secs
  pub used : (seg : ℕ) → s.free_segmap seg ≡ true → s.free_secmap (sec_of segs_per_sec seg) ≡ true
  pub some_used :
      (sec : ℕ)
      → s.free_secmap sec ≡ true
      → (seg : ℕ) × (sec_of segs_per_sec seg ≡ sec) × (s.free_segmap seg ≡ true)

module _ (segs_per_sec : ℕ) (some_seg : 0 < segs_per_sec) where
  pub section_start : (seg : ℕ) → (seg / segs_per_sec) * segs_per_sec ≤ seg
  section_start seg = Nat.div-mul-le_self seg segs_per_sec

  pub section_end : (seg : ℕ) → seg < (seg / segs_per_sec) * segs_per_sec + segs_per_sec
  section_end seg = Nat.lt-div-mul-add some_seg

  pub in_section :
      (sec seg : ℕ)
      → sec * segs_per_sec ≤ seg
      → seg < sec * segs_per_sec + segs_per_sec
      → seg / segs_per_sec ≡ sec
  in_section sec seg le less = Nat.div-eq_of_lt-le segs_per_sec le (omega arith)

  pub section_in_range :
      (main_secs seg : ℕ) → seg < main_secs * segs_per_sec → seg / segs_per_sec < main_secs
  section_in_range main_secs seg less = (Nat.div-lt_iff_lt-mul some_seg).1 less
