-- ===== src/Segment/Dirty/Counted.antt =====
-- The counts of dirty segments are those of their bitmaps, and the segments that are dirty are
-- divided among the types of the logs.
use hoit_f2fs.Base.{ℕ, zero, suc, ◌+◌, ◌≤◌, ◌<◌, ◌≡◌, true, false, ◌&&◌, ◌==◌, refl, arith}
use hoit_f2fs.Base.Arrays.{count, count-update}
use hoit_f2fs.Segment.Sit.{SitInfo}
use hoit_f2fs.Segment.Sit.Entry.{is_set}
use hoit_f2fs.Segment.Dirty.{dirty, DirtySeglist, set_dirty, clear_dirty, dirty_segments}

pub record DirtyCounted (main_segs : ℕ) (d : DirtySeglist) : Type 0 where
  pub counts : (t : ℕ) → d.nr_dirty t ≡ count is_set (d.dirty_segmap t) main_segs

-- A dirty segment is in the list of its own type, and in no other.
abbrev pub IsSplit : ℕ → SitInfo → DirtySeglist → Type 0
IsSplit main_segs s d =
    (seg t : ℕ)
    → seg < main_segs
    → t < 6
    → d.dirty_segmap t seg ≡ (d.dirty_segmap dirty seg && ((s.sentries seg).log_type == t))

module _ (main_segs segno t : ℕ) (d : DirtySeglist) (c : DirtyCounted main_segs d)
    (inside : segno < main_segs) where
  pub set_dirty-DirtyCounted : DirtyCounted main_segs (set_dirty t segno d)
  unfolding set_dirty
  set_dirty-DirtyCounted = record {
    counts = λ u.
        ground
          (arith, c.counts u, count-update is_set (d.dirty_segmap t) segno true main_segs inside);
  }

  pub clear_dirty-DirtyCounted : DirtyCounted main_segs (clear_dirty t segno d)
  unfolding clear_dirty
  clear_dirty-DirtyCounted = record {
    counts = λ u.
        ground
          (arith, c.counts u, count-update is_set (d.dirty_segmap t) segno false main_segs inside);
  }

module _ (main_segs : ℕ) (s : SitInfo) (d : DirtySeglist) (split : IsSplit main_segs s d)
    (typed : (seg : ℕ) → seg < main_segs → (s.sentries seg).log_type < 6) where
  abbrev tally : ℕ → ℕ → ℕ
  tally t n = count is_set (d.dirty_segmap t) n

  tally_split :
      (n : ℕ)
      → n ≤ main_segs
      → tally 0 n + tally 1 n + tally 2 n + tally 3 n + tally 4 n + tally 5 n ≡ tally dirty n
  unfolding count
  tally_split zero h = refl
  tally_split (suc n) h =
      let one = split n in
      ground (
        arith,
        tally_split n,
        typed n,
        split n 0,
        split n 1,
        split n 2,
        split n 3,
        split n 4,
        split n 5,
      )

  -- Where the counts are right and each dirty segment is in the list of its type alone, the counts of
  -- the six types add up to that of all dirty segments.
  pub dirty_segments_all : DirtyCounted main_segs d → dirty_segments d ≡ d.nr_dirty dirty
  unfolding dirty_segments
  dirty_segments_all c = omega (
    arith,
    tally_split main_segs (omega arith),
    c.counts 0,
    c.counts 1,
    c.counts 2,
    c.counts 3,
    c.counts 4,
    c.counts 5,
    c.counts 6,
  )
