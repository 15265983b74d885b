-- ===== src/Curseg/Reuses.antt =====
-- `change_curseg` puts a log on a used segment, where it writes to no block that is still kept.
use hoit_f2fs.Base.{ℕ, ◌*◌, ◌≤◌, ◌<◌, ◌≡◌, ◌⊎◌, Bool, true, false, ◌||◌, refl, ap, ◌∙◌, arith}
use hoit_f2fs.Base.Arrays.{Array}
use hoit_f2fs.Base.BitSearch.{BitSearch}
use hoit_f2fs.Segment.Free.{set_test_and_inuse}
use hoit_f2fs.Segment.Free.Counted.{IsCounted}
use hoit_f2fs.Segment.Free.Keep.{set_test_and_inuse-IsCounted, bit-set_test_and_inuse}
use hoit_f2fs.Segment.Search.{find_rev_next}
use hoit_f2fs.Segment.Search.Finds.{find_rev_next-IsSearch}
use hoit_f2fs.Segment.Sit.{SegEntry, set_sit_entry_type}
use hoit_f2fs.Segment.Sit.Again.{set_sit_entry_type-keeps}
use hoit_f2fs.Segment.Dirty.{dirty, pre, remove_from}
use hoit_f2fs.Segment.Dirty.Counted.{DirtyCounted}
use hoit_f2fs.Segment.Dirty.Locate.{bits-remove_from, remove_from-DirtyCounted}
use hoit_f2fs.Victim.{ssr}
use hoit_f2fs.Curseg.{
  Logs, Options, segnos, reset_curseg, target_map, next_free_blkoff, change_curseg,
}

either : (a b : Bool) → (a || b) ≡ true → (a ≡ true) ⊎ (b ≡ true)
either a b h = ground arith

neither : (a b : Bool) → (a || b) ≡ false → (a ≡ false) × (b ≡ false)
neither a b h = ground arith

-- The log stands on the segment `segno`, before the first block that is neither valid nor kept for
-- the last checkpoint.
pub record ReusesSegment (o : Options) (log_type segno : ℕ) (l l' : Logs) : Type 0 where
  pub on_it : ((l'.logs log_type).segno ≡ segno) × ((l'.logs log_type).alloc_type ≡ ssr)
  pub within : (l'.logs log_type).next_blkoff ≤ o.blocks_per_seg
  pub not_kept :
      (l'.logs log_type).next_blkoff < o.blocks_per_seg
      → ((l.sit.sentries segno).ckpt_valid_map (l'.logs log_type).next_blkoff ≡ false)
        × ((l.sit.sentries segno).cur_valid_map (l'.logs log_type).next_blkoff ≡ false)
  pub full_before :
      (i : ℕ)
      → i < (l'.logs log_type).next_blkoff
      → ((l.sit.sentries segno).ckpt_valid_map i ≡ true)
        ⊎ ((l.sit.sentries segno).cur_valid_map i ≡ true)
  pub in_use : l'.segs.free.free_segmap segno ≡ true
  pub counted : IsCounted o.geometry.segs_per_sec o.geometry.main_secs l'.segs.free
  pub not_listed :
      (l'.lists.dirty_segmap dirty segno ≡ false) × (l'.lists.dirty_segmap pre segno ≡ false)
  pub list_counts : DirtyCounted (o.geometry.main_secs * o.geometry.segs_per_sec) l'.lists

module _ (b : BitSearch) (o : Options) (log_type : ℕ) (l : Logs)
    (c : IsCounted o.geometry.segs_per_sec o.geometry.main_secs l.segs.free)
    (lists : DirtyCounted (o.geometry.main_secs * o.geometry.segs_per_sec) l.lists)
    (some_seg : 0 < o.geometry.segs_per_sec)
    (inside : (l.logs log_type).next_segno < o.geometry.main_secs * o.geometry.segs_per_sec) where
  abbrev segno : ℕ
  segno = (l.logs log_type).next_segno

  abbrev after : Logs
  after = change_curseg b o log_type l

  abbrev kept : Array Bool
  kept = target_map (l.sit.sentries segno)

  fields :
      ((after.logs log_type).segno ≡ segno)
      × ((after.logs log_type).alloc_type ≡ ssr)
      × (after.segs.free ≡ set_test_and_inuse o.geometry.segs_per_sec segno l.segs.free)
      × (after.lists
          ≡ remove_from o.geometry.segs_per_sec
              (segnos l)
              l.sit
              segno
              dirty
              (remove_from o.geometry.segs_per_sec (segnos l) l.sit segno pre l.lists))
  unfolding change_curseg reset_curseg
  fields = (ground arith, ground arith, refl, refl)

  place : (after.logs log_type).next_blkoff ≡ find_rev_next false kept o.blocks_per_seg 0
  unfolding change_curseg reset_curseg next_free_blkoff
  place =
      let same =
        set_sit_entry_type-keeps (λ (se : SegEntry). target_map se) log_type segno l.sit
          (λ se. refl) true segno in
      let at : (after.logs log_type).next_blkoff
          ≡ find_rev_next false
              (target_map ((set_sit_entry_type log_type segno true l.sit).sentries segno))
              o.blocks_per_seg 0 =
        ground arith in
      at ∙ ap (λ (m : Array Bool). find_rev_next false m o.blocks_per_seg 0) same

  -- Where the counts are right, `change_curseg` puts the log on the segment chosen, before its first
  -- block that is neither valid nor kept for the last checkpoint, or at its end if there is none. The
  -- segment is in use then and no longer listed as dirty or prefree, and the counts are right.
  pub change_curseg-ReusesSegment : ReusesSegment o log_type segno l after
  change_curseg-ReusesSegment =
      let (at, by, free, listed) = fields in
      let search = find_rev_next-IsSearch false in
      let once = remove_from o.geometry.segs_per_sec (segnos l) l.sit segno pre l.lists in
      let bits = bits-remove_from o.geometry.segs_per_sec (segnos l) l.sit segno in
      let counts = remove_from-DirtyCounted o.geometry.segs_per_sec (segnos l) l.sit segno in
      record {
        on_it = (at, by);
        within = rw place (search.within kept o.blocks_per_seg 0);
        not_kept = λ less.
            neither _ _
              (rw place (search.found kept o.blocks_per_seg 0 (omega (arith, place, less))).1);
        full_before = λ i less.
            either _ _
              (search.first kept o.blocks_per_seg 0 i (omega arith) (omega (arith, place, less)));
        in_use = rw free (bit-set_test_and_inuse o.geometry.segs_per_sec segno l.segs.free);
        counted = rw free (
            set_test_and_inuse-IsCounted o.geometry.segs_per_sec o.geometry.main_secs segno
              l.segs.free c some_seg inside);
        not_listed = rw listed (
          ground (arith, bits dirty once dirty segno),
          ground (arith, bits dirty once pre segno, bits pre l.lists pre segno),
        );
        list_counts = rw listed (
            counts dirty once (o.geometry.main_secs * o.geometry.segs_per_sec) inside
              (counts pre l.lists (o.geometry.main_secs * o.geometry.segs_per_sec) inside lists));
      }
