-- ===== src/Curseg/Opens.antt =====
-- `new_curseg` puts a log on a free segment, with an NVM segment of its own.
use hoit_f2fs.Base.{
  ℕ, ◌+◌, ◌*◌, ◌<◌, ◌≡◌, ◌≢◌, ◌⊎◌, Bool, true, false, some, ◌==◌, if◌then◌else◌, refl, sym, ap, ◌∙◌,
  arith, inl, inr, Bool-cases,
}
use hoit_f2fs.Base.BitSearch.{BitSearch}
use hoit_f2fs.Nvm.Entry.{value, map_flag}
use hoit_f2fs.Nvm.Segments.{Allocated, Nvm, ssd_index, allocate_segment}
use hoit_f2fs.Nvm.Segments.Consistent.{Consistent}
use hoit_f2fs.Nvm.Segments.Allocate as Allocate
use hoit_f2fs.Nvm.Segments.Allocate.{allocate_segment-TakesFree, allocate_segment_refuses}
use hoit_f2fs.Nvm.Segments.Others.{allocate_segment-mpt}
use hoit_f2fs.Segment.Free.{FreeSegmap, set_inuse}
use hoit_f2fs.Segment.Free.Counted.{IsCounted}
use hoit_f2fs.Segment.Free.Keep.{set_inuse-IsCounted, bit-set_inuse}
use hoit_f2fs.Segment.Pick.{Picked, picked, get_new_segment}
use hoit_f2fs.Segment.Pick.Takes.{get_new_segment-TakesFree}
use hoit_f2fs.Segment.Prefree.Frees.{BothRight, FreeUnmapped}
use hoit_f2fs.Victim.{lfs}
use hoit_f2fs.Curseg.{
  Logs, Options, zone_in_use, next_hint, direction, reset_curseg, open_segment, map_to_nvm,
  new_curseg,
}

-- The log `log_type` writes to a new segment from its first block on. It was free, and in the NVM
-- it has a segment that was free, where one is asked for and one is left.
pub record Opens (o : Options) (log_type : ℕ) (to_nvm : Bool) (l l' : Logs) : Type 0 where
  pub segno : ℕ
  pub inside : segno < o.geometry.main_secs * o.geometry.segs_per_sec
  pub was_free : l.segs.free.free_segmap segno ≡ false
  pub taken : l'.segs.free ≡ set_inuse o.geometry.segs_per_sec segno l.segs.free
  pub on_it :
      ((l'.logs log_type).segno ≡ segno)
      × ((l'.logs log_type).next_blkoff ≡ 0)
      × ((l'.logs log_type).alloc_type ≡ lfs)
  pub own_nvm :
      to_nvm ≡ true
      → 0 < l.segs.nvm.main_segment_free_nums
      → (n : ℕ) × (n < l.segs.nvm.main_segment_nums)
        × (l.segs.nvm.segment_map n ≡ false)
        × (map_flag (l'.segs.nvm.mpt (ssd_index l.segs.nvm segno)) ≡ 1)
        × (value (l'.segs.nvm.mpt (ssd_index l.segs.nvm segno)) ≡ n)
  pub no_nvm : (to_nvm ≡ false) ⊎ (l.segs.nvm.main_segment_free_nums ≡ 0) → l'.segs.nvm ≡ l.segs.nvm
  pub right : BothRight o.geometry.segs_per_sec o.geometry.main_secs l'.segs
  pub unmapped : FreeUnmapped (o.geometry.main_secs * o.geometry.segs_per_sec) l'.segs

module _ (b : BitSearch) (o : Options) (log_type : ℕ) (l : Logs)
    (right : BothRight o.geometry.segs_per_sec o.geometry.main_secs l.segs)
    (unmapped : FreeUnmapped (o.geometry.main_secs * o.geometry.segs_per_sec) l.segs)
    (some_seg : 0 < o.geometry.segs_per_sec) where
  abbrev segs : ℕ
  segs = o.geometry.main_secs * o.geometry.segs_per_sec

  module _ (segno : ℕ) (inside : segno < segs) (free : l.segs.free.free_segmap segno ≡ false) where
    abbrev opened : Logs
    opened = open_segment b o log_type segno (set_inuse o.geometry.segs_per_sec segno l.segs.free) l

    abbrev mapped : Logs
    mapped = map_to_nvm b o segno opened

    opened_fields :
        (opened.segs.free ≡ set_inuse o.geometry.segs_per_sec segno l.segs.free)
        × (opened.segs.nvm ≡ l.segs.nvm)
        × ((opened.logs log_type).segno ≡ segno)
        × ((opened.logs log_type).next_blkoff ≡ 0)
        × ((opened.logs log_type).alloc_type ≡ lfs)
    unfolding open_segment reset_curseg
    opened_fields = (refl, refl, ground arith, ground arith, ground arith)

    -- The state of the NVM after the allocation.
    abbrev allocated : Nvm
    allocated = (allocate_segment o.entries_per_blk b segno true l.segs.nvm).1

    segno_unmapped : map_flag (l.segs.nvm.mpt (ssd_index l.segs.nvm segno)) ≡ 0
    segno_unmapped = unmapped segno inside free

    refuses : l.segs.nvm.main_segment_free_nums ≡ 0 → allocated ≡ l.segs.nvm
    refuses z =
        ap (λ (r : Allocated × Nvm). r.1)
          (allocate_segment_refuses o.entries_per_blk b segno true l.segs.nvm z)

    takes :
        0 < l.segs.nvm.main_segment_free_nums
        → (n : ℕ) × Allocate.TakesFree segs segno true l.segs.nvm allocated n
    takes pos =
        let (n, s', e, t) =
          allocate_segment-TakesFree o.entries_per_blk b segs segno true l.segs.nvm right.consistent
            inside segno_unmapped pos in
        (n, rw (ap (λ (r : Allocated × Nvm). r.1) e) t)

    allocated-Consistent :
        Consistent segs allocated × (allocated.main_segment_nums ≡ l.segs.nvm.main_segment_nums)
    allocated-Consistent = elim (Bool-cases (l.segs.nvm.main_segment_free_nums == 0)) [
      | inl z ↦
          let e = refuses (ground arith) in
          (rw e right.consistent, ap (λ (n : Nvm). n.main_segment_nums) e)
      | inr pos ↦ let (n, t) = takes (ground arith) in (t.consistent, t.same_nums)
    ]

    mapped_fields :
        (mapped.segs.free ≡ opened.segs.free)
        × (mapped.logs ≡ opened.logs)
        × (mapped.segs.nvm ≡ allocated)
    unfolding map_to_nvm open_segment reset_curseg
    mapped_fields = (refl, refl, refl)

    taken-IsCounted :
        IsCounted o.geometry.segs_per_sec o.geometry.main_secs
          (set_inuse o.geometry.segs_per_sec segno l.segs.free)
    taken-IsCounted =
        set_inuse-IsCounted o.geometry.segs_per_sec o.geometry.main_secs segno l.segs.free
          right.counted some_seg inside free

    -- What is free afterwards is another segment, which was free.
    left_free :
        (j : ℕ)
        → (set_inuse o.geometry.segs_per_sec segno l.segs.free).free_segmap j ≡ false
        → (segno ≢ j) × (l.segs.free.free_segmap j ≡ false)
    left_free j idle =
        let bit = bit-set_inuse o.geometry.segs_per_sec segno l.segs.free j in
        (ground (arith, bit), ground (arith, bit))

    opened-Opens : Opens o log_type false l opened
    opened-Opens =
        let (free_is, nvm_is, at, start, by_lfs) = opened_fields in
        record {
          segno = segno;
          inside = inside;
          was_free = free;
          taken = free_is;
          on_it = (at, start, by_lfs);
          own_nvm = λ asked. absurd (ground arith);
          no_nvm = λ none. nvm_is;
          right = record {
            counted = rw free_is taken-IsCounted;
            consistent = rw nvm_is right.consistent;
          };
          unmapped =
              λ j less idle. rw nvm_is (unmapped j less (left_free j (rw (sym free_is) idle)).1);
        }

    mapped-Opens : Opens o log_type true l mapped
    mapped-Opens =
        let (free_is, nvm_was, at, start, by_lfs) = opened_fields in
        let (same_free, same_logs, nvm_is) = mapped_fields in
        let (consistent, nums) = allocated-Consistent in
        record {
          segno = segno;
          inside = inside;
          was_free = free;
          taken = same_free ∙ free_is;
          on_it = rw same_logs (at, start, by_lfs);
          own_nvm = λ asked pos.
              let (n, t) = takes pos in
              (n, t.within, t.was_free, rw nvm_is t.flagged, rw nvm_is t.mapped_to);
          no_nvm = λ none. elim none [ inl e ↦ absurd (ground arith) | inr z ↦ nvm_is ∙ refuses z ];
          right = record {
            counted = rw (same_free ∙ free_is) taken-IsCounted;
            consistent = rw nvm_is consistent;
          };
          unmapped = λ j less idle.
              let (other, was) = left_free j (rw (sym (same_free ∙ free_is)) idle) in
              rw nvm_is (
                ap (λ i. map_flag (allocated.mpt (i + j))) nums
                ∙ ap map_flag (
                    allocate_segment-mpt o.entries_per_blk b segs segno l.segs.nvm right.consistent
                      j other)
                ∙ unmapped j less was);
        }

    either-Opens : (to_nvm : Bool) → Opens o log_type to_nvm l (if to_nvm then mapped else opened)
    either-Opens true = mapped-Opens
    either-Opens false = opened-Opens

  opens_picked :
      (new_sec to_nvm : Bool) (segno : ℕ) (free : FreeSegmap)
      → get_new_segment b o.geometry
          (zone_in_use l)
          (next_hint b o log_type l)
          new_sec
          (direction b o log_type)
          l.segs.free
        ≡ (picked segno, free)
      → new_curseg b o log_type new_sec to_nvm l
        ≡ some (
            if to_nvm
            then map_to_nvm b o segno (open_segment b o log_type segno free l)
            else open_segment b o log_type segno free l)
  unfolding new_curseg
  opens_picked new_sec to_nvm segno free e =
      rw (e, new_curseg)
        (ap
          (λ (f : FreeSegmap). some (
            if to_nvm
            then map_to_nvm b o segno (open_segment b o log_type segno f l)
            else open_segment b o log_type segno f l))
          (ap (λ (r : Picked × FreeSegmap). r.1) e))

  -- Where the counts and mappings of both devices are right, no free segment has a mapping, a section
  -- is free and the search starts at a segment of the device, `new_curseg` does not fail. It puts the log on a segment that was free, at its
  -- first block; if the log is to write to the NVM and a segment is free there, the segment is mapped
  -- to one that was free, and else the NVM stays as it is. Counts and mappings are right afterwards,
  -- and no free segment has a mapping.
  pub new_curseg-Opens :
      (new_sec to_nvm : Bool)
      → 0 < l.segs.free.free_sections
      → next_hint b o log_type l < segs
      → (l' : Logs) × (new_curseg b o log_type new_sec to_nvm l ≡ some l')
        × Opens o log_type to_nvm l l'
  unfolding new_curseg
  new_curseg-Opens new_sec to_nvm some_free hint =
      let t =
        get_new_segment-TakesFree b o.geometry l.segs.free right.counted some_seg some_free
          (zone_in_use l) (next_hint b o log_type l) new_sec (direction b o log_type) hint in
      (
        if to_nvm then mapped t.segno t.inside t.was_free else opened t.segno t.inside t.was_free,
        opens_picked new_sec to_nvm t.segno (set_inuse o.geometry.segs_per_sec t.segno l.segs.free)
            t.taken,
        either-Opens t.segno t.inside t.was_free to_nvm,
      )
