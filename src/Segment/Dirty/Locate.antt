-- ===== src/Segment/Dirty/Locate.antt =====
-- Where `locate_dirty_segment` puts a segment.
use hoit_f2fs.Base.{
  ℕ, ◌<◌, ◌≡◌, ◌≢◌, Bool, true, false, not, ◌&&◌, ◌||◌, leb, ltb, ◌==◌, if◌then◌else◌, arith,
}
use hoit_f2fs.Base.Arrays.{Array}
use hoit_f2fs.Segment.Sit.{SitInfo, get_valid_blocks}
use hoit_f2fs.Segment.Dirty.{
  dirty, pre, DirtySeglist, set_dirty, clear_dirty, is_curseg, null_segno, locate_in, remove_from,
  locate_dirty_segment,
}
use hoit_f2fs.Segment.Dirty.Counted.{
  DirtyCounted, IsSplit, set_dirty-DirtyCounted, clear_dirty-DirtyCounted,
}

module _ (main_segs : ℕ) (x y : DirtySeglist) where
  if-DirtyCounted :
      (test : Bool)
      → DirtyCounted main_segs x
      → DirtyCounted main_segs y
      → DirtyCounted main_segs (if test then x else y)
  if-DirtyCounted true cx cy = cx
  if-DirtyCounted false cx cy = cy

module _ (segs_per_sec : ℕ) (cursegs : Array ℕ) (s : SitInfo) (segno : ℕ) where
  -- Is the list `u` one of those that a segment is put in for the type `t`?
  abbrev pub written : ℕ → ℕ → Bool
  written t u = (u == t) || ((t == dirty) && (u == (s.sentries segno).log_type))

  module _ (t : ℕ) (d : DirtySeglist) where
    abbrev pub located : DirtySeglist
    located = locate_in segs_per_sec cursegs s segno t d

    abbrev pub removed : DirtySeglist
    removed = remove_from segs_per_sec cursegs s segno t d

    bits-locate_in :
        is_curseg cursegs segno ≡ false
        → (s.sentries segno).log_type < 6
        → (u seg : ℕ)
        → located.dirty_segmap u seg ≡ (((segno == seg) && written t u) || d.dirty_segmap u seg)
    unfolding locate_in set_dirty
    bits-locate_in idle typed u seg = ground arith

    pub bits-remove_from :
        (u seg : ℕ)
        → removed.dirty_segmap u seg ≡ (not ((segno == seg) && written t u) && d.dirty_segmap u seg)
    unfolding remove_from clear_dirty
    bits-remove_from u seg = ground arith

    module _ (main_segs : ℕ) (inside : segno < main_segs) (c : DirtyCounted main_segs d) where
      locate_in-DirtyCounted : DirtyCounted main_segs located
      unfolding locate_in
      locate_in-DirtyCounted =
          let log = (s.sentries segno).log_type in
          let one = set_dirty-DirtyCounted main_segs segno t d c inside in
          let two = set_dirty-DirtyCounted main_segs segno log (set_dirty t segno d) one inside in
          if-DirtyCounted main_segs _ _ (is_curseg cursegs segno) c (
            if-DirtyCounted main_segs _ _ (t == dirty)
              (if-DirtyCounted main_segs _ _ (leb dirty log) one two) one)

      pub remove_from-DirtyCounted : DirtyCounted main_segs removed
      unfolding remove_from
      remove_from-DirtyCounted =
          let log = (s.sentries segno).log_type in
          let one = clear_dirty-DirtyCounted main_segs segno t d c inside in
          let two =
            clear_dirty-DirtyCounted main_segs segno log (clear_dirty t segno d) one inside in
          if-DirtyCounted main_segs _ _ (t == dirty)
            (if-DirtyCounted main_segs _ _ (get_valid_blocks segs_per_sec segno true s == 0)
              (record { counts = two.counts }) two)
            one

module _ (segs_per_sec blocks_per_seg : ℕ) (cursegs : Array ℕ) (s : SitInfo) (segno : ℕ)
    (d : DirtySeglist) where
  abbrev after : DirtySeglist
  after = locate_dirty_segment segs_per_sec cursegs s blocks_per_seg segno d

  abbrev valid : ℕ
  valid = (s.sentries segno).valid_blocks

  -- Where the segment is: among the dirty ones if some but not all of its blocks are valid, among
  -- the prefree ones if none is, and else where it was.
  pub record Classifies : Type 0 where
    pub is_dirty : after.dirty_segmap dirty segno ≡ (ltb 0 valid && ltb valid blocks_per_seg)
    pub is_pre : after.dirty_segmap pre segno ≡ ((valid == 0) || d.dirty_segmap pre segno)
    pub others : (t seg : ℕ) → segno ≢ seg → after.dirty_segmap t seg ≡ d.dirty_segmap t seg

  -- Which list the segment is in afterwards.
  abbrev bit : ℕ → ℕ → Bool
  bit u seg =
      if valid == 0
      then not ((segno == seg) && written segs_per_sec cursegs s segno dirty u)
        && (((segno == seg) && written segs_per_sec cursegs s segno pre u) || d.dirty_segmap u seg)
      else if ltb valid blocks_per_seg
      then ((segno == seg) && written segs_per_sec cursegs s segno dirty u) || d.dirty_segmap u seg
      else not ((segno == seg) && written segs_per_sec cursegs s segno dirty u)
        && d.dirty_segmap u seg

  module _ (typed : (s.sentries segno).log_type < 6) (idle : is_curseg cursegs segno ≡ false)
      (less : segno < null_segno) where
    bits-locate_dirty_segment : (u seg : ℕ) → after.dirty_segmap u seg ≡ bit u seg
    unfolding locate_dirty_segment
    bits-locate_dirty_segment u seg =
        let to_pre = locate_in segs_per_sec cursegs s segno pre d in
        let a = bits-locate_in segs_per_sec cursegs s segno pre d idle typed u seg in
        let b = bits-remove_from segs_per_sec cursegs s segno dirty to_pre u seg in
        let c = bits-locate_in segs_per_sec cursegs s segno dirty d idle typed u seg in
        let e = bits-remove_from segs_per_sec cursegs s segno dirty d u seg in ground arith

    pub locate_dirty_segment-Classifies : Classifies
    locate_dirty_segment-Classifies = record {
      is_dirty = ground (arith, bits-locate_dirty_segment dirty segno);
      is_pre = ground (arith, bits-locate_dirty_segment pre segno);
      others = λ t seg ne. ground (arith, bits-locate_dirty_segment t seg);
    }

    pub locate_dirty_segment-IsSplit :
        (main_segs : ℕ) → IsSplit main_segs s d → IsSplit main_segs s after
    locate_dirty_segment-IsSplit main_segs split seg t inside known = ground (
      arith,
      split seg t inside known,
      bits-locate_dirty_segment t seg,
      bits-locate_dirty_segment dirty seg,
    )

  pub locate_dirty_segment-DirtyCounted :
      (main_segs : ℕ) → segno < main_segs → DirtyCounted main_segs d → DirtyCounted main_segs after
  unfolding locate_dirty_segment
  locate_dirty_segment-DirtyCounted main_segs inside c =
      let to_pre = locate_in segs_per_sec cursegs s segno pre d in
      let freed =
        remove_from-DirtyCounted segs_per_sec cursegs s segno dirty to_pre main_segs inside
          (locate_in-DirtyCounted segs_per_sec cursegs s segno pre d main_segs inside c) in
      if-DirtyCounted main_segs _ _ ((segno == null_segno) || is_curseg cursegs segno) c (
        if-DirtyCounted main_segs _ _ (valid == 0) freed (
          if-DirtyCounted main_segs _ _ (ltb valid blocks_per_seg)
            (locate_in-DirtyCounted segs_per_sec cursegs s segno dirty d main_segs inside c)
            (remove_from-DirtyCounted segs_per_sec cursegs s segno dirty d main_segs inside c)))
