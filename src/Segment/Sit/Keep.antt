-- ===== src/Segment/Sit/Keep.antt =====
-- An update keeps every count right.
use native.Mathlib.Nat as Nat
use hoit_f2fs.Base.{
  ℕ, suc, ◌+◌, ◌-◌, ◌*◌, ◌/◌, ◌^◌, ◌≤◌, ◌<◌, ◌≡◌, ◌≢◌, Bool, true, ltb, ◌==◌, if◌then◌else◌, ap,
  ◌∙◌, arith, inl, inr, Bool-cases,
}
use hoit_f2fs.Base.Arrays.{Array, update, count-update, count-le, sum, sum-update, sum-le, sum_ext}
use hoit_f2fs.Segment.Free.Counted.{section_start, section_end, in_section, section_in_range}
use hoit_f2fs.Segment.Sit.{
  SegEntry, SitInfo, Delta, gained, same, lost, plus_32, Update, count_ckpt, update_entry,
  update_sit_entry, mark_sit_entry_dirty,
}
use hoit_f2fs.Segment.Sit.Entry.{
  is_set, changes, EntryCounted, Moved, update_entry-counts, update_entry-Moved,
}
use hoit_f2fs.Segment.Sit.Counted.{valid_of, section_entries, SitCounted}

plus_32-Moved : (del : Delta) (n m : ℕ) → Moved del n m → m < 2 ^ 32 → plus_32 n del ≡ m
plus_32-Moved gained n m e less = omega arith
plus_32-Moved same n m e less = omega arith
plus_32-Moved lost n m e less = omega arith

-- A sum moves with the entry that changes.
sum-Moved : (del : Delta) (x y n m : ℕ) → Moved del x y → m + x ≡ n + y → Moved del n m
sum-Moved gained x y n m e h = omega arith
sum-Moved same x y n m e h = omega arith
sum-Moved lost x y n m e h = omega arith

module _ (blocks_per_seg segs_per_sec main_secs : ℕ) (some_seg : 0 < segs_per_sec)
    (fits : blocks_per_seg < 1024) (small : main_secs * segs_per_sec * blocks_per_seg < 2 ^ 32)
    (discard_en : Bool) (now : ℕ) (segno offset : ℕ) (del : Delta) (s : SitInfo)
    (c : SitCounted blocks_per_seg segs_per_sec main_secs s)
    (in_main : segno < main_secs * segs_per_sec) (inside : offset < blocks_per_seg)
    (fresh : changes del ((s.sentries segno).cur_valid_map offset) ≡ true) where
  abbrev u : Update
  u =
      update_entry blocks_per_seg discard_en now offset del (s.sentries segno) s.discard_blks
        s.need_fsck

  abbrev new_entry : SegEntry
  new_entry = count_ckpt offset u

  entry_counts : EntryCounted blocks_per_seg new_entry × (u.del ≡ del) × (u.bug ≡ s.need_fsck)
  entry_counts =
      update_entry-counts blocks_per_seg discard_en now fits offset inside (s.sentries segno)
        (c.entries segno in_main) s.discard_blks s.need_fsck del fresh

  valid_most :
      (seg : ℕ) → seg < main_secs * segs_per_sec → valid_of (s.sentries seg) ≤ blocks_per_seg
  valid_most seg less =
      let e = c.entries seg less in
      let le = count-le is_set (s.sentries seg).cur_valid_map blocks_per_seg in
      omega (arith, e.valid)

  moved : Moved del (valid_of (s.sentries segno)) (valid_of new_entry) × (new_entry.mtime ≡ now)
  moved =
      update_entry-Moved blocks_per_seg discard_en now fits offset inside (s.sentries segno)
        (c.entries segno in_main) s.discard_blks s.need_fsck del fresh

  abbrev sentries : Array SegEntry
  sentries = update s.sentries segno new_entry

  entry_kept :
      (seg : ℕ) → seg < main_secs * segs_per_sec → EntryCounted blocks_per_seg (sentries seg)
  entry_kept seg less = elim (Bool-cases (segno == seg)) [
    | inl own ↦ rw own entry_counts.0
    | inr other ↦ rw other (c.entries seg less)
  ]

  new_most : (seg : ℕ) → seg < main_secs * segs_per_sec → valid_of (sentries seg) ≤ blocks_per_seg
  new_most seg less =
      let e = entry_kept seg less in
      let le = count-le is_set (sentries seg).cur_valid_map blocks_per_seg in omega (arith, e.valid)

  written_kept :
      plus_32 s.written_valid_blocks del ≡ sum valid_of sentries (main_secs * segs_per_sec)
  written_kept =
      let all = sum valid_of s.sentries (main_secs * segs_per_sec) in
      let new_all = sum valid_of sentries (main_secs * segs_per_sec) in
      let one = sum-update valid_of s.sentries segno new_entry (main_secs * segs_per_sec) in_main in
      let most = sum-le valid_of sentries blocks_per_seg (main_secs * segs_per_sec) new_most in
      ap (λ n. plus_32 n del) c.written
      ∙ plus_32-Moved del all new_all
          (sum-Moved del (valid_of (s.sentries segno)) (valid_of new_entry) all new_all moved.0 one)
          (omega arith)

  abbrev secno : ℕ
  secno = segno / segs_per_sec

  abbrev section_after : ℕ → Array SegEntry
  section_after sec i = sentries (sec * segs_per_sec + i)

  segment_inside :
      (sec i : ℕ)
      → sec < main_secs
      → i < segs_per_sec
      → sec * segs_per_sec + i < main_secs * segs_per_sec
  segment_inside sec i less before =
      omega (arith, Nat.mul-le-mul_right {m = suc sec} {n = main_secs} segs_per_sec less)

  own_section_kept :
      plus_32 (sum valid_of (section_entries segs_per_sec s secno) segs_per_sec) del
      ≡ sum valid_of (section_after secno) segs_per_sec
  own_section_kept =
      let lo = section_start segs_per_sec some_seg segno in
      let hi = section_end segs_per_sec some_seg segno in
      let at = segno - secno * segs_per_sec in
      let old = section_entries segs_per_sec s secno in
      let moved_to = update old at new_entry in
      let within = section_in_range segs_per_sec some_seg main_secs segno in_main in
      let same_sum =
        sum_ext valid_of (section_after secno) moved_to segs_per_sec
          (λ i less. ground (arith, lo)) in
      let one = sum-update valid_of old at new_entry segs_per_sec (omega (arith, hi)) in
      let most =
        sum-le valid_of (section_after secno) blocks_per_seg segs_per_sec
          (λ i less. new_most (secno * segs_per_sec + i) (segment_inside secno i within less)) in
      let small_section =
        Nat.mul-le-mul_right {m = segs_per_sec} {n = main_secs * segs_per_sec} blocks_per_seg (
          omega (
            arith,
            Nat.mul-le-mul_right {m = 1} {n = main_secs} segs_per_sec (omega (arith, within)),
          )) in
      let back : (s.sentries segno).valid_blocks ≡ (old at).valid_blocks =
        ap (λ n. (s.sentries n).valid_blocks) (omega (arith, lo)) in
      plus_32-Moved del (sum valid_of old segs_per_sec)
        (sum valid_of (section_after secno) segs_per_sec)
        (sum-Moved del (valid_of (s.sentries segno)) (valid_of new_entry)
          (sum valid_of old segs_per_sec) (sum valid_of (section_after secno) segs_per_sec) moved.0
          (omega (arith, one, same_sum, back)))
        (omega arith)

  other_section_kept :
      (sec : ℕ)
      → secno ≢ sec
      → sum valid_of (section_entries segs_per_sec s sec) segs_per_sec
        ≡ sum valid_of (section_after sec) segs_per_sec
  other_section_kept sec ne =
      sum_ext valid_of (section_entries segs_per_sec s sec) (section_after sec) segs_per_sec
        (λ i less.
          let own =
            in_section segs_per_sec some_seg sec (sec * segs_per_sec + i) (omega arith)
              (omega arith) in
          let other : segno ≢ sec * segs_per_sec + i =
            λ e. ne (ap (λ n. n / segs_per_sec) e ∙ own) in
          ground arith)

  section_kept :
      (sec : ℕ)
      → ltb 1 segs_per_sec ≡ true
      → sec < main_secs
      → (if secno == sec then plus_32 (s.sec_valid_blocks secno) u.del else s.sec_valid_blocks sec)
        ≡ sum valid_of (section_after sec) segs_per_sec
  section_kept sec many less = elim (Bool-cases (secno == sec)) [
    | inl own ↦
        let e : secno ≡ sec = ground arith in
        rw own (
          ap (λ d. plus_32 (s.sec_valid_blocks secno) d) entry_counts.1
          ∙ ap (λ n. plus_32 n del) (c.sections secno many (omega (arith, e)))
          ∙ own_section_kept
          ∙ ap (λ n. sum valid_of (section_after n) segs_per_sec) e)
    | inr other ↦ rw other (c.sections sec many less ∙ other_section_kept sec (ground arith))
  ]

  -- Where the bitmap has the block as it should be, `update_sit_entry` keeps the counts of valid
  -- blocks of the segment, of its section and of the device, the count of blocks kept for the last
  -- checkpoint and that of the dirty entries those of the bitmaps.
  pub update_sit_entry-SitCounted :
      SitCounted blocks_per_seg segs_per_sec main_secs
        (update_sit_entry blocks_per_seg discard_en now segs_per_sec segno offset del s)
  unfolding update_sit_entry mark_sit_entry_dirty
  update_sit_entry-SitCounted = record {
    entries = entry_kept;
    written = ap (λ d. plus_32 s.written_valid_blocks d) entry_counts.1 ∙ written_kept;
    sections = λ sec many less. rw many (section_kept sec many less);
    dirty = ground (
      arith,
      c.dirty,
      count-update is_set s.dirty_sentries_bitmap segno true (main_secs * segs_per_sec) in_main,
    );
    newest = λ seg less. ground (arith, moved.1, c.newest seg less);
  }
