-- ===== src/Segment/Prefree/Frees.antt =====
-- `set_prefree_as_free_segments` frees the prefree segments on both devices.
use hoit_f2fs.Base.{
  ℕ, zero, suc, ◌*◌, ◌≤◌, ◌<◌, ◌≡◌, Bool, true, false, not, ◌&&◌, ltb, ◌==◌, refl, ap, ◌∙◌, arith,
  inl, inr, Bool-cases,
}
use hoit_f2fs.Base.Arrays.{Array}
use hoit_f2fs.Base.BitSearch.{BitSearch}
use hoit_f2fs.Nvm.Entry.{map_flag}
use hoit_f2fs.Nvm.Segments.{ssd_index}
use hoit_f2fs.Nvm.Segments.Consistent.{Consistent}
use hoit_f2fs.Nvm.Segments.Unset.{
  unset_mapping-Releases, unset_mapping-unmapped, unset_mapping-nums,
}
use hoit_f2fs.Segment.Free.{set_test_and_free}
use hoit_f2fs.Segment.Free.Counted.{IsCounted}
use hoit_f2fs.Segment.Free.Keep.{set_test_and_free-IsCounted, bit-set_test_and_free}
use hoit_f2fs.Segment.Dirty.{pre, DirtySeglist}
use hoit_f2fs.Segment.Prefree.{
  Segments, for_each_set_bit, free_segment, set_prefree_as_free_segments,
}

-- The counts of both devices are right.
pub record BothRight (segs_per_sec main_secs : ℕ) (s : Segments) : Type 0 where
  pub counted : IsCounted segs_per_sec main_secs s.free
  pub consistent : Consistent (main_secs * segs_per_sec) s.nvm

-- The segments of a bitmap `map` below `n` have become free and lost their mappings; the others in
-- use stay so, and what had no mapping has none.
pub record Frees (segs_per_sec main_secs : ℕ) (map : Array Bool) (n : ℕ) (s s' : Segments)
    : Type 0 where
  pub bits :
      (seg : ℕ) → s'.free.free_segmap seg ≡ (s.free.free_segmap seg && not (ltb seg n && map seg))
  pub unmapped :
      (seg : ℕ) → seg < n → map seg ≡ true → map_flag (s'.nvm.mpt (ssd_index s'.nvm seg)) ≡ 0
  pub stays : (i : ℕ) → map_flag (s.nvm.mpt i) ≡ 0 → map_flag (s'.nvm.mpt i) ≡ 0
  pub nums : s'.nvm.main_segment_nums ≡ s.nvm.main_segment_nums
  pub right : BothRight segs_per_sec main_secs s'

module _ (segs_per_sec entries_per_blk main_secs : ℕ) (b : BitSearch)
    (some_seg : 0 < segs_per_sec) where
  -- One segment.
  module _ (s : Segments) (r : BothRight segs_per_sec main_secs s) (segno : ℕ)
      (inside : segno < main_secs * segs_per_sec) where
    abbrev after : Segments
    after = free_segment segs_per_sec entries_per_blk b segno s

    abbrev flag_clear : Bool
    flag_clear = map_flag (s.nvm.mpt (ssd_index s.nvm segno)) == 0

    freed_free : after.free ≡ set_test_and_free segs_per_sec b segno s.free
    unfolding free_segment
    freed_free = ground arith

    freed_unmapped : map_flag (after.nvm.mpt (ssd_index s.nvm segno)) ≡ 0
    unfolding free_segment
    freed_unmapped = elim (Bool-cases flag_clear) [
      | inl none ↦ rw none (ground arith)
      | inr mapped ↦
          rw mapped
            (unset_mapping-Releases entries_per_blk (main_secs * segs_per_sec) segno s.nvm
              r.consistent inside (ground arith)).unmapped
    ]

    freed_stays : (i : ℕ) → map_flag (s.nvm.mpt i) ≡ 0 → map_flag (after.nvm.mpt i) ≡ 0
    unfolding free_segment
    freed_stays i e = ground (arith, unset_mapping-unmapped entries_per_blk segno s.nvm i e)

    freed_nums : after.nvm.main_segment_nums ≡ s.nvm.main_segment_nums
    unfolding free_segment
    freed_nums = ground (arith, unset_mapping-nums entries_per_blk segno s.nvm)

    freed-Consistent : Consistent (main_secs * segs_per_sec) after.nvm
    unfolding free_segment
    freed-Consistent = elim (Bool-cases flag_clear) [
      | inl none ↦ rw none r.consistent
      | inr mapped ↦
          rw mapped
            (unset_mapping-Releases entries_per_blk (main_secs * segs_per_sec) segno s.nvm
              r.consistent inside (ground arith)).consistent
    ]

    freed-BothRight : BothRight segs_per_sec main_secs after
    freed-BothRight = record {
      counted = rw freed_free (
          set_test_and_free-IsCounted segs_per_sec main_secs segno s.free r.counted some_seg inside
            b);
      consistent = freed-Consistent;
    }

  module _ (s : Segments) (r : BothRight segs_per_sec main_secs s) (map : Array Bool) where
    freed : ℕ → Segments
    freed n = for_each_set_bit map (free_segment segs_per_sec entries_per_blk b) n s

    none_more :
        (n : ℕ) (t : Segments)
        → map n ≡ false
        → Frees segs_per_sec main_secs map n s t
        → Frees segs_per_sec main_secs map (suc n) s t
    none_more n t clear f = record {
      bits = λ seg. ground (arith, f.bits seg);
      unmapped = λ seg less set. f.unmapped seg (ground arith) set;
      stays = f.stays;
      nums = f.nums;
      right = f.right;
    }

    one_more :
        (n : ℕ) (t : Segments)
        → n < main_secs * segs_per_sec
        → map n ≡ true
        → Frees segs_per_sec main_secs map n s t
        → Frees segs_per_sec main_secs map
            (suc n)
            s
            (free_segment segs_per_sec entries_per_blk b n t)
    one_more n t inside set f =
        let bit = bit-set_test_and_free segs_per_sec b n t.free in
        let now = freed_nums t f.right n inside in
        record {
          bits = λ seg. rw (freed_free t f.right n inside) (ground (arith, f.bits seg, bit seg));
          unmapped = λ seg less set. rw now (elim (Bool-cases (seg == n)) [
            | inl own ↦
                let e : seg ≡ n = ground arith in
                ap (λ k. map_flag ((after t f.right n inside).nvm.mpt (ssd_index t.nvm k))) e
                ∙ freed_unmapped t f.right n inside
            | inr other ↦
                freed_stays t f.right n inside (ssd_index t.nvm seg)
                  (f.unmapped seg (ground arith) set)
          ]);
          stays = λ i e. freed_stays t f.right n inside i (f.stays i e);
          nums = now ∙ f.nums;
          right = freed-BothRight t f.right n inside;
        }

    for_each_set_bit-Frees :
        (n : ℕ) → n ≤ main_secs * segs_per_sec → Frees segs_per_sec main_secs map n s (freed n)
    unfolding for_each_set_bit freed
    for_each_set_bit-Frees zero le = record {
      bits = λ seg. ground arith;
      unmapped = λ seg less. absurd (omega arith);
      stays = λ i e. e;
      nums = refl;
      right = r;
    }
    for_each_set_bit-Frees (suc n) le =
        let f = for_each_set_bit-Frees n (omega arith) in
        elim (Bool-cases (map n)) [
          | inl set ↦ rw set (one_more n (freed n) le set f)
          | inr clear ↦ rw clear (none_more n (freed n) clear f)
        ]

-- A free segment of the SSD has no mapping.
abbrev pub FreeUnmapped : ℕ → Segments → Type 0
FreeUnmapped main_segs s =
    (seg : ℕ)
    → seg < main_segs
    → s.free.free_segmap seg ≡ false
    → map_flag (s.nvm.mpt (ssd_index s.nvm seg)) ≡ 0

module _ (segs_per_sec entries_per_blk main_secs : ℕ) (b : BitSearch) (some_seg : 0 < segs_per_sec)
    (d : DirtySeglist) (s : Segments) (r : BothRight segs_per_sec main_secs s) where
  abbrev all_freed : Segments
  all_freed =
      set_prefree_as_free_segments segs_per_sec entries_per_blk b (main_secs * segs_per_sec) d s

  -- Where the counts of both devices are right, `set_prefree_as_free_segments` frees exactly the
  -- prefree segments of the SSD, leaves none of them a mapping to the NVM, maps nothing that had no
  -- mapping, and leaves the counts and the mappings of both devices right.
  pub set_prefree_as_free_segments-Frees :
      Frees segs_per_sec main_secs (d.dirty_segmap pre) (main_secs * segs_per_sec) s all_freed
  unfolding set_prefree_as_free_segments freed
  set_prefree_as_free_segments-Frees =
      for_each_set_bit-Frees segs_per_sec entries_per_blk main_secs b some_seg s r
        (d.dirty_segmap pre) (main_secs * segs_per_sec) (omega arith)

  -- Afterwards no free segment has a mapping, if none had one before.
  pub set_prefree_as_free_segments-FreeUnmapped :
      FreeUnmapped (main_secs * segs_per_sec) s → FreeUnmapped (main_secs * segs_per_sec) all_freed
  set_prefree_as_free_segments-FreeUnmapped h seg less free =
      let f = set_prefree_as_free_segments-Frees in
      elim (Bool-cases (d.dirty_segmap pre seg)) [
        | inl was_pre ↦ f.unmapped seg less was_pre
        | inr other ↦
            rw f.nums (f.stays (ssd_index s.nvm seg) (h seg less (ground (arith, f.bits seg))))
      ]
