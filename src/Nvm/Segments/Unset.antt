-- ===== src/Nvm/Segments/Unset.antt =====
-- `unset_mapping` and `set_double` keep the invariant.
use hoit_f2fs.Base.{ℕ, ◌+◌, ◌<◌, ◌≡◌, ◌≢◌, refl, false, ==_false, arith}
use hoit_f2fs.Base.Arrays.{count-update}
use hoit_f2fs.Nvm.Entry.{value, map_flag, double_flag}
use hoit_f2fs.Nvm.Entry.Digits.{flag_digits}
use hoit_f2fs.Nvm.Entry.Fields.{with-HasFields}
use hoit_f2fs.Nvm.Segments.{Nvm, release, unset_mapping, mark_double, set_double}
use hoit_f2fs.Nvm.Segments.Consistent.{Consistent}

-- What unmapping the SSD segment `k` of `s` does when it was mapped.
pub record Releases (ssd_nums k : ℕ) (s s' : Nvm) : Type 0 where
  pub unmapped : map_flag (s'.mpt (s.main_segment_nums + k)) ≡ 0
  pub freed : s'.segment_map (value (s.mpt (s.main_segment_nums + k))) ≡ false
  pub one_more : s'.main_segment_free_nums ≡ s.main_segment_free_nums + 1
  pub others :
      (m : ℕ) → m ≢ value (s.mpt (s.main_segment_nums + k)) → s'.segment_map m ≡ s.segment_map m
  pub consistent : Consistent ssd_nums s'

-- What `set_double` does to a mapped segment.
pub record Doubles (ssd_nums k : ℕ) (s s' : Nvm) : Type 0 where
  pub ssd_double : double_flag (s'.mpt (s.main_segment_nums + k)) ≡ 4
  pub nvm_double : double_flag (s'.mpt (value (s.mpt (s.main_segment_nums + k)))) ≡ 4
  pub same_values : (i : ℕ) → value (s'.mpt i) ≡ value (s.mpt i)
  pub same_maps : (i : ℕ) → map_flag (s'.mpt i) ≡ map_flag (s.mpt i)
  pub same_bitmap : s'.segment_map ≡ s.segment_map
  pub still_consistent : Consistent ssd_nums s'

module _ (entries_per_blk ssd_nums k : ℕ) (s : Nvm) (c : Consistent ssd_nums s)
    (hk : k < ssd_nums) where
  release-Releases :
      map_flag (s.mpt (s.main_segment_nums + k)) ≢ 0
      → Releases ssd_nums k s (release entries_per_blk (s.main_segment_nums + k) s)
  unfolding release
  release-Releases mapped =
      let (hn, there, back) = c.ssd_side k hk mapped in
      let n = value (s.mpt (s.main_segment_nums + k)) in
      let zero_flag = flag_digits 0 in
      record {
        unmapped = ground (arith, zero_flag);
        freed = ground arith;
        one_more = refl;
        others = λ m ne. ground arith;
        consistent = record {
          small = c.small;
          ssd_side = λ j hj flagged. ground (arith, zero_flag, c.ssd_side j hj);
          nvm_side = λ m hm flagged. ground (arith, zero_flag, c.nvm_side m hm);
          counted = ground (
            arith,
            c.counted,
            c.nvm_side n hn there,
            count-update (λ t. t) s.segment_map n false s.main_segment_nums hn,
          );
        };
      }

  -- In a consistent state, unmapping a mapped SSD segment removes its mapping, frees exactly the
  -- NVM segment that it was mapped to, counts one free segment more, and leaves a consistent state.
  pub unset_mapping-Releases :
      map_flag (s.mpt (s.main_segment_nums + k)) ≢ 0
      → Releases ssd_nums k s (unset_mapping entries_per_blk k s)
  unfolding unset_mapping
  unset_mapping-Releases mapped = rw (==_false _ _ mapped) (release-Releases mapped)

  mark_double-Consistent :
      map_flag (s.mpt (s.main_segment_nums + k)) ≢ 0
      → Consistent ssd_nums (mark_double entries_per_blk (s.main_segment_nums + k) s)
  unfolding mark_double
  mark_double-Consistent mapped =
      let (hn, there, back) = c.ssd_side k hk mapped in
      let n = value (s.mpt (s.main_segment_nums + k)) in
      let kept_ssd = (with-HasFields (s.mpt (s.main_segment_nums + k))).2 in
      let kept_nvm = (with-HasFields (s.mpt n)).2 in
      record {
        small = c.small;
        ssd_side = λ j hj flagged. ground (arith, kept_ssd, kept_nvm, c.ssd_side j hj);
        nvm_side = λ m hm flagged. ground (arith, kept_ssd, kept_nvm, c.nvm_side m hm);
        counted = c.counted;
      }

  mark_double-Doubles :
      map_flag (s.mpt (s.main_segment_nums + k)) ≢ 0
      → Doubles ssd_nums k s (mark_double entries_per_blk (s.main_segment_nums + k) s)
  unfolding mark_double
  mark_double-Doubles mapped =
      let (hn, there, back) = c.ssd_side k hk mapped in
      let n = value (s.mpt (s.main_segment_nums + k)) in
      let kept_ssd = (with-HasFields (s.mpt (s.main_segment_nums + k))).2 in
      let kept_nvm = (with-HasFields (s.mpt n)).2 in
      record {
        ssd_double = ground (arith, kept_ssd, kept_nvm);
        nvm_double = ground (arith, kept_ssd, kept_nvm);
        same_values = λ i. ground (arith, kept_ssd, kept_nvm);
        same_maps = λ i. ground (arith, kept_ssd, kept_nvm);
        same_bitmap = refl;
        still_consistent = unfold mark_double in mark_double-Consistent mapped;
      }

  -- In a consistent state, `set_double` on a mapped SSD segment sets the double flag in the entries
  -- of the segment and of its NVM segment. It changes no offset, no mapping and no allocation, and
  -- the state stays consistent.
  pub set_double-Doubles :
      map_flag (s.mpt (s.main_segment_nums + k)) ≢ 0
      → Doubles ssd_nums k s (set_double entries_per_blk k s)
  unfolding set_double
  set_double-Doubles mapped = rw (==_false _ _ mapped) (mark_double-Doubles mapped)

-- `unset_mapping` maps nothing: what was unmapped stays so.
module _ (entries_per_blk k : ℕ) (s : Nvm) where
  pub unset_mapping-unmapped :
      (i : ℕ) → map_flag (s.mpt i) ≡ 0 → map_flag ((unset_mapping entries_per_blk k s).mpt i) ≡ 0
  unfolding unset_mapping release
  unset_mapping-unmapped i e = let zero_flag = flag_digits 0 in ground (arith, zero_flag)

  pub unset_mapping-nums :
      (unset_mapping entries_per_blk k s).main_segment_nums ≡ s.main_segment_nums
  unfolding unset_mapping release
  unset_mapping-nums = ground arith
