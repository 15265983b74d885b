-- ===== src/Nvm/Segments/Cycle.antt =====
-- Allocating and unmapping in turn.
use hoit_f2fs.Base.{ℕ, ◌+◌, ◌<◌, ◌≡◌, ◌≢◌, true, false, ◌∙◌, arith}
use hoit_f2fs.Base.BitSearch.{BitSearch}
use native.Mathlib.Decide.{ℕ_discrete}
use hoit_f2fs.Nvm.Entry.{value, map_flag}
use hoit_f2fs.Nvm.Entry.Fields.{entry-HasFields}
use hoit_f2fs.Nvm.Segments.{
  Nvm, segment, create_mapping, take_segment, allocate_segment, unset_mapping,
}
use hoit_f2fs.Nvm.Segments.Consistent.{Consistent}
use hoit_f2fs.Nvm.Segments.Allocate.{
  TakesFree, search_finds, after, allocate_segment-eq, allocate_segment-TakesFree,
}
use hoit_f2fs.Nvm.Segments.Unset.{unset_mapping-Releases}

-- Two NVM segments are taken and mapped to one SSD segment, which leads to the second only.
pub record Orphans (k lost n : ℕ) (s' : Nvm) : Type 0 where
  pub other : n ≢ lost
  pub leads_on : value (s'.mpt (s'.main_segment_nums + k)) ≡ n
  pub lost_taken : s'.segment_map lost ≡ true
  pub lost_flagged : map_flag (s'.mpt lost) ≢ 0
  pub lost_leads : value (s'.mpt lost) ≡ k

module _ (entries_per_blk : ℕ) (b : BitSearch) (ssd_nums k : ℕ) (s : Nvm)
    (c : Consistent ssd_nums s) (hk : k < ssd_nums) (pos : 0 < s.main_segment_free_nums) where
  after-Orphans :
      (n : ℕ)
      → n < s.main_segment_nums
      → s.segment_map n ≡ false
      → map_flag (s.mpt (s.main_segment_nums + k)) ≢ 0
      → Orphans k (value (s.mpt (s.main_segment_nums + k))) n (after entries_per_blk k true n s)
  unfolding take_segment create_mapping
  after-Orphans n hn free mapped =
      let (hm, there, back) = c.ssd_side k hk mapped in
      let m = value (s.mpt (s.main_segment_nums + k)) in
      let taken = (c.nvm_side m hm there).1 in
      let stored = entry-HasFields n 3 (omega (arith, c.small)) (omega arith) in
      record {
        other = λ e. ground arith;
        leads_on = ground (arith, stored);
        lost_taken = ground arith;
        lost_flagged = ground arith;
        lost_leads = ground arith;
      }

  -- `nvm_allocate_segment` does not look whether the SSD segment has a mapping already. In a
  -- consistent state with free segments, a call with `is_create_mapping` for a mapped SSD segment
  -- allocates a second NVM segment for it. The first one stays taken, with an entry that names the
  -- SSD segment, but the entry of the SSD segment names the second.
  pub allocate_segment-Orphans :
      map_flag (s.mpt (s.main_segment_nums + k)) ≢ 0
      → (n : ℕ) × (s' : Nvm) × (allocate_segment entries_per_blk b k true s ≡ (segment n, s'))
        × Orphans k (value (s.mpt (s.main_segment_nums + k))) n s'
  allocate_segment-Orphans mapped =
      let (n, e, hn, free) = search_finds b s s.cur_alloc_nvm_segoff (omega (arith, c.counted)) in
      (
        n,
        after entries_per_blk k true n s,
        allocate_segment-eq entries_per_blk b k true s n pos (omega (arith, c.counted)) e,
        after-Orphans n hn free mapped,
      )

  restored :
      (n : ℕ) (s' : Nvm)
      → TakesFree ssd_nums k true s s' n
      → ((m : ℕ) → (unset_mapping entries_per_blk k s').segment_map m ≡ s.segment_map m)
        × ((unset_mapping entries_per_blk k s').main_segment_free_nums ≡ s.main_segment_free_nums)
  restored n s' t =
      let same : s'.main_segment_nums + k ≡ s.main_segment_nums + k = omega (arith, t.same_nums) in
      let released =
        unset_mapping-Releases entries_per_blk ssd_nums k s' t.consistent hk
          (λ z. ground (arith, t.flagged, same, z)) in
      let target : value (s'.mpt (s'.main_segment_nums + k)) ≡ n = rw same t.mapped_to in
      (
        λ m. elim (ℕ_discrete m n) [
          | yes e ↦ ground (arith, e, target, released.freed, t.was_free)
          | no ne ↦ released.others m (λ e. ne (e ∙ target)) ∙ t.others m ne
        ],
        omega (arith, released.one_more, t.one_less),
      )

  -- For an unmapped SSD segment and free segments in a consistent state, `nvm_allocate_segment`
  -- with `is_create_mapping` succeeds, and `unset_mapping` afterwards gives back the bitmap and the
  -- count of free segments.
  pub unset_mapping-allocate_segment :
      map_flag (s.mpt (s.main_segment_nums + k)) ≡ 0
      → (n : ℕ) × (s' : Nvm) × (allocate_segment entries_per_blk b k true s ≡ (segment n, s'))
        × ((m : ℕ) → (unset_mapping entries_per_blk k s').segment_map m ≡ s.segment_map m)
        × ((unset_mapping entries_per_blk k s').main_segment_free_nums ≡ s.main_segment_free_nums)
  unset_mapping-allocate_segment unmapped =
      let (n, s', e, t) =
        allocate_segment-TakesFree entries_per_blk b ssd_nums k true s c hk unmapped pos in
      let (bits, free) = restored n s' t in (n, s', e, bits, free)
