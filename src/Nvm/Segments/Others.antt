-- ===== src/Nvm/Segments/Others.antt =====
-- An allocation leaves the entries of the other segments alone.
use hoit_f2fs.Base.{ap, ◌∙◌, ℕ, ◌+◌, ◌≡◌, ◌≢◌, true, arith}
use hoit_f2fs.Base.BitSearch.{BitSearch}
use hoit_f2fs.Nvm.Segments.{Allocated, Nvm, create_mapping, take_segment, allocate_segment}
use hoit_f2fs.Nvm.Segments.Consistent.{Consistent}
use native.Mathlib.Decide.{ℕ_discrete}
use hoit_f2fs.Nvm.Segments.Allocate.{
  search_finds, after, allocate_segment-eq, allocate_segment_refuses,
}

module _ (entries_per_blk : ℕ) (b : BitSearch) (ssd_nums k : ℕ) (s : Nvm)
    (c : Consistent ssd_nums s) where
  after-mpt :
      (n i : ℕ)
      → n ≢ i
      → s.main_segment_nums + k ≢ i
      → (after entries_per_blk k true n s).mpt i ≡ s.mpt i
  unfolding create_mapping take_segment
  after-mpt n i ne other = ground arith

  -- An allocation for `k` leaves the entries of all other SSD segments alone.
  pub allocate_segment-mpt :
      (j : ℕ)
      → k ≢ j
      → (allocate_segment entries_per_blk b k true s).1.mpt (s.main_segment_nums + j)
        ≡ s.mpt (s.main_segment_nums + j)
  allocate_segment-mpt j ne = elim (ℕ_discrete s.main_segment_free_nums 0) [
    | yes z ↦
        ap (λ (r : Allocated × Nvm). r.1.mpt (s.main_segment_nums + j))
          (allocate_segment_refuses entries_per_blk b k true s z)
    | no pos ↦
        let (n, e, hn, free) = search_finds b s s.cur_alloc_nvm_segoff (omega (arith, c.counted)) in
        ap (λ (r : Allocated × Nvm). r.1.mpt (s.main_segment_nums + j))
          (allocate_segment-eq entries_per_blk b k true s n (omega arith) (omega (arith, c.counted))
            e)
        ∙ after-mpt n (s.main_segment_nums + j) (omega arith) (omega arith)
  ]
