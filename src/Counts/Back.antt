-- ===== src/Counts/Back.antt =====
-- Blocks that were counted are taken back.
use native.Mathlib.Nat as Nat
use hoit_f2fs.Base.{ℕ, ◌+◌, ◌*◌, ◌%◌, ◌<◌, ◌≤◌, ◌≡◌, ◌∙◌, sym, some, ltb, ◌||◌, false, arith, refl}
use hoit_f2fs.Base.Words.{u32_mod, ◌-32◌}
use hoit_f2fs.Counts.{
  Counts, Caller, Quota, ok, grow_reserve, inc_valid_block_count, dec_valid_block_count,
}
use hoit_f2fs.Counts.Grants.{
  IsCounted, nothing, some_of_it, inc_valid_block_count-Grants, granted, with_granted,
}

module _ (quota : Quota) where
  open quota use {State, reserve, i_blocks, claim, free}

  grow_reserve-total :
      (s : Counts) (n : ℕ) → (grow_reserve s n).total_valid_block_count ≡ s.total_valid_block_count
  unfolding grow_reserve
  grow_reserve-total s n = ground arith

  -- No `f2fs_bug_on` is met where the blocks are counted and charged.
  dec_returns :
      (s : Counts) (q : State) (n : ℕ)
      → n ≤ s.total_valid_block_count
      → n * 8 ≤ i_blocks q
      → dec_valid_block_count quota s q n
        ≡ some (
          grow_reserve (record s { total_valid_block_count = s.total_valid_block_count -32 n }) n,
          free q n,
        )
  unfolding dec_valid_block_count
  dec_returns s q n counted charged =
      let wraps : (n * 8) % u32_mod ≤ n * 8 = Nat.mod-le (n * 8) u32_mod in
      let fine : (ltb s.total_valid_block_count n || ltb (i_blocks q) ((n * 8) % u32_mod)) ≡ false =
        ground (arith, wraps) in
      rw fine refl

  module _ (c : Caller) (s : Counts) (k : IsCounted s) (q q' : State) (count : ℕ)
      (some_blocks : 0 < count) (small : s.total_valid_block_count + count < u32_mod)
      (reserved : reserve q count ≡ some q') where
    -- Where the counts are right and no number wraps, `dec_valid_block_count` for the blocks that
    -- `inc_valid_block_count` has granted meets no `f2fs_bug_on`, and leaves as many blocks counted as
    -- there were before.
    pub dec_valid_block_count-inc_valid_block_count :
        (s' : Counts) (r : State) (n : ℕ)
        → inc_valid_block_count quota c s q count ≡ ok s' r n
        → (s'' : Counts) × (r' : State) × (dec_valid_block_count quota s' r n ≡ some (s'', r'))
          × (s''.total_valid_block_count ≡ s.total_valid_block_count)
    dec_valid_block_count-inc_valid_block_count s' r n done =
        elim (inc_valid_block_count-Grants quota c s k q q' count some_blocks small reserved) [
          | nothing full fails ↦ absurd (cc (done, fails))
          | some_of_it q2 some_room kept returns ↦
              let g = granted quota c s count in
              let same : ok s' r n ≡ ok (with_granted quota c s count) (claim q2 g) g =
                sym done ∙ returns in
              let counts : s'.total_valid_block_count ≡ s.total_valid_block_count + g =
                ground (arith, same) in
              let number : n ≡ g = ground (arith, same) in
              let charged : i_blocks r ≡ i_blocks q2 + g * 8 =
                ground (arith, same, quota.claim_sectors q2 g) in
              let few : g ≤ count = ground arith in
              let t = s'.total_valid_block_count -32 n in
              let back : t ≡ s.total_valid_block_count = omega (arith, counts, number, few) in
              (
                grow_reserve (record s' { total_valid_block_count = t }) n,
                free r n,
                dec_returns s' r n (omega (arith, counts, number)) (omega (arith, charged, number)),
                grow_reserve-total (record s' { total_valid_block_count = t }) n ∙ back,
              )
        ]
