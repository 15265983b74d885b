-- ===== src/Nvm/Segments/Consistent.antt =====
-- The invariant of the mapping table and the segment bitmap.
use hoit_f2fs.Base.{ℕ, ◌+◌, ◌^◌, ◌<◌, ◌≡◌, ◌≢◌, true}
use hoit_f2fs.Base.Arrays.{count}
use hoit_f2fs.Nvm.Entry.{value, map_flag}
use hoit_f2fs.Nvm.Segments.{Nvm}

-- Every mapped SSD segment and its NVM segment name one another, so does every mapped NVM
-- segment and its SSD segment, mapped NVM segments are taken, and the free ones are counted.
pub record Consistent (ssd_nums : ℕ) (s : Nvm) : Type 0 where
  pub small : s.main_segment_nums + ssd_nums < 2 ^ 29
  pub ssd_side :
      (k : ℕ)
      → k < ssd_nums
      → map_flag (s.mpt (s.main_segment_nums + k)) ≢ 0
      → (value (s.mpt (s.main_segment_nums + k)) < s.main_segment_nums)
        × (map_flag (s.mpt (value (s.mpt (s.main_segment_nums + k)))) ≢ 0)
        × (value (s.mpt (value (s.mpt (s.main_segment_nums + k)))) ≡ k)
  pub nvm_side :
      (n : ℕ)
      → n < s.main_segment_nums
      → map_flag (s.mpt n) ≢ 0
      → (value (s.mpt n) < ssd_nums)
        × (s.segment_map n ≡ true)
        × (map_flag (s.mpt (s.main_segment_nums + value (s.mpt n))) ≢ 0)
        × (value (s.mpt (s.main_segment_nums + value (s.mpt n))) ≡ n)
  pub counted :
      s.main_segment_free_nums + count (λ b. b) s.segment_map s.main_segment_nums
      ≡ s.main_segment_nums
