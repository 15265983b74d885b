-- ===== src/Curseg/Types/Fill.antt =====
-- The fuller the NVM, the less new segments it takes.
use native.Mathlib.Nat as Nat
use hoit_f2fs.Base.{
  ℕ, ◌-◌, ◌*◌, ◌/◌, ◌^◌, ◌≤◌, ◌<◌, ◌≡◌, true, ltb, if◌then◌else◌, refl, arith, inl, inr, Bool-cases,
}
use hoit_f2fs.Base.Words.{◌-32◌, ◌*32◌}
use hoit_f2fs.Curseg.Types.{real_low_boundary, nvm_alloc}

module _ (all : ℕ) (some_segs : 0 < all) (small : all < 2 ^ 27) where
  -- By how much the boundary falls.
  abbrev drop : ℕ → ℕ
  drop used = (16 * (2 * used - all)) / all

  drop-le : (used : ℕ) → used ≤ all → drop used ≤ 16
  drop-le used le = Nat.div-le_of_le-mul all (omega arith)

  drop_mono : (used more : ℕ) → used ≤ more → drop used ≤ drop more
  drop_mono used more le =
      (Nat.le-div_iff_mul-le some_segs).1
        (omega (arith, Nat.div-mul-le_self (16 * (2 * used - all)) all))

  -- The boundary in numbers that do not wrap.
  boundary :
      (free : ℕ)
      → free ≤ all
      → real_low_boundary all free
        ≡ (if ltb all (2 * (all - free)) then 33 - drop (all - free) else 33)
  unfolding real_low_boundary
  boundary free le =
      let used : (all -32 free) ≡ all - free = omega arith in
      let twice : (2 *32 (all - free)) ≡ 2 * (all - free) = omega arith in
      elim (Bool-cases (ltb all (2 * (all - free)))) [
        | inr low ↦ rw used (rw twice (rw low refl))
        | inl full ↦
            let over : ((2 * (all - free)) -32 all) ≡ 2 * (all - free) - all = ground arith in
            let weighed : (16 *32 (2 * (all - free) - all)) ≡ 16 * (2 * (all - free) - all) =
              omega arith in
            rw used (
              rw twice (
                rw full (rw over (rw weighed (omega (arith, drop-le (all - free) (omega arith)))))))
      ]

  -- With fewer than 2 ^ 27 segments in the NVM, the boundary of `nvm_alloc` stays between 17 and 33; and
  -- where `nvm_alloc` gives a log an NVM segment, it does so too for the same queues with more
  -- segments free.
  pub nvm_alloc_fill :
      (log_type free more ssd_aqu_sz nvm_aqu_sz : ℕ)
      → free ≤ more
      → more ≤ all
      → nvm_alloc log_type all free ssd_aqu_sz nvm_aqu_sz ≡ true
      → (17 ≤ real_low_boundary all free)
        × (real_low_boundary all free ≤ 33)
        × (nvm_alloc log_type all more ssd_aqu_sz nvm_aqu_sz ≡ true)
  unfolding nvm_alloc
  nvm_alloc_fill log_type free more ssd_aqu_sz nvm_aqu_sz le within given =
      let here = boundary free (omega arith) in
      let there = boundary more within in
      let falls = drop_mono (all - more) (all - free) (omega arith) in
      let least = drop-le (all - free) (omega arith) in
      let rises : real_low_boundary all free ≤ real_low_boundary all more =
        ground (arith, here, there, falls) in
      (ground (arith, here, least), ground (arith, here), ground (arith, rises, given))
