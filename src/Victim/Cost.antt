-- ===== src/Victim/Cost.antt =====
-- The cost of the cost-benefit policy.
use native.Mathlib.Nat as Nat
use hoit_f2fs.Base.{ℕ, ◌+◌, ◌-◌, ◌*◌, ◌/◌, ◌%◌, ◌^◌, ◌≤◌, true, arith}
use hoit_f2fs.Segment.Free.{sec_of, first_seg}
use hoit_f2fs.Segment.Sit.{SitInfo, get_valid_blocks}
use hoit_f2fs.Victim.{Config, Times, section_mtime, widen, age_of, get_cb_cost}

module _ (k : Config) (sit : SitInfo) (segno : ℕ) (times : Times) where
  age-le : (mtime : ℕ) (t : Times) → age_of k sit mtime t ≤ 100
  age-le mtime t = ground arith

  benefit-le : (u age : ℕ) → age ≤ 100 → (100 * (100 - u) * age) / (100 + u) ≤ 10000
  benefit-le u age le =
      let part =
        Nat.mul-le-mul {n₁ = 100 * (100 - u)} {m₁ = age} {n₂ = 10000} {m₂ = 100} (omega arith) le in
      let whole = Nat.mul-le-mul_right {m = 100} {n = 100 + u} 10000 (omega arith) in
      Nat.div-le_of_le-mul (100 + u) (omega (arith, part, whole))

  -- `u`, the share of valid blocks in a section in percent.
  abbrev pub share : ℕ
  share = get_valid_blocks k.segs_per_sec segno true sit / k.segs_per_sec * 100 / k.blocks_per_seg

  -- Where a section has on average no more valid blocks in a segment than there are blocks, the
  -- differences of `get_cb_cost` do not fall below 0 and its 8-bit numbers do not overflow: the share
  -- is at most 100, the cost lies between UINT_MAX - 10000 and UINT_MAX, and the range of the times
  -- afterwards holds that of before.
  pub get_cb_cost_bounds :
      get_valid_blocks k.segs_per_sec segno true sit / k.segs_per_sec ≤ k.blocks_per_seg
      → (share ≤ 100)
        × (2 ^ 32 - 1 ≤ (get_cb_cost k sit segno times).0 + 10000)
        × ((get_cb_cost k sit segno times).0 ≤ 2 ^ 32 - 1)
        × ((get_cb_cost k sit segno times).1.min_mtime ≤ times.min_mtime)
        × (times.max_mtime ≤ (get_cb_cost k sit segno times).1.max_mtime)
  unfolding get_cb_cost widen
  get_cb_cost_bounds full =
      let mtime =
        section_mtime k sit (first_seg k.segs_per_sec (sec_of k.segs_per_sec segno)) k.segs_per_sec
        / k.segs_per_sec in
      let u = share % 256 in
      let age = age_of k sit mtime (widen k sit mtime times) in
      let most = benefit-le u age (age-le mtime (widen k sit mtime times)) in
      let vblocks = get_valid_blocks k.segs_per_sec segno true sit / k.segs_per_sec in
      (
        Nat.div-le_of_le-mul k.blocks_per_seg (omega (arith, full)),
        omega (arith, most),
        omega arith,
        ground arith,
        ground arith,
      )
