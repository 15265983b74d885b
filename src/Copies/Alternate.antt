-- ===== src/Copies/Alternate.antt =====
-- The copies of a block are its own, and each turn takes the other one.
use hoit_f2fs.Base.{
  ℕ, ◌+◌, ◌-◌, ◌*◌, ◌/◌, ◌%◌, ◌^◌, ◌<◌, ◌≡◌, ◌≢◌, ◌∙◌, ap, Bool, bit_xor, if◌then◌else◌, arith,
}
use native.Mathlib.Nat as Nat
use hoit_f2fs.Base.Bits.Powers.{bit_and-mask, bit_xor-one, bit_xor-power, two_pos}
use hoit_f2fs.Copies.{
  ◌-64◌, NmInfo, nat_block_offset, current_nat_addr, next_nat_addr, set_to_next_nat, SitCopies,
  sit_block_offset, current_sit_addr, next_sit_addr, set_to_next_sit,
}

-- A bit as the lowest digit.
abbrev pub digit : Bool → ℕ
digit b = if b then 1 else 0

module _ (nm : NmInfo) where
  abbrev p : ℕ
  p = 2 ^ nm.log_blocks_per_seg

  abbrev off : ℕ → ℕ
  off start = nat_block_offset nm start

  -- The segment of the pair, counted in the area.
  abbrev segment : ℕ → ℕ
  segment start = off start / p * 2 + digit (nm.nat_bitmap (off start))

  -- The segment of the area, and the block in the segment.
  nat_parts :
      (start : ℕ) → current_nat_addr nm start ≡ nm.nat_blkaddr + (segment start * p + off start % p)
  unfolding current_nat_addr
  nat_parts start =
      let mask = bit_and-mask nm.log_blocks_per_seg (off start) in
      let parts = Nat.mod-add-div' (off start) p in ground (arith, mask, parts)

  -- The other copy of the block.
  flipped :
      (start : ℕ)
      → bit_xor (segment start * p + off start % p) p
        ≡ (off start / p * 2 + (1 - digit (nm.nat_bitmap (off start)))) * p + off start % p
  flipped start =
      let pos = two_pos nm.log_blocks_per_seg in
      let less = Nat.mod-lt (off start) pos in
      let swap = bit_xor-one (segment start) in
      let half : bit_xor (segment start) 1
          ≡ off start / p * 2 + (1 - digit (nm.nat_bitmap (off start))) =
        ground (arith, swap) in
      bit_xor-power nm.log_blocks_per_seg (segment start) (off start % p) less
      ∙ ap (λ n. n * p + off start % p) half

module _ (nm : NmInfo) (start : ℕ) where
  abbrev turned : NmInfo
  turned = set_to_next_nat nm start

  turned-parts :
      current_nat_addr turned start
      ≡ nm.nat_blkaddr
        + ((off nm start / p nm * 2 + (1 - digit (nm.nat_bitmap (off nm start)))) * p nm
            + off nm start % p nm)
  unfolding set_to_next_nat nat_block_offset
  turned-parts = nat_parts turned start ∙ ground arith

  -- The copy that is not in use is the one that the block has once `set_to_next_nat` has turned its
  -- bit: `next_nat_addr` of the address of the current copy. Addresses have 64 bits.
  pub next_nat_addr-current_nat_addr :
      current_nat_addr nm start < 2 ^ 64
      → current_nat_addr turned start < 2 ^ 64
      → next_nat_addr nm (current_nat_addr nm start) ≡ current_nat_addr turned start
  unfolding next_nat_addr
  next_nat_addr-current_nat_addr small small' =
      let now = nat_parts nm start in
      let then' = turned-parts in
      let x = segment nm start * p nm + off nm start % p nm in
      let sub : (current_nat_addr nm start -64 nm.nat_blkaddr) ≡ x = omega (arith, now) in
      ap (λ n. (bit_xor n (p nm) + nm.nat_blkaddr) % 2 ^ 64) sub
      ∙ omega (arith, flipped nm start, then')

-- A segment and a block in it are found in their sum.
split_unique : (p a m b n : ℕ) → m < p → n < p → a * p + m ≡ b * p + n → (a ≡ b) × (m ≡ n)
split_unique p a m b n less less' e =
    let pos : 0 < p = omega arith in
    let left = Nat.mul-add-div_right pos a m in
    let right = Nat.mul-add-div_right pos b n in
    let low = Nat.mul-add-mod_self_right a p m in
    let low' = Nat.mul-add-mod_self_right b p n in
    (
      omega (arith, left, right, ap (λ k. k / p) e, Nat.div-eq_of_lt less, Nat.div-eq_of_lt less'),
      omega (arith, low, low', ap (λ k. k % p) e, Nat.mod-eq_of_lt less, Nat.mod-eq_of_lt less'),
    )

-- The current copies of two blocks of the node address table never stand in one place, whatever the bits.
pub current_nat_addr_apart :
    (nm : NmInfo) (start start' : ℕ)
    → nat_block_offset nm start ≢ nat_block_offset nm start'
    → current_nat_addr nm start ≢ current_nat_addr nm start'
current_nat_addr_apart nm start start' apart same =
    let pos = two_pos nm.log_blocks_per_seg in
    let p = 2 ^ nm.log_blocks_per_seg in
    let o = nat_block_offset nm start in
    let o' = nat_block_offset nm start' in
    let sum : segment nm start * p + o % p ≡ segment nm start' * p + o' % p =
      omega (arith, nat_parts nm start, nat_parts nm start') in
    let (seg, low) =
      split_unique p (segment nm start) (o % p) (segment nm start') (o' % p) (Nat.mod-lt o pos)
        (Nat.mod-lt o' pos) sum in
    let pair : o / p ≡ o' / p = ground (arith, seg) in
    apart (omega (arith, Nat.mod-add-div' o p, Nat.mod-add-div' o' p, low, ap (λ k. k * p) pair))

-- A map of copies of the segment information with a place for each block.
pub record InSit (sit : SitCopies) (start : ℕ) : Type 0 where
  pub inside : sit_block_offset sit start < sit.sit_blocks
  pub small : sit.sit_base_addr + 2 * sit.sit_blocks < 2 ^ 64

-- So it is with the segment information: `next_sit_addr` of the current address is the address once
-- `set_to_next_sit` has turned the bit, and back again.
pub next_sit_addr-current_sit_addr :
    (sit : SitCopies) (start : ℕ)
    → InSit sit start
    → (next_sit_addr sit (current_sit_addr sit start)
        ≡ current_sit_addr (set_to_next_sit sit start) start)
      × (next_sit_addr sit (current_sit_addr (set_to_next_sit sit start) start)
          ≡ current_sit_addr sit start)
unfolding next_sit_addr current_sit_addr set_to_next_sit sit_block_offset
next_sit_addr-current_sit_addr sit start k = (ground (arith, k), ground (arith, k))
