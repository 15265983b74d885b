-- ===== src/Copies/Tests.antt =====
-- Runs of the addresses.
use hoit_f2fs.Base.{◌^◌, ◌<◌, ◌≡◌, ◌≢◌, ◌==◌, refl, arith}
use hoit_f2fs.Copies.{
  NmInfo, nat_block_offset, current_nat_addr, next_nat_addr, set_to_next_nat, SitCopies,
  sit_block_offset, current_sit_addr, next_sit_addr, set_to_next_sit,
}
use hoit_f2fs.Copies.Alternate.{
  next_nat_addr-current_nat_addr, current_nat_addr_apart, InSit, next_sit_addr-current_sit_addr,
}

-- Block 3 of the table is in its second copy.
abbrev nm : NmInfo
nm = record {
  nat_blkaddr = 2560;
  nat_bitmap = λ i. i == 3;
  nat_entry_per_block = 455;
  log_blocks_per_seg = 9;
}

second_copy : (current_nat_addr nm 1400 ≡ 3075) × (next_nat_addr nm 3075 ≡ 2563)
unfolding current_nat_addr next_nat_addr nat_block_offset
second_copy = (refl, refl)

nat_small :
    (current_nat_addr nm 1400 < 2 ^ 64) × (current_nat_addr (set_to_next_nat nm 1400) 1400 < 2 ^ 64)
unfolding current_nat_addr set_to_next_nat nat_block_offset
nat_small = (omega arith, omega arith)

next_nat_addr-current_nat_addr_example :
    next_nat_addr nm (current_nat_addr nm 1400) ≡ current_nat_addr (set_to_next_nat nm 1400) 1400
next_nat_addr-current_nat_addr_example =
    next_nat_addr-current_nat_addr nm 1400 (nat_small.0) (nat_small.1)

two_blocks : nat_block_offset nm 1400 ≢ nat_block_offset nm 10
unfolding nat_block_offset
two_blocks = λ e. omega arith

current_nat_addr_apart_example : current_nat_addr nm 1400 ≢ current_nat_addr nm 10
current_nat_addr_apart_example = current_nat_addr_apart nm 1400 10 two_blocks

abbrev sit : SitCopies
sit = record {
  sit_base_addr = 1536;
  sit_blocks = 512;
  sit_bitmap = λ i. i == 1;
  sit_entry_per_block = 55;
}

sit-InSit : InSit sit 60
unfolding sit_block_offset
sit-InSit = record { inside = omega arith; small = omega arith }

next_sit_addr-current_sit_addr_example :
    (next_sit_addr sit (current_sit_addr sit 60) ≡ current_sit_addr (set_to_next_sit sit 60) 60)
    × (next_sit_addr sit (current_sit_addr (set_to_next_sit sit 60) 60) ≡ current_sit_addr sit 60)
next_sit_addr-current_sit_addr_example = next_sit_addr-current_sit_addr sit 60 sit-InSit
