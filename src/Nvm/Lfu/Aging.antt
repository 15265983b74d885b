-- ===== src/Nvm/Lfu/Aging.antt =====
-- How the count of a segment changes.
use hoit_f2fs.Base.{
  ℕ, zero, suc, ◌+◌, ◌*◌, ◌<◌, ◌≡◌, inl, inr, false, Option, some, ◌==◌, arith, Bool-cases,
}
use hoit_f2fs.Base.Arrays.{Array}
use hoit_f2fs.Nvm.Lfu.{
  Lfu, unused, or_zero, weighted, calc_count, clear_index, clear_counts, move_lfu_count,
  get_size_count, count_read,
}

-- All reads that are still counted.
abbrev pub total : Lfu → ℕ → ℕ
total s seg =
    or_zero (s.lfu_count 0 seg)
    + or_zero (s.lfu_count 1 seg)
    + or_zero (s.lfu_count 2 seg)
    + or_zero (s.lfu_count 3 seg)

clear_counts_hit :
    (pre : Array (Option ℕ)) (n : ℕ) (cleared : Array (Option ℕ)) (seg : ℕ)
    → seg < n
    → unused (pre seg) ≡ false
    → clear_counts pre n cleared seg ≡ some 0
unfolding clear_counts
clear_counts_hit pre zero cleared seg less used = absurd (omega arith)
clear_counts_hit pre (suc n) cleared seg less used = elim (Bool-cases (n == seg)) [
  | inl last ↦ ground arith
  | inr before ↦ ground (arith, clear_counts_hit pre n cleared seg (ground arith) used)
]

-- `nvm_move_lfu_count` ages a segment whose current counter is in use: each level weighs one less
-- than before, so that its count falls by all reads that it counts. The new level is a level.
pub calc_count-move_lfu_count :
    (segment_count_main : ℕ) (s : Lfu) (seg : ℕ)
    → s.now_lfu_counter < 4
    → seg < segment_count_main
    → unused (s.lfu_count s.now_lfu_counter seg) ≡ false
    → ((x : ℕ) × (calc_count (move_lfu_count segment_count_main s) seg ≡ some x)
        × (calc_count s seg ≡ some (x + total s seg)))
      × ((move_lfu_count segment_count_main s).now_lfu_counter < 4)
unfolding calc_count move_lfu_count
calc_count-move_lfu_count n s seg now less used =
    let after = move_lfu_count n s in
    let hit =
      clear_counts_hit (s.lfu_count s.now_lfu_counter) n
        (s.lfu_count (clear_index s.now_lfu_counter)) seg less used in
    ((weighted after.lfu_count after.now_lfu_counter seg, ground arith, ground arith), ground arith)

-- A read that `nvm_redirect_bio` or `nvm_redirect_dio` counts for a segment whose current counter
-- is in use adds four times the count of its size.
pub calc_count-count_read :
    (size seg x : ℕ) (s : Lfu)
    → s.now_lfu_counter < 4
    → unused (s.lfu_count s.now_lfu_counter seg) ≡ false
    → calc_count s seg ≡ some x
    → calc_count (count_read size seg s) seg ≡ some (x + get_size_count size * 4)
unfolding calc_count count_read
calc_count-count_read size seg x s now used e = ground arith
