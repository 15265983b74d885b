-- ===== src/Nvm/Lfu/Tests.antt =====
-- Runs of the counters.
use hoit_f2fs.Base.{ℕ, ◌+◌, ◌<◌, ◌≡◌, refl, none, some, ◌==◌, if◌then◌else◌, arith}
use hoit_f2fs.Nvm.Lfu.{Lfu, calc_count, move_lfu_count, clear_counts}
use hoit_f2fs.Nvm.Lfu.Aging.{total, calc_count-move_lfu_count}

-- Segment 3 has been read on levels 0 and 1; level 1 is the current one.
abbrev pub read : Lfu
read = record {
  lfu_count = λ i seg.
      if seg == 3 then (if i == 0 then some 7 else if i == 1 then some 5 else none) else none;
  now_lfu_counter = 1;
}

counts : calc_count read 3 ≡ some 27
unfolding calc_count
counts = refl

counts_unread : calc_count read 2 ≡ none
unfolding calc_count
counts_unread = refl

-- The level 0 is written over, and the reads there are lost.
counts_aged : calc_count (move_lfu_count 8 read) 3 ≡ some 15
unfolding calc_count move_lfu_count clear_counts
counts_aged = refl

calc_count-move_lfu_count_example :
    ((x : ℕ) × (calc_count (move_lfu_count 8 read) 3 ≡ some x)
      × (calc_count read 3 ≡ some (x + total read 3)))
    × ((move_lfu_count 8 read).now_lfu_counter < 4)
calc_count-move_lfu_count_example =
    calc_count-move_lfu_count 8 read 3 (omega arith) (omega arith) refl
