-- ===== src/Dir/Tests.antt =====
-- Runs of the search.
use hoit_f2fs.Base.{ℕ, ◌+◌, ◌*◌, ◌^◌, ◌≤◌, ◌<◌, ◌≡◌, inl, Bool, ◌==◌, ◌||◌, some, refl, arith}
use hoit_f2fs.Base.Arrays.{Array}
use hoit_f2fs.Base.BitSearch.Scan.{scanning, scan}
use hoit_f2fs.Dir.{
  room_from, room_for_filename, dir_buckets, bucket_blocks, dir_block_index, product,
}
use hoit_f2fs.Dir.Levels.{dir_block_index_disjoint}
use hoit_f2fs.Dir.Room.{IsFirstRoom, room_for_filename-IsFirstRoom}

-- The slots 0 and 2 of eight are taken.
abbrev two_taken : Array Bool
two_taken i = (i == 0) || (i == 2)

third_slot : room_for_filename scanning two_taken 3 8 ≡ some 3
unfolding room_for_filename room_from scan
third_slot = refl

room_for_filename-IsFirstRoom_example :
    (pos : ℕ) × (room_for_filename scanning two_taken 3 8 ≡ some pos)
    × IsFirstRoom scanning two_taken 3 8 pos
room_for_filename-IsFirstRoom_example =
    room_for_filename-IsFirstRoom scanning two_taken 3 8 (omega arith)

-- The size of the levels in the kernel.
abbrev depth : ℕ
depth = 63

abbrev most_buckets : ℕ
most_buckets = 2 ^ 30

-- The blocks of level 31 are more than an `unsigned int` counts.
deep_level-blocks :
    product (dir_buckets depth most_buckets 31 0) (bucket_blocks depth most_buckets 31) ≡ 0
unfolding product dir_buckets bucket_blocks
deep_level-blocks = refl

fourth_level-fits : dir_buckets depth most_buckets 3 0 * bucket_blocks depth most_buckets 3 < 2 ^ 32
unfolding dir_buckets bucket_blocks
fourth_level-fits = omega arith

last_bucket-inside : 7 < dir_buckets depth most_buckets 3 0
unfolding dir_buckets
last_bucket-inside = omega arith

dir_block_index_disjoint_example :
    dir_block_index depth most_buckets 3 0 7 + bucket_blocks depth most_buckets 3
    ≤ dir_block_index depth most_buckets 4 0 2
dir_block_index_disjoint_example =
    dir_block_index_disjoint depth most_buckets 0 3 7 4 2 fourth_level-fits last_bucket-inside
      (inl (omega arith))
