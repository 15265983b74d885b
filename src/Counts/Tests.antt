-- ===== src/Counts/Tests.antt =====
-- Runs of the counts, with a quota without a limit.
use hoit_f2fs.Base.{ℕ, ◌+◌, ◌-◌, ◌*◌, ◌≡◌, true, false, Option, some, arith, refl}
use hoit_f2fs.Counts.{
  Counts, Caller, Quota, ok, enospc, allow_reserved_blocks, avail_user_block_count, grant,
  inc_valid_block_count, dec_valid_block_count, grow_reserve, store_reserved_blocks,
}
use hoit_f2fs.Counts.Grants.{IsCounted, Grants, inc_valid_block_count-Grants}
use hoit_f2fs.Counts.Steps.{storing_reserve, CountStep-IsCounted}

part_back :
    (q q' : ℕ × ℕ) (kept back : ℕ)
    → ◌≡◌ {A = Option (ℕ × ℕ)} (some (q.0 + (kept + back), q.1)) (some q')
    → ◌≡◌ {A = Option (ℕ × ℕ)} (some (q.0 + kept, q.1)) (some (q'.0 - back, q'.1))
part_back q q' kept back e = ground (arith, e)

nothing_reserved : (q : ℕ × ℕ) → ◌≡◌ {A = Option (ℕ × ℕ)} (some (q.0 + 0, q.1)) (some q)
nothing_reserved q = ground arith

-- The blocks reserved, and the sectors claimed.
abbrev unlimited : Quota
unlimited = record {
  State = ℕ × ℕ;
  i_blocks = λ q. q.1;
  reserve = λ q n. some (q.0 + n, q.1);
  release = λ q n. (q.0 - n, q.1);
  claim = λ q n. (q.0 - n, q.1 + n * 8);
  free = λ q n. (q.0, q.1 - n * 8);
  reserve_part = part_back;
  reserve_nothing = nothing_reserved;
  claim_sectors = λ q n. refl;
}

abbrev filling : Counts
filling = record {
  user_block_count = 100;
  total_valid_block_count = 80;
  reserved_blocks = 10;
  current_reserved_blocks = 5;
  root_reserved_blocks = 12;
  total_node_count = 50;
  total_valid_node_count = 7;
  alloc_valid_block_count = 0;
  total_valid_inode_count = 3;
}

abbrev user : Caller
user = record {
  no_inode = false;
  reserve_root = true;
  noquota = false;
  is_resuid = false;
  resgid_is_root = true;
  in_resgid = false;
  capable = false;
}

-- Three blocks are left beside the reserves.
three_of_five :
    inc_valid_block_count unlimited user filling (0, 0) 5
    ≡ ok (record filling { total_valid_block_count = 83; alloc_valid_block_count = 5 }) (0, 24) 3
unfolding inc_valid_block_count grant avail_user_block_count allow_reserved_blocks
three_of_five = refl

none_left :
    inc_valid_block_count unlimited user (record filling { total_valid_block_count = 90 }) (0, 0) 5
    ≡ enospc (record filling { total_valid_block_count = 90 }) (0, 0)
unfolding inc_valid_block_count grant avail_user_block_count allow_reserved_blocks
none_left = refl

reserve_grows :
    dec_valid_block_count unlimited filling (0, 64) 8
    ≡ some (record filling { total_valid_block_count = 72; current_reserved_blocks = 10 }, (0, 0))
unfolding dec_valid_block_count grow_reserve
reserve_grows = refl

filling-IsCounted : IsCounted filling
filling-IsCounted = omega arith

inc_valid_block_count-Grants_example : Grants unlimited user filling (0, 0) 5
inc_valid_block_count-Grants_example =
    inc_valid_block_count-Grants unlimited user filling filling-IsCounted (0, 0) (5, 0) 5
      (omega arith) (omega arith) refl

abbrev more_reserved : Counts
more_reserved = record filling { reserved_blocks = 30; current_reserved_blocks = 20 }

stored : store_reserved_blocks filling 30 ≡ some more_reserved
unfolding store_reserved_blocks
stored = refl

CountStep-IsCounted_example : IsCounted more_reserved
CountStep-IsCounted_example =
    CountStep-IsCounted unlimited (storing_reserve 30 more_reserved stored) filling-IsCounted
