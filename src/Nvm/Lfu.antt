-- ===== src/Nvm/Lfu.antt =====
-- The read counts of SSD segments in nvm.c: four levels that take turns, the current one first.
pub mod Aging
pub mod Tests
use hoit_f2fs.Base.{
  ℕ, zero, suc, ◌+◌, ◌-◌, ◌*◌, Bool, true, false, Option, none, some, ltb, ◌==◌, if◌then◌else◌,
}
use hoit_f2fs.Base.Arrays.{Array, update}

-- The counters of `nvm_sb_info`: level, then segment. A counter of -1 is `none`. The counters are
-- numbers without an upper bound.
pub record Lfu : Type 0 where
  pub lfu_count : Array (Array (Option ℕ))
  pub now_lfu_counter : ℕ

abbrev pub unused : Option ℕ → Bool
unused none = true
unused (some c) = false

abbrev pub or_zero : Option ℕ → ℕ
or_zero none = 0
or_zero (some c) = c

-- `level[i]`. The C code leaves the levels open where `now` is no level; here they are 0.
abbrev pub level : ℕ → ℕ → ℕ
level now i =
    if now == 0
    then (if i == 0 then 4 else if i == 1 then 3 else if i == 2 then 2 else 1)
    else if now == 3
    then (if i == 0 then 3 else if i == 1 then 2 else if i == 2 then 1 else 4)
    else if now == 2
    then (if i == 0 then 2 else if i == 1 then 1 else if i == 2 then 4 else 3)
    else if now == 1
    then (if i == 0 then 1 else if i == 1 then 4 else if i == 2 then 3 else 2)
    else 0

-- The two loops of `calc_count`, unrolled.
abbrev pub unused_levels : Array (Array (Option ℕ)) → ℕ → ℕ
unused_levels a seg =
    (if unused (a 0 seg) then 1 else 0)
    + (if unused (a 1 seg) then 1 else 0)
    + (if unused (a 2 seg) then 1 else 0)
    + (if unused (a 3 seg) then 1 else 0)

abbrev pub weighted : Array (Array (Option ℕ)) → ℕ → ℕ → ℕ
weighted a now seg =
    or_zero (a 0 seg) * level now 0
    + or_zero (a 1 seg) * level now 1
    + or_zero (a 2 seg) * level now 2
    + or_zero (a 3 seg) * level now 3

-- `none` is the result -1.
unfoldable pub calc_count : Lfu → ℕ → Option ℕ
calc_count s ssd_segno =
    if unused_levels s.lfu_count ssd_segno == 4
    then none
    else some (weighted s.lfu_count s.now_lfu_counter ssd_segno)

abbrev pub clear_index : ℕ → ℕ
clear_index pre_index = if pre_index == 0 then 4 - 1 else pre_index - 1

-- The loop of `nvm_move_lfu_count` over the first segments: `pre` is the level left, which it
-- reads, and `cleared` the one that it writes.
clear_counts : Array (Option ℕ) → ℕ → Array (Option ℕ) → Array (Option ℕ)
clear_counts pre zero cleared = cleared
clear_counts pre (suc i) cleared =
    let rest = clear_counts pre i cleared in if unused (pre i) then rest else update rest i (some 0)

pub move_lfu_count : ℕ → Lfu → Lfu
unfolding clear_counts
move_lfu_count segment_count_main s =
    let pre = s.now_lfu_counter in
    let to = clear_index pre in
    record {
      lfu_count =
          update s.lfu_count to
            (clear_counts (s.lfu_count pre) segment_count_main (s.lfu_count to));
      now_lfu_counter = to;
    }

-- A segment that `do_garbage_collect` has freed.
pub free_count : ℕ → Lfu → Lfu
free_count segno s =
    let now = s.now_lfu_counter in
    record s { lfu_count = update s.lfu_count now (update (s.lfu_count now) segno none) }

-- What a read of that many blocks counts.
pub get_size_count : ℕ → ℕ
get_size_count size =
    if ltb size 4 then 5 else if ltb size 8 then 3 else if ltb size 16 then 2 else 1

-- `atomic_add` on a counter.
abbrev pub plus : ℕ → Option ℕ → Option ℕ
plus c none = if c == 0 then none else some (c - 1)
plus c (some d) = some (d + c)

-- The count of a read in `nvm_redirect_bio` and `nvm_redirect_dio`.
pub count_read : ℕ → ℕ → Lfu → Lfu
unfolding get_size_count
count_read size segno s =
    let now = s.now_lfu_counter in
    let a = s.lfu_count now in
    record s {
      lfu_count = update s.lfu_count now (update a segno (plus (get_size_count size) (a segno)));
    }
