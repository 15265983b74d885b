-- ===== src/Segment/Sit/Entry.antt =====
-- The counts of an entry are those of its bitmaps.
use hoit_f2fs.Base.{ℕ, ◌+◌, ◌<◌, ◌≡◌, Bool, true, false, not, ◌||◌, if◌then◌else◌, arith}
use hoit_f2fs.Base.Arrays.{Array, update, count, count-update, count-le, count_pos, count_ext}
use hoit_f2fs.Segment.Sit.{
  SegEntry, Delta, gained, same, lost, Update, set_valid, clear_valid, new_valid_blocks, count_ckpt,
  update_entry,
}

abbrev pub is_set : Bool → Bool
is_set b = b

-- A block that is valid now or was so in the last checkpoint.
abbrev pub kept_map : SegEntry → Array Bool
kept_map se i = se.cur_valid_map i || se.ckpt_valid_map i

-- Does `del` fit the bit that the block has now,
abbrev pub changes : Delta → Bool → Bool
changes gained bit = not bit
changes lost bit = bit
changes same bit = false

-- or is it a block set or cleared once more?
abbrev pub repeats : Delta → Bool → Bool
repeats gained bit = bit
repeats lost bit = not bit
repeats same bit = false

-- `m` is `n` after the change `del`.
abbrev pub Moved : Delta → ℕ → ℕ → Type 0
Moved gained n m = m ≡ n + 1
Moved same n m = m ≡ n
Moved lost n m = m + 1 ≡ n

pub record EntryCounted (blocks_per_seg : ℕ) (se : SegEntry) : Type 0 where
  pub valid : se.valid_blocks ≡ count is_set se.cur_valid_map blocks_per_seg
  pub ckpt_valid : se.ckpt_valid_blocks ≡ count is_set (kept_map se) blocks_per_seg

module _ (blocks_per_seg : ℕ) (discard_en : Bool) (now : ℕ) (fits : blocks_per_seg < 1024)
    (offset : ℕ) (inside : offset < blocks_per_seg) (se : SegEntry)
    (c : EntryCounted blocks_per_seg se) (blks : ℕ) (bug : Bool) where
  abbrev after : Delta → Update
  after del = update_entry blocks_per_seg discard_en now offset del se blks bug

  -- One bit of a counted bitmap is written.
  kept-update :
      (other : Array Bool) (v : Bool)
      → ((i : ℕ) → i < blocks_per_seg → other i ≡ update (kept_map se) offset v i)
      → count is_set other blocks_per_seg + (if kept_map se offset then 1 else 0)
        ≡ count is_set (kept_map se) blocks_per_seg + (if v then 1 else 0)
  kept-update other v each = ground (
    arith,
    count-update is_set (kept_map se) offset v blocks_per_seg inside,
    count_ext is_set other (update (kept_map se) offset v) blocks_per_seg each,
  )

  set-fewer :
      se.cur_valid_map offset ≡ false
      → count is_set se.cur_valid_map blocks_per_seg < blocks_per_seg
  set-fewer clear =
      let le = count-le is_set (update se.cur_valid_map offset true) blocks_per_seg in
      ground (arith, le, count-update is_set se.cur_valid_map offset true blocks_per_seg inside)

  -- A new block is counted once, and kept for the checkpoint in a node segment.
  pub update_entry-gained :
      se.cur_valid_map offset ≡ false
      → EntryCounted blocks_per_seg (count_ckpt offset (after gained))
        × ((after gained).del ≡ gained)
        × ((after gained).bug ≡ bug)
  unfolding update_entry count_ckpt set_valid new_valid_blocks
  update_entry-gained clear =
      let fewer = set-fewer clear in
      let one = count-update is_set se.cur_valid_map offset true blocks_per_seg inside in
      let union =
        kept-update (kept_map (count_ckpt offset (after gained))) true (λ i less. ground arith) in
      let most = count-le is_set (kept_map (count_ckpt offset (after gained))) blocks_per_seg in
      (
        record {
          valid = ground (arith, c.valid);
          ckpt_valid = ground (arith, c.ckpt_valid, union, most);
        },
        ground arith,
        ground (arith, c.valid),
      )

  -- An old block is counted no more, but the last checkpoint keeps its own blocks.
  pub update_entry-lost :
      se.cur_valid_map offset ≡ true
      → EntryCounted blocks_per_seg (count_ckpt offset (after lost))
        × ((after lost).del ≡ lost)
        × ((after lost).bug ≡ bug)
  unfolding update_entry count_ckpt clear_valid new_valid_blocks
  update_entry-lost set =
      let some_set = count_pos is_set se.cur_valid_map blocks_per_seg offset inside set in
      let one = count-update is_set se.cur_valid_map offset false blocks_per_seg inside in
      let union =
        kept-update (kept_map (count_ckpt offset (after lost))) (se.ckpt_valid_map offset)
          (λ i less. ground arith) in
      let most = count-le is_set (kept_map se) blocks_per_seg in
      let all = count-le is_set se.cur_valid_map blocks_per_seg in
      (
        record {
          valid = ground (arith, c.valid);
          ckpt_valid = ground (arith, c.ckpt_valid, union, most);
        },
        ground arith,
        ground (arith, c.valid),
      )

  -- A new block is counted, an old one no more; nothing is reported.
  pub update_entry-counts :
      (del : Delta)
      → changes del (se.cur_valid_map offset) ≡ true
      → EntryCounted blocks_per_seg (count_ckpt offset (after del))
        × ((after del).del ≡ del)
        × ((after del).bug ≡ bug)
  update_entry-counts gained h = update_entry-gained (ground arith)
  update_entry-counts lost h = update_entry-lost h
  update_entry-counts same h = absurd (ground arith)

  -- A block set twice or cleared twice is reported, and the count of valid blocks stays that of the
  -- bitmap.
  pub update_entry-again :
      (del : Delta)
      → repeats del (se.cur_valid_map offset) ≡ true
      → ((count_ckpt offset (after del)).valid_blocks ≡ se.valid_blocks)
        × (count is_set (count_ckpt offset (after del)).cur_valid_map blocks_per_seg
            ≡ se.valid_blocks)
        × ((after del).del ≡ same)
        × ((after del).bug ≡ true)
  unfolding update_entry count_ckpt set_valid clear_valid new_valid_blocks
  update_entry-again gained h =
      let one = count-update is_set se.cur_valid_map offset true blocks_per_seg inside in
      let all = count-le is_set se.cur_valid_map blocks_per_seg in
      (ground (arith, c.valid), ground (arith, c.valid), ground arith, ground arith)
  update_entry-again lost h =
      let one = count-update is_set se.cur_valid_map offset false blocks_per_seg inside in
      let all = count-le is_set se.cur_valid_map blocks_per_seg in
      (ground (arith, c.valid), ground (arith, c.valid), ground arith, ground arith)
  update_entry-again same h = absurd (ground arith)

  pub update_entry-Moved :
      (del : Delta)
      → changes del (se.cur_valid_map offset) ≡ true
      → Moved del se.valid_blocks (count_ckpt offset (after del)).valid_blocks
        × ((count_ckpt offset (after del)).mtime ≡ now)
  unfolding update_entry count_ckpt set_valid clear_valid new_valid_blocks
  update_entry-Moved gained h =
      let fewer = set-fewer (ground arith) in (ground (arith, c.valid), ground arith)
  update_entry-Moved lost h =
      let some_set = count_pos is_set se.cur_valid_map blocks_per_seg offset inside h in
      let all = count-le is_set se.cur_valid_map blocks_per_seg in
      (ground (arith, c.valid), ground arith)
  update_entry-Moved same h = absurd (ground arith)
