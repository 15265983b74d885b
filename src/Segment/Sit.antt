-- ===== src/Segment/Sit.antt =====
-- The valid blocks of the segments: `struct seg_entry` and `struct sec_entry` of segment.h, the
-- counts of `struct sit_info`, and `update_sit_entry` of segment.c. The build without
-- CONFIG_F2FS_CHECK_FS is modelled: `f2fs_bug_on` sets `need_fsck` and goes on.
pub mod Again
pub mod Counted
pub mod Entry
pub mod Keep
pub mod Tests
use hoit_f2fs.Base.{
  ℕ, ◌+◌, ◌-◌, ◌/◌, ◌%◌, ◌≤◌, ◌^◌, Bool, true, false, not, ◌&&◌, ◌||◌, leb, ltb, ◌==◌,
  if◌then◌else◌,
}
use hoit_f2fs.Base.Arrays.{Array, update}

pub record SegEntry : Type 0 where
  pub log_type : ℕ
  pub valid_blocks : ℕ
  pub ckpt_valid_blocks : ℕ
  pub cur_valid_map : Array Bool
  pub ckpt_valid_map : Array Bool
  pub discard_map : Array Bool
  pub mtime : ℕ

pub record SitInfo : Type 0 where
  pub sentries : Array SegEntry
  pub sec_valid_blocks : Array ℕ
  pub dirty_sentries_bitmap : Array Bool
  pub dirty_sentries : ℕ
  pub written_valid_blocks : ℕ
  pub max_mtime : ℕ
  pub discard_blks : ℕ
  pub need_fsck : Bool

-- The values of `del`: 1, 0 and -1.
pub data Delta : Type 0 where
  gained same lost : Delta

-- `x += del` for a number below `bound`, which a power of 2 is.
abbrev pub wrap_plus : ℕ → ℕ → Delta → ℕ
wrap_plus bound x gained = (x + 1) % bound
wrap_plus bound x same = x
wrap_plus bound x lost = (x + (bound - 1)) % bound

-- The two counts of an entry are bit fields of ten bits.
abbrev pub plus_10 : ℕ → Delta → ℕ
plus_10 x del = wrap_plus 1024 x del

abbrev pub plus_32 : ℕ → Delta → ℕ
plus_32 x del = wrap_plus (2 ^ 32) x del

-- IS_NODESEG: from CURSEG_HOT_NODE on.
abbrev pub is_nodeseg : ℕ → Bool
is_nodeseg t = leb 3 t

-- `new_vblocks` is negative or too large.
abbrev pub bad_vblocks : ℕ → ℕ → Delta → Bool
bad_vblocks blocks_per_seg valid gained = ltb blocks_per_seg (valid + 1)
bad_vblocks blocks_per_seg valid same = ltb blocks_per_seg valid
bad_vblocks blocks_per_seg valid lost = (valid == 0) || ltb blocks_per_seg (valid - 1)

-- What an update has done so far: the entry, the `del` that is left, and the two fields of the
-- file system that it changes.
pub record Update : Type 0 where
  pub entry : SegEntry
  pub del : Delta
  pub blks : ℕ
  pub bug : Bool

-- The branch for `del > 0`, which sets the bits.
pub set_valid : Bool → ℕ → Update → Update
set_valid discard_en offset u =
    let se = u.entry in
    let exist = se.cur_valid_map offset in
    let kept = is_nodeseg se.log_type in
    record {
      entry = record se {
        cur_valid_map = update se.cur_valid_map offset true;
        valid_blocks = if exist then plus_10 se.valid_blocks lost else se.valid_blocks;
        discard_map = if discard_en then update se.discard_map offset true else se.discard_map;
        ckpt_valid_map = if kept then update se.ckpt_valid_map offset true else se.ckpt_valid_map;
        ckpt_valid_blocks =
            if kept && not (se.ckpt_valid_map offset)
            then plus_10 se.ckpt_valid_blocks gained
            else se.ckpt_valid_blocks;
      };
      del = if exist then same else u.del;
      blks = if discard_en && not (se.discard_map offset) then plus_32 u.blks lost else u.blks;
      bug = u.bug || exist;
    }

-- The other branch, which clears them.
pub clear_valid : Bool → ℕ → Update → Update
clear_valid discard_en offset u =
    let se = u.entry in
    let exist = se.cur_valid_map offset in
    record {
      entry = record se {
        cur_valid_map = update se.cur_valid_map offset false;
        valid_blocks = if not exist then plus_10 se.valid_blocks gained else se.valid_blocks;
        discard_map = if discard_en then update se.discard_map offset false else se.discard_map;
      };
      del = if not exist then same else u.del;
      blks = if discard_en && se.discard_map offset then plus_32 u.blks gained else u.blks;
      bug = u.bug || not exist;
    }

-- The start of the function, up to the bitmaps.
pub new_valid_blocks : ℕ → ℕ → Delta → SegEntry → ℕ → Bool → Update
new_valid_blocks blocks_per_seg now del se blks bug = record {
  entry = record se { valid_blocks = plus_10 se.valid_blocks del; mtime = now };
  del = del;
  blks = blks;
  bug = bug || bad_vblocks blocks_per_seg se.valid_blocks del;
}

-- `ckpt_valid_blocks += del` where the last checkpoint does not keep the block.
pub count_ckpt : ℕ → Update → SegEntry
count_ckpt offset u =
    let se = u.entry in
    if se.ckpt_valid_map offset
    then se
    else record se { ckpt_valid_blocks = plus_10 se.ckpt_valid_blocks u.del }

abbrev pub is_gained : Delta → Bool
is_gained gained = true
is_gained same = false
is_gained lost = false

-- `__mark_sit_entry_dirty`.
pub mark_sit_entry_dirty : ℕ → SitInfo → SitInfo
mark_sit_entry_dirty segno s = record s {
  dirty_sentries_bitmap = update s.dirty_sentries_bitmap segno true;
  dirty_sentries = if s.dirty_sentries_bitmap segno then s.dirty_sentries else s.dirty_sentries + 1;
}

-- `__set_sit_entry_type`.
pub set_sit_entry_type : ℕ → ℕ → Bool → SitInfo → SitInfo
unfolding mark_sit_entry_dirty
set_sit_entry_type log_type segno modified s =
    let se = record (s.sentries segno) { log_type = log_type } in
    let t = record s { sentries = update s.sentries segno se } in
    if modified then mark_sit_entry_dirty segno t else t

module _ (blocks_per_seg : ℕ) (discard_en : Bool) (now : ℕ) where
  -- The bitmaps and counts of an entry.
  pub update_entry : ℕ → Delta → SegEntry → ℕ → Bool → Update
  unfolding set_valid clear_valid new_valid_blocks
  update_entry offset del se blks bug =
      let u = new_valid_blocks blocks_per_seg now del se blks bug in
      if is_gained del then set_valid discard_en offset u else clear_valid discard_en offset u

  module _ (segs_per_sec : ℕ) where
    -- `update_sit_entry` for the block `offset` of a segment.
    pub update_sit_entry : ℕ → ℕ → Delta → SitInfo → SitInfo
    unfolding update_entry count_ckpt mark_sit_entry_dirty
    update_sit_entry segno offset del s =
        let u = update_entry offset del (s.sentries segno) s.discard_blks s.need_fsck in
        let secno = segno / segs_per_sec in
        let t = mark_sit_entry_dirty segno (record s {
          sentries = update s.sentries segno (count_ckpt offset u);
          max_mtime = if ltb s.max_mtime now then now else s.max_mtime;
          discard_blks = u.blks;
          need_fsck = u.bug;
        }) in
        record t {
          written_valid_blocks = plus_32 s.written_valid_blocks u.del;
          sec_valid_blocks =
              if ltb 1 segs_per_sec
              then update s.sec_valid_blocks secno (plus_32 (s.sec_valid_blocks secno) u.del)
              else s.sec_valid_blocks;
        }

-- `get_valid_blocks`.
abbrev pub get_valid_blocks : ℕ → ℕ → Bool → SitInfo → ℕ
get_valid_blocks segs_per_sec segno use_section s =
    if use_section && ltb 1 segs_per_sec
    then s.sec_valid_blocks (segno / segs_per_sec)
    else (s.sentries segno).valid_blocks

-- A block address, taken apart: NULL_ADDR, NEW_ADDR, or the segment and the offset in it that
-- GET_SEGNO and GET_BLKOFF_FROM_SEG0 compute.
pub data BlockAddr : Type 0 where
  null_addr new_addr : BlockAddr
  block : ℕ → ℕ → BlockAddr

-- `f2fs_is_checkpointed_data`.
pub is_checkpointed_data : BlockAddr → SitInfo → Bool
is_checkpointed_data null_addr s = true
is_checkpointed_data new_addr s = true
is_checkpointed_data (block segno offset) s = (s.sentries segno).ckpt_valid_map offset
