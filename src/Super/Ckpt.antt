-- ===== src/Super/Ckpt.antt =====
-- `f2fs_sanity_check_ckpt`: the logs that a checkpoint names lie in the main area.
use hoit_f2fs.Base.{
  ℕ, zero, suc, ◌+◌, ◌*◌, ◌<◌, Bool, true, false, ◌||◌, ltb, leb, ◌==◌, if◌then◌else◌,
}
use hoit_f2fs.Base.Words.{◌+32◌}
use hoit_f2fs.Base.Arrays.{Array}
use hoit_f2fs.Super.{RawSuper, Limits}

-- The fields of `struct f2fs_checkpoint` that the check reads.
pub record Checkpoint : Type 0 where
  pub rsvd_segment_count : ℕ
  pub overprov_segment_count : ℕ
  pub cur_node_segno : Array ℕ
  pub cur_node_blkoff : Array ℕ
  pub cur_data_segno : Array ℕ
  pub cur_data_blkoff : Array ℕ

-- NR_CURSEG_NODE_TYPE and NR_CURSEG_DATA_TYPE.
abbrev pub nr_curseg_node_type : ℕ
nr_curseg_node_type = 3

abbrev pub nr_curseg_data_type : ℕ
nr_curseg_data_type = 3

-- A loop over the logs of one kind: whether one of them lies outside.
pub log_outside : Array ℕ → Array ℕ → ℕ → ℕ → ℕ → ℕ → Bool
log_outside segno blkoff main_segs blocks_per_seg zero i = false
log_outside segno blkoff main_segs blocks_per_seg (suc left) i =
    let rest = log_outside segno blkoff main_segs blocks_per_seg left (i + 1) in
    if leb main_segs (segno i) || leb blocks_per_seg (blkoff i) then true else rest

-- The segments of the meta areas and those reserved.
pub fsmeta : RawSuper → Checkpoint → ℕ
fsmeta r c =
    r.segment_count_ckpt +32 r.segment_count_sit +32 r.segment_count_nat +32 c.rsvd_segment_count
    +32 r.segment_count_ssa

-- `true` where the checkpoint is refused. `cp_error` is `f2fs_cp_error`.
unfoldable pub sanity_check_ckpt : Limits → RawSuper → Checkpoint → ℕ → Bool → Bool
unfolding log_outside fsmeta
sanity_check_ckpt l r c blocks_per_seg cp_error =
    if leb r.segment_count (fsmeta r c)
    then true
    else if ltb (fsmeta r c) l.min_segments
        || c.overprov_segment_count == 0
        || c.rsvd_segment_count == 0
    then true
    else if log_outside c.cur_node_segno c.cur_node_blkoff r.segment_count_main blocks_per_seg
        nr_curseg_node_type 0
    then true
    else if log_outside c.cur_data_segno c.cur_data_blkoff r.segment_count_main blocks_per_seg
        nr_curseg_data_type 0
    then true
    else cp_error

-- The next block of each log of a kind, `START_BLOCK` of its segment and its offset, lies in the
-- main area.
pub record IsInMain (r : RawSuper) (segno blkoff : Array ℕ) (n : ℕ) : Type 0 where
  pub inside :
      (i : ℕ)
      → i < n
      → r.main_blkaddr + segno i * 512 + blkoff i < r.segment0_blkaddr + r.segment_count * 512
