-- ===== src/Node/Layout.antt =====
-- The numbers that linux/f2fs_fs.h gives for the tree of a file's node blocks (ADDRS_PER_INODE
-- also depends on the inode). That header is not part of the repository, so they are parameters.
use hoit_f2fs.Base.{ℕ, ◌+◌, ◌*◌, ◌<◌}
use hoit_f2fs.Base.Words.{u32_mod}

pub record NodeLayout : Type 0 where
  pub nids_per_block : ℕ
  pub addrs_per_block : ℕ
  pub addrs_per_inode : ℕ
  pub node_dir1_block : ℕ
  pub node_dir2_block : ℕ
  pub node_ind1_block : ℕ
  pub node_ind2_block : ℕ
  pub node_dind_block : ℕ

-- The blocks that one file can have.
abbrev pub max_blocks : NodeLayout → ℕ
max_blocks l =
    l.addrs_per_inode
    + 2 * l.addrs_per_block
    + 2 * (l.addrs_per_block * l.nids_per_block)
    + l.addrs_per_block * l.nids_per_block * l.nids_per_block

-- A node block holds at least one pointer, and block indices and node offsets fit an `unsigned int`.
pub record IsLayout (l : NodeLayout) : Type 0 where
  pub nids_pos : 0 < l.nids_per_block
  pub addrs_pos : 0 < l.addrs_per_block
  pub blocks_fit : max_blocks l < u32_mod
  pub nodes_fit : 7 + 2 * l.nids_per_block + l.nids_per_block * (l.nids_per_block + 1) < u32_mod
