-- ===== src/Node/Path.antt =====
-- `get_node_path` of node.c, its inverse `f2fs_start_bidx_of_node` of gc.c, and `IS_DNODE` of
-- node.h. A `long` never wraps here; node offsets and block indices are `unsigned int`s.
pub mod Rule
pub mod RoundTrip
pub mod Shape
mod Tests
use hoit_f2fs.Base.{
  ℕ, ◌+◌, ◌-◌, ◌*◌, ◌/◌, ◌%◌, Bool, true, false, not, ◌||◌, Option, none, some, List, [], ◌∷◌, ltb,
  leb, ◌==◌, if◌then◌else◌,
}
use hoit_f2fs.Base.Lists.{get_or}
use hoit_f2fs.Base.Words.{u32_mod, ◌+32◌, ◌-32◌, ◌*32◌}
use hoit_f2fs.Node.Layout.{NodeLayout}

-- What `get_node_path` writes: the level, which it returns, and `offset[0 .. level]` and
-- `noffset[0 .. level]`.
pub record NodePath : Type 0 where
  pub level : ℕ
  pub offset : List ℕ
  pub noffset : List ℕ

module _ (l : NodeLayout) where
  open l use {nids_per_block, addrs_per_block, addrs_per_inode}

  abbrev pub inode_path : ℕ → NodePath
  inode_path block = record { level = 0; offset = block ∷ []; noffset = 0 ∷ [] }

  abbrev pub direct_path : ℕ → ℕ → ℕ → NodePath
  direct_path slot nofs block = record {
    level = 1;
    offset = slot ∷ block ∷ [];
    noffset = 0 ∷ nofs ∷ [];
  }

  -- `nofs` is the offset of the indirect node; its first direct node has the next one.
  abbrev pub indirect_path : ℕ → ℕ → ℕ → NodePath
  indirect_path slot nofs block = record {
    level = 2;
    offset = slot ∷ (block / addrs_per_block) ∷ (block % addrs_per_block) ∷ [];
    noffset = 0 ∷ nofs ∷ (nofs +32 1 +32 block / addrs_per_block) ∷ [];
  }

  abbrev pub double_path : ℕ → NodePath
  double_path block =
      let first = block / (addrs_per_block * nids_per_block) in
      let second = (block / addrs_per_block) % nids_per_block in
      record {
        level = 3;
        offset = l.node_dind_block ∷ first ∷ second ∷ (block % addrs_per_block) ∷ [];
        noffset =
            0
            ∷ (5 + nids_per_block * 2) % u32_mod
            ∷ (6 + nids_per_block * 2 + first * (nids_per_block + 1)) % u32_mod
            ∷ (7 + nids_per_block * 2 + first * (nids_per_block + 1) + second) % u32_mod
            ∷ [];
      }

  -- The branches of `get_node_path` from the double indirect node back to the inode; `none` is
  -- -E2BIG.
  from_double : ℕ → Option NodePath
  from_double block =
      if ltb block (addrs_per_block * nids_per_block * nids_per_block)
      then some (double_path block)
      else none

  from_indirect2 : ℕ → Option NodePath
  unfolding from_double
  from_indirect2 block =
      if ltb block (addrs_per_block * nids_per_block)
      then some (indirect_path l.node_ind2_block ((4 + nids_per_block) % u32_mod) block)
      else from_double (block - addrs_per_block * nids_per_block)

  from_indirect1 : ℕ → Option NodePath
  unfolding from_indirect2
  from_indirect1 block =
      if ltb block (addrs_per_block * nids_per_block)
      then some (indirect_path l.node_ind1_block 3 block)
      else from_indirect2 (block - addrs_per_block * nids_per_block)

  pub get_node_path : ℕ → Option NodePath
  unfolding from_indirect1
  get_node_path block =
      if ltb block addrs_per_inode
      then some (inode_path block)
      else (let block1 = block - addrs_per_inode in
          if ltb block1 addrs_per_block
          then some (direct_path l.node_dir1_block 1 block1)
          else (let block2 = block1 - addrs_per_block in
              if ltb block2 addrs_per_block
              then some (direct_path l.node_dir2_block 2 block2)
              else from_indirect1 (block2 - addrs_per_block)))

  -- `bidx` of `f2fs_start_bidx_of_node`: how many direct nodes stand before this one.
  direct_index : ℕ → ℕ
  direct_index node_ofs =
      let indirect_blks = 2 * nids_per_block + 4 in
      if leb node_ofs 2
      then node_ofs -32 1
      else (if leb node_ofs indirect_blks
          then node_ofs -32 2 -32 (node_ofs -32 4) / (nids_per_block + 1)
          else node_ofs -32 5 -32 (node_ofs -32 indirect_blks -32 3) / (nids_per_block + 1))

  pub start_bidx_of_node : ℕ → ℕ
  unfolding direct_index
  start_bidx_of_node node_ofs =
      if node_ofs == 0 then 0 else direct_index node_ofs *32 addrs_per_block +32 addrs_per_inode

  -- `IS_DNODE` of a node at this offset, which is no xattr node: does it hold block addresses?
  pub is_dnode : ℕ → Bool
  is_dnode ofs =
      if ofs == 3 || ofs == 4 + nids_per_block || ofs == 5 + 2 * nids_per_block
      then false
      else (if leb (6 + 2 * nids_per_block) ofs
          then not ((ofs - (6 + 2 * nids_per_block)) % (nids_per_block + 1) == 0)
          else true)

-- The node offset of the node block that a path ends in, and the slot within it.
abbrev pub leaf_node : NodePath → ℕ
leaf_node p = get_or p.noffset p.level 0

abbrev pub leaf_slot : NodePath → ℕ
leaf_slot p = get_or p.offset p.level 0
