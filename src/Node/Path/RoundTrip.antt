-- ===== src/Node/Path/RoundTrip.antt =====
-- `f2fs_start_bidx_of_node` is the inverse of `get_node_path`.
use native.Mathlib.Nat.{
  div-add-mod', mod-lt, div-lt_iff_lt-mul, mul-add-div_right, div-eq_of_lt, div-div-eq-div-mul,
}
use hoit_f2fs.Base.{ℕ, ◌+◌, ◌*◌, ◌/◌, ◌%◌, ◌<◌, ◌≤◌, ◌≡◌, ◌≢◌, refl, arith}
use hoit_f2fs.Base.Words.{u32_mod, ◌+32◌}
use hoit_f2fs.Node.Layout.{NodeLayout, IsLayout, max_blocks}
use hoit_f2fs.Node.Path.{
  NodePath, direct_index, start_bidx_of_node, direct_path, indirect_path, double_path, leaf_node,
  leaf_slot,
}
use hoit_f2fs.Node.Path.Rule.{Branches, Finds, Finds_of_branches}

-- Dividing by `n + 1` drops the position of a child below its indirect node.
pub div-child : (n i j : ℕ) → j < n + 1 → (i * (n + 1) + j) / (n + 1) ≡ i
div-child n i j h =
    omega
      (arith, mul-add-div_right {m = n + 1} (omega arith) i j, div-eq_of_lt {n = j} {m = n + 1} h)

pub mul_mono : (a b m : ℕ) → a ≤ b → a * m ≤ b * m
mul_mono a b m h = grind arith

module _ (l : NodeLayout) (fits : IsLayout l) where
  open l use {nids_per_block, addrs_per_block, addrs_per_inode}

  direct_index_first : (q : ℕ) → q < nids_per_block → direct_index l (4 + q) ≡ 2 + q
  unfolding direct_index
  direct_index_first q h = ground (arith, div-child nids_per_block 0 q (omega arith), fits)

  direct_index_second :
      (q : ℕ)
      → q < nids_per_block
      → direct_index l (5 + nids_per_block + q) ≡ 2 + nids_per_block + q
  unfolding direct_index
  direct_index_second q h = ground (arith, div-child nids_per_block 1 q (omega arith), fits)

  direct_index_double :
      (i j : ℕ)
      → i < nids_per_block
      → j < nids_per_block
      → direct_index l (7 + nids_per_block * 2 + i * (nids_per_block + 1) + j)
        ≡ 2 + 2 * nids_per_block + i * nids_per_block + j
  unfolding direct_index
  direct_index_double i j hi hj = ground (
    arith,
    div-child nids_per_block i j (omega arith),
    mul_mono (i + 1) nids_per_block (nids_per_block + 1) (omega arith),
    fits,
  )

  abbrev Leads : ℕ → NodePath → Type 0
  Leads block p = start_bidx_of_node l (leaf_node p) + leaf_slot p ≡ block

  -- Where nothing wraps, the block that a direct node starts at is computed exactly.
  start_bidx_exact :
      (node_ofs exact idx slot block : ℕ)
      → node_ofs ≡ exact
      → exact ≢ 0
      → direct_index l exact ≡ idx
      → idx * addrs_per_block + addrs_per_inode + slot ≡ block
      → block < max_blocks l
      → start_bidx_of_node l node_ofs + slot ≡ block
  unfolding start_bidx_of_node
  start_bidx_exact node_ofs exact idx slot block e ne i b h = rw (e, i) (ground (arith, fits))

  -- The indices of a block under the double indirect node.
  pub double_parts :
      (b : ℕ)
      → b < addrs_per_block * nids_per_block * nids_per_block
      → (b / (addrs_per_block * nids_per_block) < nids_per_block)
        × ((b / addrs_per_block) % nids_per_block < nids_per_block)
        × (b / (addrs_per_block * nids_per_block) * nids_per_block
              + (b / addrs_per_block) % nids_per_block
            ≡ b / addrs_per_block)
  double_parts b h =
      let whole = div-div-eq-div-mul b addrs_per_block nids_per_block in
      (
        rw (← whole) (
            (div-lt_iff_lt-mul fits.nids_pos).1
              ((div-lt_iff_lt-mul fits.addrs_pos).1 (omega (arith, h)))),
        mod-lt (b / addrs_per_block) fits.nids_pos,
        rw (← whole) (div-add-mod' (b / addrs_per_block) nids_per_block),
      )

  -- No node offset below the double indirect node wraps.
  pub nofs_exact :
      (i j : ℕ)
      → i < nids_per_block
      → j < nids_per_block
      → ((5 + nids_per_block * 2) % u32_mod ≡ 5 + nids_per_block * 2)
        × ((6 + nids_per_block * 2 + i * (nids_per_block + 1)) % u32_mod
            ≡ 6 + nids_per_block * 2 + i * (nids_per_block + 1))
        × ((7 + nids_per_block * 2 + i * (nids_per_block + 1) + j) % u32_mod
            ≡ 7 + nids_per_block * 2 + i * (nids_per_block + 1) + j)
  nofs_exact i j hi hj =
      let room = mul_mono (i + 1) nids_per_block (nids_per_block + 1) (omega arith) in
      (omega (arith, fits), omega (arith, fits, room), omega (arith, fits, room))

  module _ (b block : ℕ) (h : block < max_blocks l) where
    Leads-direct :
        (slot k : ℕ)
        → k < 2
        → block ≡ addrs_per_inode + k * addrs_per_block + b
        → Leads block (direct_path l slot (k + 1) b)
    unfolding direct_index
    Leads-direct slot k small e =
        start_bidx_exact (k + 1) (k + 1) k b block refl (omega arith) (ground arith)
          (omega (arith, e)) h

    Leads-indirect1 :
        b < addrs_per_block * nids_per_block
        → block ≡ addrs_per_inode + 2 * addrs_per_block + b
        → Leads block (indirect_path l l.node_ind1_block 3 b)
    Leads-indirect1 small e =
        let q = b / addrs_per_block in
        let child : q < nids_per_block = (div-lt_iff_lt-mul fits.addrs_pos).1 (omega arith) in
        start_bidx_exact (3 +32 1 +32 q) (4 + q) (2 + q) (b % addrs_per_block) block
          (omega (arith, fits)) (omega arith) (direct_index_first q child)
          (omega (arith, div-add-mod' b addrs_per_block)) h

    Leads-indirect2 :
        b < addrs_per_block * nids_per_block
        → block ≡ addrs_per_inode + 2 * addrs_per_block + addrs_per_block * nids_per_block + b
        → Leads block (indirect_path l l.node_ind2_block ((4 + nids_per_block) % u32_mod) b)
    Leads-indirect2 small e =
        let q = b / addrs_per_block in
        let child : q < nids_per_block = (div-lt_iff_lt-mul fits.addrs_pos).1 (omega arith) in
        start_bidx_exact ((4 + nids_per_block) % u32_mod +32 1 +32 q) (5 + nids_per_block + q)
          (2 + nids_per_block + q) (b % addrs_per_block) block (omega (arith, fits)) (omega arith)
          (direct_index_second q child) (omega (arith, div-add-mod' b addrs_per_block)) h

    Leads-double :
        b < addrs_per_block * nids_per_block * nids_per_block
        → block ≡ addrs_per_inode + 2 * addrs_per_block + 2 * (addrs_per_block * nids_per_block) + b
        → Leads block (double_path l b)
    Leads-double small e =
        let (i_lt, j_lt, parts) = double_parts b small in
        let i = b / (addrs_per_block * nids_per_block) in
        let j = (b / addrs_per_block) % nids_per_block in
        start_bidx_exact _ _ (2 + 2 * nids_per_block + b / addrs_per_block) (b % addrs_per_block)
          block (nofs_exact i j i_lt j_lt).2 (omega arith)
          (omega (arith, direct_index_double i j i_lt j_lt, parts))
          (omega (arith, div-add-mod' b addrs_per_block)) h

  Branches-Leads : Branches l (λ block p. block < max_blocks l → Leads block p)
  unfolding start_bidx_of_node
  Branches-Leads = record {
    in_inode = λ b h small. ground arith;
    in_direct1 = λ b block h e small.
        Leads-direct b block small l.node_dir1_block 0 (omega arith) (omega (arith, e));
    in_direct2 = λ b block h e small.
        Leads-direct b block small l.node_dir2_block 1 (omega arith) (omega (arith, e));
    in_indirect1 = λ b block h e small. Leads-indirect1 b block small h e;
    in_indirect2 = λ b block h e small. Leads-indirect2 b block small h e;
    in_double = λ b block h e small. Leads-double b block small h e;
  }

  -- For every block that a file can have, `get_node_path` returns a path, and the first block of
  -- its last node by `f2fs_start_bidx_of_node`, plus the last offset, is that block.
  pub start_bidx-get_node_path :
      (block : ℕ)
      → block < max_blocks l
      → Finds l block (λ p. start_bidx_of_node l (leaf_node p) + leaf_slot p ≡ block)
  start_bidx-get_node_path block h =
      let (p, e, leads) = Finds_of_branches l _ Branches-Leads block h in (p, e, leads h)
