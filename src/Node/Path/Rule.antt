-- ===== src/Node/Path/Rule.antt =====
-- One rule for what holds of every path that `get_node_path` returns, by its six branches.
use hoit_f2fs.Base.{
  ℕ, ◌+◌, ◌-◌, ◌*◌, ◌%◌, ◌<◌, ◌≡◌, some, ltb, ltb→lt, ltb→le, Bool-cases, inl, inr, arith,
}
use hoit_f2fs.Base.Words.{u32_mod}
use hoit_f2fs.Node.Layout.{NodeLayout, max_blocks}
use hoit_f2fs.Node.Path.{
  NodePath, inode_path, direct_path, indirect_path, double_path, from_indirect1, get_node_path,
}

-- The code returns a path with the property `P`.
abbrev pub Finds : NodeLayout → ℕ → (NodePath → Type 0) → Type 0
Finds l block P = (p : NodePath) × (get_node_path l block ≡ some p) × P p

module _ (l : NodeLayout) (P : ℕ → NodePath → Type 0) where
  open l use {nids_per_block, addrs_per_block, addrs_per_inode}

  -- Each branch yields the property at the block that it is reached with.
  pub record Branches : Type 0 where
    pub in_inode : (b : ℕ) → b < addrs_per_inode → P b (inode_path l b)
    pub in_direct1 :
        (b block : ℕ)
        → b < addrs_per_block
        → block ≡ addrs_per_inode + b
        → P block (direct_path l l.node_dir1_block 1 b)
    pub in_direct2 :
        (b block : ℕ)
        → b < addrs_per_block
        → block ≡ addrs_per_inode + addrs_per_block + b
        → P block (direct_path l l.node_dir2_block 2 b)
    pub in_indirect1 :
        (b block : ℕ)
        → b < addrs_per_block * nids_per_block
        → block ≡ addrs_per_inode + 2 * addrs_per_block + b
        → P block (indirect_path l l.node_ind1_block 3 b)
    pub in_indirect2 :
        (b block : ℕ)
        → b < addrs_per_block * nids_per_block
        → block ≡ addrs_per_inode + 2 * addrs_per_block + addrs_per_block * nids_per_block + b
        → P block (indirect_path l l.node_ind2_block ((4 + nids_per_block) % u32_mod) b)
    pub in_double :
        (b block : ℕ)
        → b < addrs_per_block * nids_per_block * nids_per_block
        → block ≡ addrs_per_inode + 2 * addrs_per_block + 2 * (addrs_per_block * nids_per_block) + b
        → P block (double_path l b)

  -- The three branches behind the direct nodes, for a block counted from there.
  Finds-indirect :
      Branches
      → (b block : ℕ) → block ≡ addrs_per_inode + 2 * addrs_per_block + b
      → block < max_blocks l
      → (p : NodePath) × (from_indirect1 l b ≡ some p) × P block p
  unfolding from_indirect1
  Finds-indirect c b block e h = elim (Bool-cases (ltb b unit)) [
    | inl t ↦ (indirect_path l l.node_ind1_block 3 b, rw t, c.in_indirect1 b block (ltb→lt _ _ t) e)
    | inr f ↦ elim (Bool-cases (ltb (b - unit) unit)) [
      | inl t ↦ (
        indirect_path l l.node_ind2_block ((4 + nids_per_block) % u32_mod) (b - unit),
        rw (f, t),
        c.in_indirect2 (b - unit) block (ltb→lt _ _ t) (omega (arith, ltb→le _ _ f)),
      )
      | inr f' ↦ (
        double_path l (b - unit - unit),
        ground arith,
        c.in_double (b - unit - unit) block (ground arith) (ground arith),
      )
    ]
  ]
    where
      unit : ℕ
      unit = addrs_per_block * nids_per_block

  pub Finds_of_branches : Branches → (block : ℕ) → block < max_blocks l → Finds l block (P block)
  unfolding get_node_path
  Finds_of_branches c block h = elim (Bool-cases (ltb block addrs_per_inode)) [
    | inl t ↦ (inode_path l block, rw t, c.in_inode block (ltb→lt _ _ t))
    | inr f ↦ elim (Bool-cases (ltb b1 addrs_per_block)) [
      | inl t ↦ (
        direct_path l l.node_dir1_block 1 b1,
        rw (f, t),
        c.in_direct1 b1 block (ltb→lt _ _ t) (omega (arith, ltb→le _ _ f)),
      )
      | inr f' ↦ elim (Bool-cases (ltb b2 addrs_per_block)) [
        | inl t ↦ (
          direct_path l l.node_dir2_block 2 b2,
          rw (f, f', t),
          c.in_direct2 b2 block (ltb→lt _ _ t) (omega (arith, ltb→le _ _ f, ltb→le _ _ f')),
        )
        | inr f'' ↦
            let (p, e, q) =
              Finds-indirect c (b2 - addrs_per_block) block
                (omega (arith, ltb→le _ _ f, ltb→le _ _ f', ltb→le _ _ f'')) h in
            (p, rw (f, f', f'') e, q)
      ]
    ]
  ]
    where
      b1 : ℕ
      b1 = block - addrs_per_inode

      b2 : ℕ
      b2 = b1 - addrs_per_block
