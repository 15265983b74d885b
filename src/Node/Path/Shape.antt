-- ===== src/Node/Path/Shape.antt =====
-- What the paths of `get_node_path` look like: indices in range, and which nodes they pass.
use native.Mathlib.Nat.{
  mod-lt, div-lt_iff_lt-mul, mul-add-mod_self_right, mul-mod_left, mod-eq_of_lt,
}
use hoit_f2fs.Base.{
  ℕ, ◌+◌, ◌-◌, ◌*◌, ◌/◌, ◌%◌, ◌<◌, ◌≤◌, ◌≡◌, ◌↔◌, none, Bool, true, false, ◌==◌, if◌then◌else◌,
  List, [], ◌∷◌, arith, ap,
}
use hoit_f2fs.Node.Layout.{NodeLayout, IsLayout, max_blocks}
use hoit_f2fs.Node.Path.{NodePath, get_node_path, is_dnode, leaf_node, leaf_slot, from_indirect1}
use hoit_f2fs.Node.Path.Rule.{Branches, Finds, Finds_of_branches}
use hoit_f2fs.Node.Path.RoundTrip.{double_parts, nofs_exact}

from_indirect1_too_big :
    (l : NodeLayout) (b : ℕ)
    → (from_indirect1 l b ≡ none) ↔ (
        2 * (l.addrs_per_block * l.nids_per_block)
          + l.addrs_per_block * l.nids_per_block * l.nids_per_block
        ≤ b)
unfolding from_indirect1
from_indirect1_too_big l b = ground arith

-- `get_node_path` fails, with -E2BIG, exactly for the blocks that no file can have.
pub get_node_path_too_big :
    (l : NodeLayout) (block : ℕ) → (get_node_path l block ≡ none) ↔ (max_blocks l ≤ block)
unfolding get_node_path
get_node_path_too_big l block =
    let b = block - l.addrs_per_inode - l.addrs_per_block - l.addrs_per_block in
    ground (arith, from_indirect1_too_big l b)

-- The entries of `offset` between the first, which is a slot of the inode, and the last: each is
-- an index into a block of `nids_per_block` node ids.
abbrev pub Inner : (ℕ → Type 0) → List ℕ → Type 0
Inner P [] = Unit
Inner P (x ∷ []) = Unit
Inner P (x ∷ y ∷ zs) = P x × Inner P (y ∷ zs)

abbrev pub tail : List ℕ → List ℕ
tail [] = []
tail (x ∷ xs) = xs

module _ (l : NodeLayout) where
  open l use {nids_per_block, addrs_per_block, addrs_per_inode}

  -- Every index stays within the block that it indexes.
  pub record InRange (p : NodePath) : Type 0 where
    pub depth : p.level ≤ 3
    pub slot : leaf_slot p < (if p.level == 0 then addrs_per_inode else addrs_per_block)
    pub between : Inner (λ i. i < nids_per_block) (tail p.offset)

  -- `IS_DNODE` at the offsets that stand in paths.
  pub record Passes (p : NodePath) : Type 0 where
    pub ends : is_dnode l (leaf_node p) ≡ true
    pub through : Inner (λ n. is_dnode l n ≡ false) (tail p.noffset)

module _ (l : NodeLayout) (fits : IsLayout l) where
  open l use {nids_per_block, addrs_per_block, addrs_per_inode}

  child_lt : (b : ℕ) → b < addrs_per_block * nids_per_block → b / addrs_per_block < nids_per_block
  child_lt b h = (div-lt_iff_lt-mul fits.addrs_pos).1 (omega arith)

  -- Below the double indirect node, `IS_DNODE` tells a child from its indirect node.
  is_dnode-child :
      (i j : ℕ)
      → j < nids_per_block
      → is_dnode l (7 + nids_per_block * 2 + i * (nids_per_block + 1) + j) ≡ true
  unfolding is_dnode
  is_dnode-child i j h =
      let n = nids_per_block in
      let e : 7 + n * 2 + i * (n + 1) + j - (6 + 2 * n) ≡ i * (n + 1) + (j + 1) = omega arith in
      ground (
        arith,
        ap (λ t. t % (n + 1)) e,
        mul-add-mod_self_right i (n + 1) (j + 1),
        mod-eq_of_lt {n = j + 1} {m = n + 1} (omega arith),
      )

  is_dnode-inner : (i : ℕ) → is_dnode l (6 + nids_per_block * 2 + i * (nids_per_block + 1)) ≡ false
  unfolding is_dnode
  is_dnode-inner i =
      let n = nids_per_block in
      let e : 6 + n * 2 + i * (n + 1) - (6 + 2 * n) ≡ i * (n + 1) = omega arith in
      ground (arith, ap (λ t. t % (n + 1)) e, mul-mod_left i (n + 1))

  is_dnode-second : (q : ℕ) → q < nids_per_block → is_dnode l (5 + nids_per_block + q) ≡ true
  unfolding is_dnode
  is_dnode-second q h = ground arith

  is_dnode-at : (a b : ℕ) (t : Bool) → a ≡ b → is_dnode l b ≡ t → is_dnode l a ≡ t
  is_dnode-at a b t e h = rw e h

  is_dnode-roots :
      (is_dnode l (4 + nids_per_block) ≡ false) × (is_dnode l (5 + nids_per_block * 2) ≡ false)
  unfolding is_dnode
  is_dnode-roots = ground arith

  Branches-InRange : Branches l (λ block p. InRange l p)
  Branches-InRange = record {
    in_inode = λ b h. ground arith;
    in_direct1 = λ b block h e. ground arith;
    in_direct2 = λ b block h e. ground arith;
    in_indirect1 = λ b block h e. ground (arith, child_lt b h, mod-lt b fits.addrs_pos);
    in_indirect2 = λ b block h e. ground (arith, child_lt b h, mod-lt b fits.addrs_pos);
    in_double = λ b block h e. ground (arith, double_parts l fits b h, mod-lt b fits.addrs_pos);
  }

  -- For every block that a file can have, each offset on the path that `get_node_path` returns is
  -- below the number of entries of the block that it indexes.
  pub get_node_path-InRange : (block : ℕ) → block < max_blocks l → Finds l block (InRange l)
  get_node_path-InRange block h = Finds_of_branches l _ Branches-InRange block h

  Branches-Passes : Branches l (λ block p. Passes l p)
  unfolding is_dnode
  Branches-Passes = record {
    in_inode = λ b h. ground arith;
    in_direct1 = λ b block h e. ground arith;
    in_direct2 = λ b block h e. ground arith;
    in_indirect1 = λ b block h e. ground (arith, child_lt b h, fits);
    in_indirect2 = λ b block h e.
        let q = b / addrs_per_block in
        let small = child_lt b h in
        record {
          ends =
              is_dnode-at _ (5 + nids_per_block + q) true (omega (arith, fits))
                (is_dnode-second q small);
          through =
              (is_dnode-at _ (4 + nids_per_block) false (omega (arith, fits)) is_dnode-roots.0, tt);
        };
    in_double = λ b block h e.
        let i = b / (addrs_per_block * nids_per_block) in
        let j = (b / addrs_per_block) % nids_per_block in
        let (hi, hj, _) = double_parts l fits b h in
        let (root, inner, leaf) = nofs_exact l fits i j hi hj in
        record {
          ends = rw leaf (is_dnode-child i j hj);
          through = (rw root is_dnode-roots.1, (rw inner (is_dnode-inner i), tt));
        };
  }

  -- `IS_DNODE` holds of the last node on the path that `get_node_path` returns for a block below
  -- the limit, and of no node between the inode and that one.
  pub get_node_path-Passes : (block : ℕ) → block < max_blocks l → Finds l block (Passes l)
  get_node_path-Passes block h = Finds_of_branches l _ Branches-Passes block h
