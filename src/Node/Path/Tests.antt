-- ===== src/Node/Path/Tests.antt =====
-- Runs of node.c's and gc.c's functions on small and real layouts, and instances of the theorems.
use hoit_f2fs.Base.{◌+◌, ◌≡◌, refl, some, [], ◌∷◌, arith}
use hoit_f2fs.Node.Layout.{NodeLayout, IsLayout}
use hoit_f2fs.Node.Path.{
  NodePath, get_node_path, from_indirect1, start_bidx_of_node, leaf_node, leaf_slot,
}
use hoit_f2fs.Node.Path.Rule.{Finds}
use hoit_f2fs.Node.Path.RoundTrip.{start_bidx-get_node_path}

-- The numbers of a 4 KB block.
abbrev real : NodeLayout
real = record {
  nids_per_block = 1018;
  addrs_per_block = 1018;
  addrs_per_inode = 923;
  node_dir1_block = 924;
  node_dir2_block = 925;
  node_ind1_block = 926;
  node_ind2_block = 927;
  node_dind_block = 928;
}

real-IsLayout : IsLayout real
real-IsLayout = omega arith

abbrev deep_path : NodePath
deep_path = record {
  level = 3;
  offset = 928 ∷ 0 ∷ 1 ∷ 2 ∷ [];
  noffset = 0 ∷ 2041 ∷ 2042 ∷ 2044 ∷ [];
}

deep : get_node_path real 2076627 ≡ some deep_path
unfolding get_node_path from_indirect1
deep = refl

deep_start : start_bidx_of_node real 2044 ≡ 2076625
unfolding start_bidx_of_node
deep_start = refl

start_bidx-get_node_path_example :
    Finds real 2076627 (λ p. start_bidx_of_node real (leaf_node p) + leaf_slot p ≡ 2076627)
start_bidx-get_node_path_example = start_bidx-get_node_path real real-IsLayout 2076627 (omega arith)
