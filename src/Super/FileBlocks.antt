-- ===== src/Super/FileBlocks.antt =====
-- `max_file_blocks` of super.c, and the node paths of node.c.
use hoit_f2fs.Base.{ℕ, ◌+◌, ◌*◌, ◌≤◌, ◌<◌, ◌≡◌, some, Option-cases, arith, inl, inr}
use hoit_f2fs.Node.Layout.{NodeLayout, max_blocks}
use hoit_f2fs.Node.Path.{NodePath, get_node_path}
use hoit_f2fs.Node.Path.Shape.{get_node_path_too_big}

unfoldable pub max_file_blocks : NodeLayout → ℕ
max_file_blocks l =
    let leaf_count = l.addrs_per_block in
    let result = leaf_count * 2 in
    let leaf_count' = leaf_count * l.nids_per_block in
    let result' = result + leaf_count' * 2 in result' + leaf_count' * l.nids_per_block

max_file_blocks-le : (l : NodeLayout) → max_file_blocks l ≤ max_blocks l
unfolding max_file_blocks
max_file_blocks-le l = omega arith

-- Each block that `max_file_blocks` allows a file has a path from the inode, so that `get_node_path`
-- does not fail for it.
pub max_file_blocks-get_node_path :
    (l : NodeLayout) (block : ℕ)
    → block < max_file_blocks l
    → (p : NodePath) × (get_node_path l block ≡ some p)
max_file_blocks-get_node_path l block h = elim (Option-cases (get_node_path l block)) [
  | inl e ↦ absurd (omega (arith, max_file_blocks-le l, (get_node_path_too_big l block).0 e))
  | inr path ↦ path
]
