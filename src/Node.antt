-- ===== src/Node.antt =====
-- node.c, node.h and gc.c: how the blocks of a file are found through the tree of node blocks.
pub mod Layout
pub mod Path
