-- ===== src/Extent/Update/Tests.antt =====
-- Runs of the update on a file of 300 pages that lie on the blocks from 1000 on.
use hoit_f2fs.Base.{
  ◌+◌, ◌-◌, ◌≡◌, ◌≢◌, true, false, none, some, [], ◌∷◌, refl, inl, arith, ltb, if◌then◌else◌,
}
use hoit_f2fs.Extent.{Extent, ExtentTree}
use hoit_f2fs.Extent.Map.{PageMap, IsSound, Agrees, nil, link, written}
use hoit_f2fs.Extent.Lookup.{
  Tree, leaf, node, lookup_extent_tree, lookup_rb_tree, lookup_rb_tree_slow,
}
use hoit_f2fs.Extent.Lookup.Right.{IsTree, lookup_extent_tree-update_extent_tree_range}
use hoit_f2fs.Extent.Update.{update_extent_tree_range, seek, invalidate, insert_extent, finish}
use hoit_f2fs.Extent.Update.Sound.{update_extent_tree_range-IsSound}

abbrev pub file : PageMap
file p = if ltb p 300 then some (1000 + p) else none

abbrev pub whole : Extent
whole = record { fofs = 0; len = 300; blk = 1000 }

abbrev pub cache : ExtentTree
cache = record { extents = whole ∷ []; largest = whole; no_extent = false }

whole-Agrees : Agrees file whole
whole-Agrees = record {
  pages_fit = omega arith;
  blocks_fit = omega arith;
  same = λ p le less. ground arith;
}

pub cache-IsSound : IsSound file cache
cache-IsSound = record {
  chain = link (omega arith) (omega arith) whole-Agrees nil;
  largest = whole-Agrees;
  off = inl refl;
}

-- Pages 100 to 109 move: the extent is split in three.
splits :
    (update_extent_tree_range 100 5000 10 true true cache).extents
    ≡ record { fofs = 0; len = 100; blk = 1000 }
      ∷ record { fofs = 100; len = 10; blk = 5000 }
      ∷ record { fofs = 110; len = 190; blk = 1110 }
      ∷ []
unfolding update_extent_tree_range seek invalidate finish insert_extent
splits = refl

-- Page 299 moves to the block 1400 behind the file's, and page 300 is written behind it.
merges :
    (update_extent_tree_range 300 1401 1 true true
      (update_extent_tree_range 299 1400 1 true true cache)).extents
    ≡ record { fofs = 0; len = 299; blk = 1000 } ∷ record { fofs = 299; len = 2; blk = 1400 } ∷ []
unfolding update_extent_tree_range seek invalidate finish insert_extent
merges = refl

update_extent_tree_range-IsSound_example :
    IsSound (written file 100 5000 10) (update_extent_tree_range 100 5000 10 true true cache)
update_extent_tree_range-IsSound_example =
    update_extent_tree_range-IsSound file 100 5000 10 true true cache (omega arith) (omega arith)
      (omega arith) cache-IsSound

-- The same cache behind the write of the pages 100 to 109, in a tree.
abbrev moved : Extent
moved = record { fofs = 100; len = 10; blk = 5000 }

abbrev tree : Tree
tree =
    node (node leaf (record { fofs = 0; len = 100; blk = 1000 }) leaf) moved
      (node leaf (record { fofs = 110; len = 190; blk = 1110 }) leaf)

tree-IsTree : IsTree (update_extent_tree_range 100 5000 10 true true cache) tree none
unfolding update_extent_tree_range seek invalidate finish insert_extent
tree-IsTree = record { nodes = refl; listed = λ e f. absurd (ground arith) }

answers :
    (lookup_extent_tree
      (update_extent_tree_range 100 5000 10 true true cache).largest
      tree
      none
      105).0
    ≡ some moved
unfolding update_extent_tree_range seek invalidate finish insert_extent lookup_extent_tree
    lookup_rb_tree lookup_rb_tree_slow
answers = refl

lookup_extent_tree-update_extent_tree_range_example :
    (moved.blk ≢ 0) × (moved.blk + (105 - 100) ≡ 5000 + (105 - 100))
lookup_extent_tree-update_extent_tree_range_example =
    lookup_extent_tree-update_extent_tree_range file 100 5000 10 105 true true cache tree none moved
      (omega arith) (omega arith) (omega arith) cache-IsSound tree-IsTree (omega arith)
      (omega arith) answers
