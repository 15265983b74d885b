-- ===== src/Extent/Lookup/Tests.antt =====
-- Runs of the lookups.
use mathlib.Core.Path.{subst, ap}
use hoit_f2fs.Base.{◌+◌, ◌-◌, ◌≡◌, false, none, some, [], ◌∷◌, refl, inl, arith, ltb, if◌then◌else◌}
use hoit_f2fs.Extent.{Extent, ExtentTree}
use hoit_f2fs.Extent.Map.{PageMap, IsSound, Agrees, Chain, nil, link}
use hoit_f2fs.Extent.Lookup.{Tree, leaf, node, lookup_rb_tree, lookup_extent_tree}
use hoit_f2fs.Extent.Lookup.Find.{Listed, here, there, find_page, lookup_rb_tree-find_page, or_this}
use hoit_f2fs.Extent.Lookup.Right.{IsTree}

abbrev pages : PageMap
pages p = if ltb p 80 then some (500 + p) else if ltb p 160 then some (900 + (p - 80)) else none

abbrev first : Extent
first = record { fofs = 0; len = 80; blk = 500 }

abbrev second : Extent
second = record { fofs = 80; len = 80; blk = 900 }

abbrev cache : ExtentTree
cache = record { extents = first ∷ second ∷ []; largest = first; no_extent = false }

abbrev tree : Tree
tree = node leaf first (node leaf second leaf)

first-Agrees : Agrees pages first
first-Agrees = record {
  pages_fit = omega arith;
  blocks_fit = omega arith;
  same = λ p le less. ground arith;
}

second-Agrees : Agrees pages second
second-Agrees = record {
  pages_fit = omega arith;
  blocks_fit = omega arith;
  same = λ p le less. ground arith;
}

chain : Chain pages 0 (first ∷ second ∷ [])
chain =
    link (omega arith) (omega arith) first-Agrees
      (link (omega arith) (omega arith) second-Agrees nil)

cache-IsSound : IsSound pages cache
cache-IsSound = record { chain = chain; largest = first-Agrees; off = inl refl }

Listed-second : (e : Extent) → some second ≡ some e → Listed e (first ∷ second ∷ [])
Listed-second e f = subst (λ y. Listed y (first ∷ second ∷ [])) (ap (or_this second) f) (there here)

tree-IsTree : IsTree cache tree (some second)
tree-IsTree = record { nodes = refl; listed = Listed-second }

found : (lookup_extent_tree first tree (some second) 100).0 ≡ some second
unfolding lookup_extent_tree
found = refl

lookup_rb_tree-find_page_example :
    lookup_rb_tree tree (some second) 100 ≡ find_page 100 (first ∷ second ∷ [])
lookup_rb_tree-find_page_example =
    lookup_rb_tree-find_page pages 0 100 tree (some second) chain Listed-second
