-- ===== src/Extent/Lookup/Right.antt =====
-- A lookup answers with a block that the file has, also behind an update.
use mathlib.Core.Path.{subst}
use hoit_f2fs.Base.{
  ℕ, ◌+◌, ◌-◌, ◌<◌, ◌≤◌, ◌≡◌, ◌≢◌, Bool, true, Option, none, some, if◌then◌else◌, arith, refl, inl,
  inr, Bool-cases, sym, ◌∙◌, ap,
}
use hoit_f2fs.Base.Words.{u32_mod}
use hoit_f2fs.Extent.{Extent, ExtentTree, holds_page}
use hoit_f2fs.Extent.Map.{PageMap, Agrees, Chain, IsSound, written}
use hoit_f2fs.Extent.Lookup.{Tree, in_order, lookup_rb_tree, or_else, lookup_extent_tree}
use hoit_f2fs.Extent.Lookup.Find.{
  Listed, find_page, find_page-Agrees, hit_eq, miss_eq, or_this, lookup_rb_tree-find_page,
}
use hoit_f2fs.Extent.Update.{update_extent_tree_range}
use hoit_f2fs.Extent.Update.Sound.{update_extent_tree_range-IsSound}

-- The tree holds the extents of the cache, and `cached_en` is NULL or one of them.
pub record IsTree (et : ExtentTree) (t : Tree) (cached : Option Extent) : Type 0 where
  pub nodes : in_order t ≡ et.extents
  pub listed : (e : Extent) → cached ≡ some e → Listed e (in_order t)

-- The reference: the largest extent first, then a walk through all extents.
abbrev pub look : ExtentTree → ℕ → Option Extent
look et p = if holds_page et.largest p then some et.largest else find_page p et.extents

tree-Chain :
    (m : PageMap) (et : ExtentTree) (t : Tree) (cached : Option Extent)
    → IsSound m et
    → IsTree et t cached
    → Chain m 0 (in_order t)
tree-Chain m et t cached s r = subst (Chain m 0) (sym r.nodes) s.chain

Listed-or :
    (t : Tree) (o cached : Option Extent)
    → ((e : Extent) → o ≡ some e → Listed e (in_order t))
    → ((e : Extent) → cached ≡ some e → Listed e (in_order t))
    → (e : Extent) → or_else o cached ≡ some e
    → Listed e (in_order t)
Listed-or t none cached h k e f = k e f
Listed-or t (some x) cached h k e f = h e f

-- In a cache that holds only what the file has, `f2fs_lookup_extent_tree` answers as the walk
-- through all extents does, and leaves `cached_en` at NULL or a node of the tree.
pub lookup_extent_tree-look :
    (m : PageMap) (p : ℕ) (et : ExtentTree) (t : Tree) (cached : Option Extent)
    → IsSound m et
    → IsTree et t cached
    → ((lookup_extent_tree et.largest t cached p).0 ≡ look et p)
      × IsTree et t (lookup_extent_tree et.largest t cached p).1
unfolding lookup_extent_tree
lookup_extent_tree-look m p et t cached s r =
    let c = tree-Chain m et t cached s r in
    let found = lookup_rb_tree-find_page m 0 p t cached c r.listed in
    elim (Bool-cases (holds_page et.largest p)) [
      | inl hit ↦ rw hit (refl, r)
      | inr miss ↦ rw miss (
        found ∙ ap (find_page p) r.nodes,
        record {
          nodes = r.nodes;
          listed =
              Listed-or t (lookup_rb_tree t cached p) cached
                (λ e f. (find_page-Agrees m p 0 e (in_order t) c (sym found ∙ f)).2) r.listed;
        },
      )
    ]

look-Agrees :
    (m : PageMap) (p : ℕ) (et : ExtentTree) (e : Extent)
    → IsSound m et
    → look et p ≡ some e
    → Agrees m e × (holds_page e p ≡ true)
look-Agrees m p et e s f = elim (Bool-cases (holds_page et.largest p)) [
  | inl hit ↦
      subst (λ y. Agrees m y × (holds_page y p ≡ true))
        (ap (or_this et.largest) (hit_eq m p et.largest e (find_page p et.extents) hit f))
        (s.largest, hit)
  | inr miss ↦
      let (a, h, _) =
        find_page-Agrees m p 0 e et.extents s.chain
          (miss_eq m p et.largest e (find_page p et.extents) miss f) in
      (a, h)
]

-- In a cache that holds only what the file has, an extent that `f2fs_lookup_extent_tree` answers
-- with holds the page, and gives the block that the file has there.
pub lookup_extent_tree_hit :
    (m : PageMap) (p : ℕ) (et : ExtentTree) (t : Tree) (cached : Option Extent) (e : Extent)
    → IsSound m et
    → IsTree et t cached
    → (lookup_extent_tree et.largest t cached p).0 ≡ some e
    → (e.fofs ≤ p) × (p < e.fofs + e.len) × (m p ≡ some (e.blk + (p - e.fofs)))
lookup_extent_tree_hit m p et t cached e s r f =
    let (same, _) = lookup_extent_tree-look m p et t cached s r in
    let (a, h) = look-Agrees m p et e s (sym same ∙ f) in
    (
      ground arith,
      ground (arith, a.pages_fit),
      a.same p (ground arith) (ground (arith, a.pages_fit)),
    )

new_block :
    (m : PageMap) (fofs blkaddr len p b : ℕ)
    → fofs ≤ p
    → p < fofs + len
    → written m fofs blkaddr len p ≡ some b
    → (blkaddr ≢ 0) × (b ≡ blkaddr + (p - fofs))
new_block m fofs blkaddr len p b le less there = (ground arith, ground arith)

-- Behind `f2fs_update_extent_tree_range` for a range of pages that lies, with its blocks, in 32 bits,
-- a lookup of a page of the range answers with the new block of the page, or not at all; where the
-- block was 0, it does not answer.
pub lookup_extent_tree-update_extent_tree_range :
    (m : PageMap) (fofs blkaddr len p : ℕ) (alloc_part alloc_node : Bool) (et : ExtentTree)
    (t : Tree) (cached : Option Extent) (e : Extent)
    → 0 < len
    → fofs + len < u32_mod
    → blkaddr + len < u32_mod
    → IsSound m et
    → IsTree (update_extent_tree_range fofs blkaddr len alloc_part alloc_node et) t cached
    → fofs ≤ p
    → p < fofs + len
    → (lookup_extent_tree
        (update_extent_tree_range fofs blkaddr len alloc_part alloc_node et).largest
        t
        cached
        p).0
      ≡ some e
    → (blkaddr ≢ 0) × (e.blk + (p - e.fofs) ≡ blkaddr + (p - fofs))
lookup_extent_tree-update_extent_tree_range m fofs blkaddr len p alloc_part alloc_node et t cached e
      some_page room blocks s r le less f =
    let after = update_extent_tree_range fofs blkaddr len alloc_part alloc_node et in
    let sound =
      update_extent_tree_range-IsSound m fofs blkaddr len alloc_part alloc_node et some_page room
        blocks s in
    let (_, _, there) =
      lookup_extent_tree_hit (written m fofs blkaddr len) p after t cached e sound r f in
    new_block m fofs blkaddr len p (e.blk + (p - e.fofs)) le less there
