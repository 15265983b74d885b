-- ===== src/Extent/Update/Sound.antt =====
-- The cache stays right.
use hoit_f2fs.Base.{
  ℕ, ◌+◌, ◌<◌, ◌≡◌, ◌&&◌, Bool, true, false, [], ltb, leb, ◌==◌, if◌then◌else◌, arith, inl, inr,
  Bool-cases, refl,
}
use hoit_f2fs.Base.Words.{u32_mod, ◌+32◌}
use hoit_f2fs.Extent.{Extent, ExtentTree, extent_end, drop_largest_extent}
use hoit_f2fs.Extent.Map.{PageMap, Agrees, IsSound, nil, written, Agrees-written}
use hoit_f2fs.Extent.Update.{
  Cursor, seek, invalidate, insert_extent, give_up, finish, update_extent_tree_range,
  min_extent_len, uint_max,
}
use hoit_f2fs.Extent.Update.Seek.{seek-Sought, seek-largest}
use hoit_f2fs.Extent.Update.Cut.{IsCut, invalidate-IsCut}
use hoit_f2fs.Extent.Update.Merge.{joined-Chain, insert_extent-IsSound}

drop_largest_extent-Agrees :
    (m : PageMap) (fofs blkaddr len : ℕ) (e : Extent)
    → Agrees m e
    → Agrees (written m fofs blkaddr len) (drop_largest_extent fofs len e)
drop_largest_extent-Agrees m fofs blkaddr len e a =
    elim (Bool-cases (ltb fofs (extent_end e) && ltb e.fofs (fofs + len))) [
      | inl dropped ↦ rw dropped (record {
        pages_fit = omega (arith, a.pages_fit);
        blocks_fit = omega (arith, a.blocks_fit);
        same = λ p le less. absurd (omega arith);
      })
      | inr kept ↦ rw kept (Agrees-written m fofs blkaddr len e (ground (arith, a.pages_fit)) a)
    ]

drop_all : (m : PageMap) (e : Extent) → Agrees m e → (drop_largest_extent 0 uint_max e).len ≡ 0
drop_all m e a = ground (arith, a.pages_fit)

empty-Agrees :
    (m : PageMap) (e : Extent) → e.len ≡ 0 → e.fofs < u32_mod → e.blk < u32_mod → Agrees m e
empty-Agrees m e none h k = record {
  pages_fit = omega arith;
  blocks_fit = omega arith;
  same = λ p le less. absurd (omega arith);
}

give_up-IsSound : (m : PageMap) (et : ExtentTree) → IsSound m et → IsSound m (give_up et)
give_up-IsSound m et s = record {
  chain = nil;
  largest =
      empty-Agrees m (drop_largest_extent 0 uint_max et.largest) (drop_all m et.largest s.largest)
        (ground (arith, s.largest.pages_fit)) (ground (arith, s.largest.blocks_fit));
  off = inr (refl, drop_all m et.largest s.largest);
}

off-IsSound :
    (m m' : PageMap) (et : ExtentTree)
    → IsSound m et
    → et.extents ≡ []
    → et.largest.len ≡ 0
    → IsSound m' et
off-IsSound m m' et s none empty = record {
  chain = rw none nil;
  largest =
      empty-Agrees m' et.largest empty (omega (arith, s.largest.pages_fit))
        (omega (arith, s.largest.blocks_fit));
  off = inr (none, empty);
}

stopped-IsSound :
    (m m' : PageMap) (et : ExtentTree) → IsSound m et → et.no_extent ≡ true → IsSound m' et
stopped-IsSound m m' et s stopped = elim s.off [
  | inl on ↦ absurd (ground arith)
  | inr (none, empty) ↦ off-IsSound m m' et s none empty
]

+32-small : (a b : ℕ) → a + b < u32_mod → a +32 b ≡ a + b
+32-small a b h = omega arith

-- The steps behind the loop.
IsCut-IsSound :
    (m : PageMap) (fofs blkaddr len before : ℕ) (alloc : Bool) (c : Cursor)
    → 0 < len
    → fofs + len < u32_mod
    → blkaddr + len < u32_mod
    → IsCut m fofs blkaddr len c
    → IsSound (written m fofs blkaddr len) (finish fofs blkaddr len before alloc c)
unfolding finish
IsCut-IsSound m fofs blkaddr len before alloc c some_page room blocks cut =
    elim (Bool-cases (blkaddr == 0)) [
      | inl hole ↦ rw hole (record {
        chain =
            joined-Chain (written m fofs blkaddr len) fofs (fofs + len) c.left c.right (omega arith)
              cut.left cut.right;
        largest = cut.largest;
        off = inl refl;
      })
      | inr block ↦
          let ei : Extent = record { fofs = fofs; len = len; blk = blkaddr } in
          let after = insert_extent ei alloc c in
          let sound =
            insert_extent-IsSound (written m fofs blkaddr len) ei alloc c
              (record { pages_fit = room; blocks_fit = blocks; same = λ p le less. ground arith })
              some_page cut.left cut.right cut.largest in
          rw block
            (elim (Bool-cases (
              leb 1 c.dei_len
              && ltb before min_extent_len
              && ltb after.largest.len min_extent_len)) [
                | inl over ↦ rw over (give_up-IsSound (written m fofs blkaddr len) after sound)
                | inr on ↦ rw on sound
              ])
    ]

either-IsSound :
    (m : PageMap) (b : Bool) (x y : ExtentTree)
    → (b ≡ true → IsSound m x)
    → (b ≡ false → IsSound m y)
    → IsSound m (if b then x else y)
either-IsSound m true x y h k = h refl
either-IsSound m false x y h k = k refl

-- Where the cache holds only what the file has, `f2fs_update_extent_tree_range` for a range of pages
-- that lies, with its blocks, in 32 bits leaves a cache that holds only what the file has once the
-- pages lie on the new blocks, or on none for the block 0; its extents stay in order and apart. It
-- holds for each outcome of the allocations, and where the cache is given up.
pub update_extent_tree_range-IsSound :
    (m : PageMap) (fofs blkaddr len : ℕ) (alloc_part alloc_node : Bool) (et : ExtentTree)
    → 0 < len
    → fofs + len < u32_mod
    → blkaddr + len < u32_mod
    → IsSound m et
    → IsSound
        (written m fofs blkaddr len)
        (update_extent_tree_range fofs blkaddr len alloc_part alloc_node et)
unfolding update_extent_tree_range
update_extent_tree_range-IsSound m fofs blkaddr len alloc_part alloc_node et some_page room blocks
      s =
    let m' = written m fofs blkaddr len in
    let dropped = drop_largest_extent fofs len et.largest in
    let found = seek fofs dropped [] et.extents in
    let sought = seek-Sought m fofs blkaddr len 0 dropped [] et.extents (omega arith) nil s.chain in
    let c = invalidate fofs (fofs + len) alloc_part found found.right in
    rw (+32-small fofs len room) (
      either-IsSound m' et.no_extent et (finish fofs blkaddr len et.largest.len alloc_node c)
        (stopped-IsSound m m' et s)
        (λ on. IsCut-IsSound m fofs blkaddr len et.largest.len alloc_node c some_page room blocks (
          invalidate-IsCut m fofs blkaddr len alloc_part found sought.bound found.right
            (record {
              bound = sought.bound;
              bound_le = sought.bound_le;
              bound_lo = omega arith;
              left = sought.left;
              largest =
                  rw (seek-largest fofs dropped [] et.extents)
                    (drop_largest_extent-Agrees m fofs blkaddr len et.largest s.largest);
              ends = sought.ends;
            })
            sought.right)))
