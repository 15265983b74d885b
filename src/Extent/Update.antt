-- ===== src/Extent/Update.antt =====
-- `f2fs_update_extent_tree_range`. The tree is walked at a cursor: the extents on the left, the
-- nearest first, and those on the right in order. `prev_en` of the code is the nearest on the left
-- or NULL, which `prev_known` tells; `next_en` is the first on the right. The hints `insert_p` and
-- `insert_parent` only save the search for the place of a new node, which the order fixes.
-- `cached_en` only saves a search as well, and the global list of the nodes is left out.
pub mod Seek
pub mod Parts
pub mod Cut
pub mod Merge
pub mod Sound
mod Tests
use hoit_f2fs.Base.{
  ℕ, zero, suc, ◌+◌, ◌-◌, Bool, true, false, not, ◌&&◌, ◌||◌, List, [], ◌∷◌, ltb, leb, ◌==◌,
  if◌then◌else◌,
}
use hoit_f2fs.Base.Words.{◌+32◌, ◌-32◌}
use hoit_f2fs.Extent.{
  Extent, ExtentTree, extent_end, is_extent_mergeable, drop_largest_extent,
  try_update_largest_extent,
}

abbrev pub min_extent_len : ℕ
min_extent_len = 64

abbrev pub uint_max : ℕ
uint_max = 4294967295

pub record Cursor : Type 0 where
  pub left : List Extent
  pub prev_known : Bool
  pub right : List Extent
  pub largest : Extent
  -- The length of `dei`.
  pub dei_len : ℕ

-- The order of the tree again.
abbrev pub joined : List Extent → List Extent → List Extent
joined [] right = right
joined (e ∷ left) right = joined left (e ∷ right)

-- `f2fs_lookup_rb_tree_ret` with `en = next_en` where nothing is found: on the right stand the
-- extents from the first one that ends behind `fofs` on.
pub seek : ℕ → Extent → List Extent → List Extent → Cursor
seek fofs largest left [] = record {
  left = left;
  prev_known = true;
  right = [];
  largest = largest;
  dei_len = 0;
}
seek fofs largest left (e ∷ es) =
    let further = seek fofs largest (e ∷ left) es in
    if leb (extent_end e) fofs then further else record {
      left = left;
      prev_known = leb fofs e.fofs;
      right = e ∷ es;
      largest = largest;
      dei_len = 0;
    }

-- A turn of the loop on the extent `en`, which the range overlaps: the parts of it that stay.
abbrev pub keeps_left : ℕ → Extent → Bool
keeps_left pos en = ltb en.fofs pos && leb min_extent_len (pos -32 en.fofs)

abbrev pub keeps_right : ℕ → Extent → Bool
keeps_right last en = ltb last (extent_end en) && leb min_extent_len (extent_end en -32 last)

abbrev pub left_part : ℕ → Extent → Extent
left_part pos en = record en { len = pos -32 en.fofs }

abbrev pub right_part : ℕ → Extent → Extent
right_part last en = record {
  fofs = last;
  len = extent_end en -32 last;
  blk = (last -32 en.fofs) +32 en.blk;
}

-- The same part where `en` itself becomes it.
abbrev pub moved_right : ℕ → Extent → Extent
moved_right last en = record {
  fofs = last;
  len = en.len -32 (last -32 en.fofs);
  blk = en.blk +32 (last -32 en.fofs);
}

-- The loop, `last` for `end`. `alloc` tells whether the node for a second part is allocated. Behind
-- a right part the loop ends, since the part starts at `end`.
pub invalidate : ℕ → ℕ → Bool → Cursor → List Extent → Cursor
invalidate pos last alloc c [] = record c { right = [] }
invalidate pos last alloc c (en ∷ rest) =
    let l = left_part pos en in
    let r = right_part last en in
    let m = moved_right last en in
    let kept_left = record c {
      left = l ∷ c.left;
      prev_known = true;
      largest = try_update_largest_extent l c.largest;
      dei_len = en.len;
    } in
    let kept_both = record c {
      left = l ∷ c.left;
      prev_known = true;
      right = r ∷ rest;
      largest = try_update_largest_extent l (try_update_largest_extent r c.largest);
      dei_len = en.len;
    } in
    let kept_right = record c {
      right = m ∷ rest;
      largest = try_update_largest_extent m c.largest;
      dei_len = en.len;
    } in
    let after_left = invalidate pos last alloc kept_left rest in
    let after_none = invalidate pos last alloc (record c { dei_len = en.len }) rest in
    if not (ltb en.fofs last)
    then record c { right = en ∷ rest }
    else if keeps_left pos en
    then (if keeps_right last en && alloc then kept_both else after_left)
    else if keeps_right last en
    then kept_right
    else after_none

-- What one side makes of the new extent, the other extents of that side, and whether it merged.
pub record Merged : Type 0 where
  pub ei : Extent
  pub others : List Extent
  pub done : Bool

-- The two halves of `__try_merge_extent_node`.
abbrev pub merge_back : Extent → Bool → List Extent → Merged
merge_back ei known [] = record { ei = ei; others = []; done = false }
merge_back ei known (e ∷ left) =
    if known && is_extent_mergeable e ei
    then record { ei = record e { len = e.len +32 ei.len }; others = left; done = true }
    else record { ei = ei; others = e ∷ left; done = false }

abbrev pub merge_front : Extent → List Extent → Merged
merge_front ei [] = record { ei = ei; others = []; done = false }
merge_front ei (e ∷ right) =
    if is_extent_mergeable ei e
    then record { ei = record ei { len = e.len +32 ei.len }; others = right; done = true }
    else record { ei = ei; others = e ∷ right; done = false }

-- `__try_merge_extent_node`, and `__insert_extent_tree` where it returns NULL; `alloc` tells
-- whether the node is allocated.
pub insert_extent : Extent → Bool → Cursor → ExtentTree
insert_extent ei alloc c =
    let b = merge_back ei c.prev_known c.left in
    let f = merge_front b.ei c.right in
    if b.done || f.done || alloc
    then record {
      extents = joined b.others (f.ei ∷ f.others);
      largest = try_update_largest_extent f.ei c.largest;
      no_extent = false;
    }
    else record { extents = joined c.left c.right; largest = c.largest; no_extent = false }

-- `FI_NO_EXTENT` set, and the tree freed.
abbrev pub give_up : ExtentTree → ExtentTree
give_up et = record {
  extents = [];
  largest = drop_largest_extent 0 uint_max et.largest;
  no_extent = true;
}

-- Step 3, behind the loop: `before` is the length of the largest extent at the start.
pub finish : ℕ → ℕ → ℕ → ℕ → Bool → Cursor → ExtentTree
unfolding insert_extent
finish fofs blkaddr len before alloc c =
    let ei : Extent = record { fofs = fofs; len = len; blk = blkaddr } in
    let after = insert_extent ei alloc c in
    if blkaddr == 0
    then record { extents = joined c.left c.right; largest = c.largest; no_extent = false }
    else if leb 1 c.dei_len && ltb before min_extent_len && ltb after.largest.len min_extent_len
    then give_up after
    else after

-- `alloc_part` and `alloc_node` tell which allocations succeed.
pub update_extent_tree_range : ℕ → ℕ → ℕ → Bool → Bool → ExtentTree → ExtentTree
unfolding seek invalidate finish
update_extent_tree_range fofs blkaddr len alloc_part alloc_node et =
    let last = fofs +32 len in
    let dropped = drop_largest_extent fofs len et.largest in
    let found = seek fofs dropped [] et.extents in
    let c = invalidate fofs last alloc_part found found.right in
    if et.no_extent then et else finish fofs blkaddr len et.largest.len alloc_node c
