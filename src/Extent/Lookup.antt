-- ===== src/Extent/Lookup.antt =====
-- The lookups of extent_cache.c. A tree is the binary tree of the kernel's rbtree without colours:
-- the lookups only go down.
pub mod Find
pub mod Right
mod Tests
use hoit_f2fs.Base.{
  ℕ, ◌+◌, ◌<◌, ◌≤◌, ◌&&◌, Bool, true, false, Option, none, some, List, [], ◌∷◌, ◌++◌, ltb, leb,
  if◌then◌else◌,
}
use hoit_f2fs.Base.Words.{◌+32◌}
use hoit_f2fs.Extent.{Extent, extent_end, holds_page}

pub data Tree : Type 0 where
  leaf : Tree
  node : Tree → Extent → Tree → Tree

abbrev pub in_order : Tree → List Extent
in_order leaf = []
in_order (node l e r) = in_order l ++ e ∷ in_order r

-- `__lookup_rb_tree_fast`.
abbrev pub lookup_rb_tree_fast : Option Extent → ℕ → Option Extent
lookup_rb_tree_fast none ofs = none
lookup_rb_tree_fast (some cached) ofs = if holds_page cached ofs then some cached else none

-- `__lookup_rb_tree_slow`.
unfoldable pub lookup_rb_tree_slow : Tree → ℕ → Option Extent
lookup_rb_tree_slow leaf ofs = none
lookup_rb_tree_slow (node l e r) ofs =
    let in_left = lookup_rb_tree_slow l ofs in
    let in_right = lookup_rb_tree_slow r ofs in
    if ltb ofs e.fofs then in_left else if leb (extent_end e) ofs then in_right else some e

abbrev pub or_else : Option Extent → Option Extent → Option Extent
or_else none other = other
or_else (some e) other = some e

unfoldable pub lookup_rb_tree : Tree → Option Extent → ℕ → Option Extent
unfolding lookup_rb_tree_slow
lookup_rb_tree root cached ofs =
    or_else (lookup_rb_tree_fast cached ofs) (lookup_rb_tree_slow root ofs)

-- `f2fs_lookup_extent_tree`: the extent found, and `cached_en` afterwards.
unfoldable pub lookup_extent_tree :
    Extent → Tree → Option Extent → ℕ → Option Extent × Option Extent
unfolding lookup_rb_tree
lookup_extent_tree largest root cached pgofs =
    let en = lookup_rb_tree root cached pgofs in
    if holds_page largest pgofs then (some largest, cached) else (en, or_else en cached)
