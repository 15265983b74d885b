-- ===== src/Nvm/TopK.antt =====
-- The scan that `get_max_k` and `get_min_k` of nvm.c share: the first `k` candidates go into the
-- heap, and each later one takes the place of the top where its count is better. The two functions
-- differ in the direction and in the candidates. A candidate is an index with a count.
pub mod Selected
pub mod Step
pub mod Scan
use hoit_f2fs.Base.{
  ℕ, zero, suc, ◌+◌, ◌≤◌, Bool, true, false, ◌||◌, Option, none, some, leb, ◌==◌, if◌then◌else◌,
}
use hoit_f2fs.Base.Arrays.{update}
use hoit_f2fs.Nvm.Heap.{Kind, largest, smallest, HeapNode, Heap, below, insert_heap, adjust_down}

-- The count of the top: `get_max_heap_top`, and `mh->nodes[0].count` in `get_min_k`.
abbrev pub heap_top : Kind → Heap → ℕ
heap_top largest h = if h.cur_num == 0 then 0 else (h.nodes 0).count
heap_top smallest h = (h.nodes 0).count

module _ (kind : Kind) where
  -- The end of a round of the first loop.
  abbrev pub place : Option ℕ → ℕ → Heap → Heap
  place none i h = h
  place (some c) i h = insert_heap kind (record { count = c; seg_off = i }) h

  -- The end of a round of the second loop.
  abbrev pub replace : Option ℕ → ℕ → Heap → Heap
  replace none i h = h
  replace (some c) i h =
      if below kind (heap_top kind h) c
      then h
      else adjust_down kind
          (record h { nodes = update h.nodes 0 (record { count = c; seg_off = i }) })

  -- `skip` tells the indices from which the scan goes on behind `right`. Each round moves on by one
  -- index at least, so that `len` rounds are enough.
  module _ (candidate : ℕ → Option ℕ) (skip : ℕ → Bool) (right len : ℕ) where
    pub fill : ℕ → ℕ → Heap → ℕ × Heap
    fill zero i h = (i, h)
    fill (suc rounds) i h =
        let behind = fill rounds (right + 1) h in
        let next = fill rounds (i + 1) (place (candidate i) i h) in
        if leb len i || leb h.k h.cur_num then (i, h) else if skip i then behind else next

    pub improve : ℕ → ℕ → Heap → Heap
    improve zero i h = h
    improve (suc rounds) i h =
        let behind = improve rounds (right + 1) h in
        let next = improve rounds (i + 1) (replace (candidate i) i h) in
        if leb len i then h else if skip i then behind else next

    pub top_k : Heap → Heap
    unfolding fill improve
    top_k h = let (i, filled) = fill len 0 h in improve len i filled
