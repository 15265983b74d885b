-- ===== src/Nvm/Heap.antt =====
-- The two heaps of nvm.c that choose the segments to move. `max_heap` and `min_heap` and their
-- functions differ in the direction of the comparisons only, which `Kind` stands for.
pub mod Order
pub mod Up
pub mod Down
pub mod Contents
mod Tests
use hoit_f2fs.Base.{
  ℕ, zero, suc, ◌+◌, ◌-◌, ◌*◌, ◌/◌, ◌≤◌, Bool, true, false, not, ◌&&◌, ◌||◌, ltb, leb, ◌==◌,
  if◌then◌else◌,
}
use hoit_f2fs.Base.Arrays.{Array, update}

-- `struct max_heap` or `struct min_heap`.
pub data Kind : Type 0 where
  largest smallest : Kind

-- May a node with the first count stand below one with the second?
abbrev pub below : Kind → ℕ → ℕ → Bool
below largest x y = leb x y
below smallest x y = leb y x

pub record HeapNode : Type 0 where
  pub count : ℕ
  pub seg_off : ℕ

-- Without `max_count` and `min_count`, which the functions here leave alone.
pub record Heap : Type 0 where
  pub nodes : Array HeapNode
  pub cur_num : ℕ
  pub k : ℕ

abbrev pub parent : ℕ → ℕ
parent i = (i - 1) / 2

module _ (kind : Kind) where
  -- The loop of `insert_max_heap` and `insert_min_heap` from the free position `i`, and the writes
  -- behind it. The position at least halves in each round.
  sift_up : ℕ → Array HeapNode → ℕ → HeapNode → Array HeapNode
  sift_up zero nodes i node = update nodes i node
  sift_up (suc rounds) nodes i node =
      let j = parent i in
      let rest = sift_up rounds (update nodes i (nodes j)) j node in
      if i == 0 || below kind node.count (nodes j).count then update nodes i node else rest

  unfoldable pub insert_heap : HeapNode → Heap → Heap
  unfolding sift_up
  insert_heap node h = record h {
    nodes = sift_up h.cur_num h.nodes h.cur_num node;
    cur_num = h.cur_num + 1;
  }

  -- The child that the loop of `max_heap_adjust_down` or `min_heap_adjust_down` looks at.
  abbrev pub child : Array HeapNode → ℕ → ℕ → ℕ
  child nodes num i =
      let j = (i + 1) * 2 - 1 in
      if ltb (j + 1) num && not (below kind (nodes (j + 1)).count (nodes j).count) then j + 1 else j

  -- That loop from position `i`, and the writes behind it. Each round goes to a later position.
  sift_down : ℕ → Array HeapNode → ℕ → ℕ → HeapNode → Array HeapNode
  sift_down zero nodes num i node = update nodes i node
  sift_down (suc rounds) nodes num i node =
      let j = child nodes num i in
      let rest = sift_down rounds (update nodes i (nodes j)) num j node in
      if leb num i || leb num j || below kind (nodes j).count node.count
      then update nodes i node
      else rest

  unfoldable pub adjust_down : Heap → Heap
  unfolding sift_down
  adjust_down h = record h { nodes = sift_down h.cur_num h.nodes h.cur_num 0 (h.nodes 0) }
