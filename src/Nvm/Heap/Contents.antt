-- ===== src/Nvm/Heap/Contents.antt =====
-- The heap functions move nodes and lose none: whatever is counted among the nodes stays the same.
use hoit_f2fs.Base.{
  ℕ, zero, suc, ◌+◌, ◌<◌, ◌≡◌, ◌≢◌, ◌||◌, ◌==◌, Bool, leb, inl, inr, Bool-cases, refl, ◌∙◌,
  if◌then◌else◌, arith,
}
use hoit_f2fs.Base.Arrays as Arrays
use hoit_f2fs.Base.Arrays.{Array, update, count-update, count-update_beyond}
use hoit_f2fs.Nvm.Heap.{
  Kind, HeapNode, Heap, below, parent, child, sift_up, insert_heap, sift_down, adjust_down,
}

module _ (p : HeapNode → Bool) where
  abbrev tally : Array HeapNode → ℕ → ℕ
  tally = Arrays.count p

  -- Moving the node of `j` to the free position `i` frees `j`.
  tally_move :
      (nodes : Array HeapNode) (i j n : ℕ) (node : HeapNode)
      → i < n
      → j < n
      → i ≢ j
      → tally (update (update nodes i (nodes j)) j node) n ≡ tally (update nodes i node) n
  tally_move nodes i j n node hi hj ne = ground (
    arith,
    count-update p (update nodes i (nodes j)) j node n hj,
    count-update p nodes i (nodes j) n hi,
    count-update p nodes i node n hi,
  )

  tally-sift_up :
      (kind : Kind) (n rounds : ℕ) (nodes : Array HeapNode) (i : ℕ) (node : HeapNode)
      → i < n
      → tally (sift_up kind rounds nodes i node) n ≡ tally (update nodes i node) n
  unfolding sift_up
  tally-sift_up kind n zero nodes i node h = refl
  tally-sift_up kind n (suc rounds) nodes i node h =
      elim (Bool-cases (i == 0 || below kind node.count (nodes (parent i)).count)) [
        | inl stop ↦ rw stop
        | inr go ↦ rw go (
            tally-sift_up kind n rounds (update nodes i (nodes (parent i))) (parent i) node
              (omega arith)
            ∙ tally_move nodes i (parent i) n node h (omega arith) (ground arith))
      ]

  tally-sift_down :
      (kind : Kind) (n rounds : ℕ) (nodes : Array HeapNode) (i : ℕ) (node : HeapNode)
      → i < n
      → tally (sift_down kind rounds nodes n i node) n ≡ tally (update nodes i node) n
  unfolding sift_down
  tally-sift_down kind n zero nodes i node h = refl
  tally-sift_down kind n (suc rounds) nodes i node h =
      let j = child kind nodes n i in
      elim (Bool-cases (leb n i || leb n j || below kind (nodes j).count node.count)) [
        | inl stop ↦ rw stop
        | inr go ↦ rw go (
            tally-sift_down kind n rounds (update nodes i (nodes j)) j node (ground arith)
            ∙ tally_move nodes i j n node h (ground arith) (ground arith))
      ]

  tally_next :
      (nodes : Array HeapNode) (n : ℕ)
      → tally nodes (n + 1) ≡ (if p (nodes n) then 1 else 0) + tally nodes n
  unfolding Arrays.count
  tally_next nodes n = ground arith

-- `insert_max_heap` and `insert_min_heap` add the node and keep all others: for every test of
-- nodes, as many pass as before, and one more if the node does.
pub insert_heap-tally :
    (p : HeapNode → Bool) (kind : Kind) (node : HeapNode) (h : Heap)
    → Arrays.count p (insert_heap kind node h).nodes (insert_heap kind node h).cur_num
      ≡ Arrays.count p h.nodes h.cur_num + (if p node then 1 else 0)
unfolding insert_heap Arrays.count
insert_heap-tally p kind node h = ground (
  arith,
  tally-sift_up p kind (h.cur_num + 1) h.cur_num h.nodes h.cur_num node (omega arith),
  count-update_beyond p h.nodes h.cur_num node h.cur_num (omega arith),
  tally_next p (update h.nodes h.cur_num node) h.cur_num,
)

-- `max_heap_adjust_down` and `min_heap_adjust_down` only rearrange the nodes of a heap with at
-- least one: for every test of nodes, as many pass as before.
pub adjust_down-tally :
    (p : HeapNode → Bool) (kind : Kind) (h : Heap)
    → 0 < h.cur_num
    → Arrays.count p (adjust_down kind h).nodes h.cur_num ≡ Arrays.count p h.nodes h.cur_num
unfolding adjust_down
adjust_down-tally p kind h some_node =
    tally-sift_down p kind h.cur_num h.cur_num h.nodes 0 (h.nodes 0) some_node
    ∙ omega (arith, count-update p h.nodes 0 (h.nodes 0) h.cur_num some_node)
