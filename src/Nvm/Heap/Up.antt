-- ===== src/Nvm/Heap/Up.antt =====
-- `insert_max_heap` and `insert_min_heap` keep the heap order.
use hoit_f2fs.Base.{
  ℕ, zero, suc, ◌+◌, ◌≤◌, ◌<◌, ◌≡◌, ◌≢◌, ◌||◌, ◌==◌, true, false, inl, inr, Bool-cases, arith,
}
use hoit_f2fs.Base.Arrays.{Array, update}
use hoit_f2fs.Nvm.Heap.{
  Kind, largest, smallest, HeapNode, Heap, below, parent, sift_up, insert_heap,
}
use hoit_f2fs.Nvm.Heap.Order.{Below, IsHeap}

-- The order while position `i` is free for `node`: only the pair of `i` and its parent is open.
record Rising (kind : Kind) (num : ℕ) (nodes : Array HeapNode) (i : ℕ) (node : HeapNode)
    : Type 0 where
  position : i < num
  others :
      (c : ℕ)
      → 0 < c
      → c < num
      → c ≢ i
      → Below kind (update nodes i node c) (update nodes i node (parent c))
  grandchildren :
      (c : ℕ) → 0 < i → 0 < c → c < num → parent c ≡ i → Below kind (nodes c) (nodes (parent i))

Rising-step :
    (kind : Kind) (num : ℕ) (nodes : Array HeapNode) (i : ℕ) (node : HeapNode)
    → Rising kind num nodes i node
    → 0 < i
    → below kind node.count (nodes (parent i)).count ≡ false
    → Rising kind num (update nodes i (nodes (parent i))) (parent i) node
Rising-step largest num nodes i node r pos more = record {
  position = omega (arith, r.position);
  others = λ c h k ne. ground (arith, r.others c, r.grandchildren c);
  grandchildren = λ c hi h k e. ground (arith, r.others c, r.others (parent i));
}
Rising-step smallest num nodes i node r pos more = record {
  position = omega (arith, r.position);
  others = λ c h k ne. ground (arith, r.others c, r.grandchildren c);
  grandchildren = λ c hi h k e. ground (arith, r.others c, r.others (parent i));
}

Rising-stop :
    (kind : Kind) (num : ℕ) (nodes : Array HeapNode) (i : ℕ) (node : HeapNode)
    → Rising kind num nodes i node
    → (i == 0 || below kind node.count (nodes (parent i)).count) ≡ true
    → IsHeap kind num (update nodes i node)
Rising-stop largest num nodes i node r stop c h k = ground (arith, r.others c)
Rising-stop smallest num nodes i node r stop c h k = ground (arith, r.others c)

goes_on :
    (kind : Kind) (nodes : Array HeapNode) (i : ℕ) (node : HeapNode)
    → (i == 0 || below kind node.count (nodes (parent i)).count) ≡ false
    → (0 < i) × (below kind node.count (nodes (parent i)).count ≡ false)
goes_on kind nodes i node h = ground arith

sift_up-IsHeap :
    (kind : Kind) (num rounds : ℕ) (nodes : Array HeapNode) (i : ℕ) (node : HeapNode)
    → i ≤ rounds
    → Rising kind num nodes i node
    → IsHeap kind num (sift_up kind rounds nodes i node)
unfolding sift_up
sift_up-IsHeap kind num zero nodes i node enough r =
    Rising-stop kind num nodes i node r (ground arith)
sift_up-IsHeap kind num (suc rounds) nodes i node enough r =
    elim (Bool-cases (i == 0 || below kind node.count (nodes (parent i)).count)) [
      | inl stop ↦ rw stop (Rising-stop kind num nodes i node r stop)
      | inr go ↦
          let (pos, more) = goes_on kind nodes i node go in
          rw go (
            sift_up-IsHeap kind num rounds (update nodes i (nodes (parent i))) (parent i) node
              (omega arith) (Rising-step kind num nodes i node r pos more))
    ]

-- `insert_max_heap` and `insert_min_heap` keep the heap order.
pub insert_heap-IsHeap :
    (kind : Kind) (node : HeapNode) (h : Heap)
    → IsHeap kind h.cur_num h.nodes
    → IsHeap kind (insert_heap kind node h).cur_num (insert_heap kind node h).nodes
unfolding insert_heap
insert_heap-IsHeap kind node h ordered =
    sift_up-IsHeap kind (h.cur_num + 1) h.cur_num h.nodes h.cur_num node (omega arith) (record {
      position = omega arith;
      others = λ c pos less ne. ground (arith, ordered c pos (omega arith));
      grandchildren = λ c hi pos less e. absurd (omega arith);
    })
