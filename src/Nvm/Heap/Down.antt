-- ===== src/Nvm/Heap/Down.antt =====
-- `max_heap_adjust_down` and `min_heap_adjust_down` restore the heap order below a new top.
use hoit_f2fs.Base.{
  ℕ, zero, suc, ◌+◌, ◌-◌, ◌*◌, ◌≤◌, ◌<◌, ◌≡◌, ◌≢◌, ◌||◌, true, false, leb, inl, inr, ◌⊎◌,
  Bool-cases, arith,
}
use hoit_f2fs.Base.Arrays.{Array, update}
use hoit_f2fs.Nvm.Heap.{
  Kind, largest, smallest, HeapNode, Heap, below, parent, child, sift_down, adjust_down,
}
use hoit_f2fs.Nvm.Heap.Order.{Below, IsHeap}

-- The order while position `i` is free for `node`: only the pairs of `i` and its children are open.
record Falling (kind : Kind) (num : ℕ) (nodes : Array HeapNode) (i : ℕ) (node : HeapNode)
    : Type 0 where
  position : i < num
  others :
      (c : ℕ)
      → 0 < c
      → c < num
      → parent c ≢ i
      → Below kind (update nodes i node c) (update nodes i node (parent c))
  grandchildren :
      (c : ℕ) → 0 < i → 0 < c → c < num → parent c ≡ i → Below kind (nodes c) (nodes (parent i))

-- The child looked at is one, and no other child of `i` must stand above it.
record Chosen (kind : Kind) (num : ℕ) (nodes : Array HeapNode) (i j : ℕ) : Type 0 where
  is_child : parent j ≡ i
  later : i < j
  leftmost : num ≤ j → (c : ℕ) → 0 < c → parent c ≡ i → j ≤ c
  top : (c : ℕ) → 0 < c → c < num → parent c ≡ i → Below kind (nodes c) (nodes j)

children : (i c : ℕ) → 0 < c → parent c ≡ i → (c ≡ (i + 1) * 2 - 1) ⊎ (c ≡ (i + 1) * 2 - 1 + 1)
children i c h e = grind arith

child-Chosen :
    (kind : Kind) (num : ℕ) (nodes : Array HeapNode) (i : ℕ)
    → Chosen kind num nodes i (child kind nodes num i)
child-Chosen largest num nodes i = record {
  is_child = ground arith;
  later = ground arith;
  leftmost = λ over c h e. ground arith;
  top = λ c h k e. ground (arith, children i c h e);
}
child-Chosen smallest num nodes i = record {
  is_child = ground arith;
  later = ground arith;
  leftmost = λ over c h e. ground arith;
  top = λ c h k e. ground (arith, children i c h e);
}

Falling-step :
    (kind : Kind) (num : ℕ) (nodes : Array HeapNode) (i j : ℕ) (node : HeapNode)
    → Falling kind num nodes i node
    → Chosen kind num nodes i j
    → j < num
    → below kind (nodes j).count node.count ≡ false
    → Falling kind num (update nodes i (nodes j)) j node
Falling-step largest num nodes i j node f ch inside more = record {
  position = inside;
  others =
      λ c h k ne. ground (arith, ch.is_child, ch.later, ch.top c, f.others c, f.grandchildren j);
  grandchildren = λ c hi h k e. ground (arith, ch.is_child, ch.later, f.others c);
}
Falling-step smallest num nodes i j node f ch inside more = record {
  position = inside;
  others =
      λ c h k ne. ground (arith, ch.is_child, ch.later, ch.top c, f.others c, f.grandchildren j);
  grandchildren = λ c hi h k e. ground (arith, ch.is_child, ch.later, f.others c);
}

Falling-stop :
    (kind : Kind) (num : ℕ) (nodes : Array HeapNode) (i j : ℕ) (node : HeapNode)
    → Falling kind num nodes i node
    → Chosen kind num nodes i j
    → (leb num i || leb num j || below kind (nodes j).count node.count) ≡ true
    → IsHeap kind num (update nodes i node)
Falling-stop largest num nodes i j node f ch stop c h k = ground (
  arith,
  f.position,
  λ (o : num ≤ j) (e : parent c ≡ i). ch.leftmost o c h e,
  ch.top c,
  f.others c,
)
Falling-stop smallest num nodes i j node f ch stop c h k = ground (
  arith,
  f.position,
  λ (o : num ≤ j) (e : parent c ≡ i). ch.leftmost o c h e,
  ch.top c,
  f.others c,
)

goes_on :
    (kind : Kind) (num : ℕ) (nodes : Array HeapNode) (i j : ℕ) (node : HeapNode)
    → (leb num i || leb num j || below kind (nodes j).count node.count) ≡ false
    → (j < num) × (below kind (nodes j).count node.count ≡ false)
goes_on kind num nodes i j node h = ground arith

sift_down-IsHeap :
    (kind : Kind) (num rounds : ℕ) (nodes : Array HeapNode) (i : ℕ) (node : HeapNode)
    → num ≤ i + rounds
    → Falling kind num nodes i node
    → IsHeap kind num (sift_down kind rounds nodes num i node)
unfolding sift_down
sift_down-IsHeap kind num zero nodes i node enough f = absurd (omega (arith, f.position))
sift_down-IsHeap kind num (suc rounds) nodes i node enough f =
    let j = child kind nodes num i in
    let ch = child-Chosen kind num nodes i in
    elim (Bool-cases (leb num i || leb num j || below kind (nodes j).count node.count)) [
      | inl stop ↦ rw stop (Falling-stop kind num nodes i j node f ch stop)
      | inr go ↦
          let (inside, more) = goes_on kind num nodes i j node go in
          rw go (
            sift_down-IsHeap kind num rounds (update nodes i (nodes j)) j node
              (omega (arith, ch.later)) (Falling-step kind num nodes i j node f ch inside more))
    ]

-- With at least one node, and with every pair in order that the top is not part of,
-- `max_heap_adjust_down` and `min_heap_adjust_down` put all nodes in heap order.
pub adjust_down-IsHeap :
    (kind : Kind) (h : Heap)
    → 0 < h.cur_num
    → ((c : ℕ) → 0 < parent c → c < h.cur_num → Below kind (h.nodes c) (h.nodes (parent c)))
    → IsHeap kind h.cur_num (adjust_down kind h).nodes
unfolding adjust_down
adjust_down-IsHeap kind h some_node ordered =
    sift_down-IsHeap kind h.cur_num h.cur_num h.nodes 0 (h.nodes 0) (omega arith) (record {
      position = some_node;
      others = λ c pos less ne. ground (arith, ordered c (omega arith) less);
      grandchildren = λ c hi pos less e. absurd (omega arith);
    })
