-- ===== src/Nvm/Heap/Order.antt =====
-- The heap order.
use hoit_f2fs.Base.{ℕ, ◌≤◌, ◌<◌}
use hoit_f2fs.Base.Arrays.{Array}
use hoit_f2fs.Nvm.Heap.{Kind, largest, smallest, HeapNode, parent}

abbrev pub Below : Kind → HeapNode → HeapNode → Type 0
Below largest x y = x.count ≤ y.count
Below smallest x y = y.count ≤ x.count

-- Among the first `num` nodes, every one but the top may stand below its parent.
abbrev pub IsHeap : Kind → ℕ → Array HeapNode → Type 0
IsHeap kind num nodes = (c : ℕ) → 0 < c → c < num → Below kind (nodes c) (nodes (parent c))
