-- ===== src/Nvm/Heap/Tests.antt =====
-- Runs of the heap functions on small heaps.
use hoit_f2fs.Base.{ℕ, ◌≡◌, refl, ◌==◌, if◌then◌else◌, arith}
use hoit_f2fs.Base.Arrays as Arrays
use hoit_f2fs.Nvm.Heap.{largest, HeapNode, Heap, sift_up, insert_heap, sift_down, adjust_down}
use hoit_f2fs.Nvm.Heap.Order.{IsHeap}

abbrev at : ℕ → ℕ → HeapNode
at n s = record { count = n; seg_off = s }

-- The counts 9, 5, 7, 1 in the segments 0 to 3.
abbrev four : ℕ → HeapNode
four i = if i == 0 then at 9 0 else if i == 1 then at 5 1 else if i == 2 then at 7 2 else at 1 3

abbrev largest_first : Heap
largest_first = record { nodes = four; cur_num = 4; k = 6 }

largest_first-IsHeap : IsHeap largest 4 four
largest_first-IsHeap c h less = ground arith

-- The same below a top of 2.
abbrev new_top : Heap
new_top = record { nodes = Arrays.update four 0 (at 2 8); cur_num = 4; k = 4 }

rises : ((insert_heap largest (at 8 4) largest_first).nodes 1).seg_off ≡ 4
unfolding insert_heap sift_up
rises = refl

falls : ((adjust_down largest new_top).nodes 2).seg_off ≡ 8
unfolding adjust_down sift_down
falls = refl
