-- ===== src/Nvm/Cleaner/Choice.antt =====
-- `get_max_k` and `get_min_k` choose the best candidates.
use hoit_f2fs.Base.{ℕ, ◌<◌, ◌≤◌, ◌≡◌, ◌≢◌, ◌↔◌, false, ltb, if◌then◌else◌, arith}
use hoit_f2fs.Nvm.Segments.{Nvm}
use hoit_f2fs.Nvm.Heap.{smallest, Heap}
use hoit_f2fs.Nvm.Lfu.{Lfu}
use hoit_f2fs.Nvm.TopK.{top_k}
use hoit_f2fs.Nvm.TopK.Scan.{IsTopK, IsWindow, top_k-IsTopK}
use hoit_f2fs.Nvm.Cleaner.{Sections, Outcome, picked, no_hot, min_candidate, get_min_k}

no-IsWindow : IsWindow (λ i. false) 0
no-IsWindow = record { last = λ i h. ground arith; whole = λ i j h le le'. h }

full_iff :
    (h : Heap) (k : ℕ) (other : Outcome)
    → h.cur_num ≤ h.k
    → h.k ≡ k
    → other ≢ picked
    → ((if ltb h.cur_num h.k then other else picked) ≡ picked) ↔ (h.cur_num ≡ k)
full_iff h k other le e ne = ground arith

-- Started with an empty heap for at least one segment, `get_min_k` ends with a heap of distinct SSD
-- segments below `len` that have no mapping, are not in use and have been read, each with its count; one that
-- is missing has no higher count than any in the heap, and the heap is full then. It returns 0
-- exactly when the heap is full, and -ENOHOT otherwise.
pub get_min_k-IsTopK :
    (s : Nvm) (lfu : Lfu) (c : Sections) (mh : Heap) (len : ℕ)
    → mh.cur_num ≡ 0
    → 0 < mh.k
    → IsTopK smallest (min_candidate s lfu c) len (get_min_k s lfu c mh len).1
      × (((get_min_k s lfu c mh len).0 ≡ picked) ↔ ((get_min_k s lfu c mh len).1.cur_num ≡ mh.k))
unfolding get_min_k
get_min_k-IsTopK s lfu c mh len fresh some_room =
    let candidate = min_candidate s lfu c in
    let (t, k) =
      top_k-IsTopK smallest candidate (λ segoff. false) 0 len mh no-IsWindow fresh some_room in
    (
      t,
      full_iff (top_k smallest candidate (λ segoff. false) 0 len mh) mh.k no_hot t.size k
          (λ e. ground arith),
    )
