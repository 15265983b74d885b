-- ===== src/Nvm/TopK/Selected.antt =====
-- What holds of the heap when the scan has reached an index.
use hoit_f2fs.Base.{
  ℕ, zero, suc, ◌≤◌, ◌<◌, ◌≡◌, Bool, true, false, Option, none, some, ◌==◌, ◌⊎◌, arith,
}
use hoit_f2fs.Base.Arrays as Arrays
use hoit_f2fs.Base.Arrays.{Array}
use hoit_f2fs.Nvm.Heap.{Kind, largest, smallest, HeapNode, Heap, parent, below}
use hoit_f2fs.Nvm.Heap.Order.{IsHeap}

abbrev pub has_count : Option ℕ → ℕ → Bool
has_count none c = false
has_count (some d) c = d == c

pub has_count→≡ : (o : Option ℕ) (c d : ℕ) → has_count o c ≡ true → o ≡ some d → c ≡ d
has_count→≡ none c d h e = ground arith
has_count→≡ (some d') c d h e = ground arith

-- Is the node one of the candidates, with its count?
abbrev pub is_candidate : (ℕ → Option ℕ) → HeapNode → Bool
is_candidate candidate x = has_count (candidate x.seg_off) x.count

abbrev pub of_segment : ℕ → HeapNode → Bool
of_segment j x = x.seg_off == j

abbrev pub copies : Heap → ℕ → ℕ
copies h j = Arrays.count (of_segment j) h.nodes h.cur_num

-- The counts stand at the right side of a bound.
abbrev pub Within : Kind → ℕ → ℕ → Type 0
Within largest x bound = x ≤ bound
Within smallest x bound = bound ≤ x

pub below→Within : (kind : Kind) (x y : ℕ) → below kind x y ≡ true → Within kind x y
below→Within largest x y h = ground arith
below→Within smallest x y h = ground arith

pub Within→below : (kind : Kind) (x y : ℕ) → Within kind x y → below kind x y ≡ true
Within→below largest x y h = ground arith
Within→below smallest x y h = ground arith

pub below_refl : (kind : Kind) (x : ℕ) → below kind x x ≡ true
below_refl largest x = ground arith
below_refl smallest x = ground arith

pub worse→below : (kind : Kind) (x y : ℕ) → below kind x y ≡ false → below kind y x ≡ true
worse→below largest x y h = ground arith
worse→below smallest x y h = ground arith

pub Within-trans : (kind : Kind) (x y z : ℕ) → Within kind x y → Within kind y z → Within kind x z
Within-trans largest x y z h k = omega arith
Within-trans smallest x y z h k = omega arith

pub Within-eq : (kind : Kind) (x y z : ℕ) → Within kind x y → y ≡ z → Within kind x z
Within-eq largest x y z h e = omega arith
Within-eq smallest x y z h e = omega arith

pub some-inj : (c d : ℕ) → some c ≡ some d → c ≡ d
some-inj c d e = ground arith

pub record Selected (kind : Kind) (candidate : ℕ → Option ℕ) (i : ℕ) (h : Heap) : Type 0 where
  pub ordered : IsHeap kind h.cur_num h.nodes
  pub size : h.cur_num ≤ h.k
  pub members : Arrays.count (is_candidate candidate) h.nodes h.cur_num ≡ h.cur_num
  pub once : (j : ℕ) → copies h j ≤ 1
  pub later : (j : ℕ) → i ≤ j → copies h j ≡ 0
  pub passed :
      (j c : ℕ)
      → j < i
      → candidate j ≡ some c
      → (copies h j ≡ 1) ⊎ ((h.cur_num ≡ h.k) × Within kind (h.nodes 0).count c)

heap_top_below :
    (kind : Kind) (num rounds : ℕ) (nodes : Array HeapNode)
    → IsHeap kind num nodes
    → (i : ℕ) → i ≤ rounds
    → i < num
    → Within kind (nodes i).count (nodes 0).count
heap_top_below largest num zero nodes ordered i enough less = ground arith
heap_top_below smallest num zero nodes ordered i enough less = ground arith
heap_top_below largest num (suc rounds) nodes ordered i enough less =
    ground (arith, heap_top_below largest num rounds nodes ordered (parent i), ordered i)
heap_top_below smallest num (suc rounds) nodes ordered i enough less =
    ground (arith, heap_top_below smallest num rounds nodes ordered (parent i), ordered i)

-- The top bounds all counts.
pub heap_top-Within :
    (kind : Kind) (num : ℕ) (nodes : Array HeapNode)
    → IsHeap kind num nodes
    → (i : ℕ) → i < num
    → Within kind (nodes i).count (nodes 0).count
heap_top-Within kind num nodes ordered i less =
    heap_top_below kind num i nodes ordered i (omega arith) less
