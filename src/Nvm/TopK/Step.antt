-- ===== src/Nvm/TopK/Step.antt =====
-- A round of the scan keeps what holds of the heap.
use hoit_f2fs.Base.{
  ℕ, ◌+◌, ◌≤◌, ◌<◌, ◌≡◌, ◌≢◌, ltb, Bool, true, false, Option, none, some, ◌==◌, ◌⊎◌, refl, arith,
  if◌then◌else◌, inl, inr, Bool-cases, sym, ◌∙◌, ap,
}
use hoit_f2fs.Base.Arrays as Arrays
use hoit_f2fs.Base.Arrays.{Array, update, count-update, count_each, count_pos, count_all}
use hoit_f2fs.Nvm.Heap.{Kind, largest, smallest, HeapNode, Heap, below, insert_heap, adjust_down}
use hoit_f2fs.Nvm.Heap.Up.{insert_heap-IsHeap}
use hoit_f2fs.Nvm.Heap.Down.{adjust_down-IsHeap}
use hoit_f2fs.Nvm.Heap.Contents.{adjust_down-tally, insert_heap-tally}
use hoit_f2fs.Nvm.TopK.{heap_top, place, replace}
use hoit_f2fs.Nvm.TopK.Selected.{
  Selected, Within, is_candidate, below→Within, Within→below, worse→below, below_refl, has_count→≡,
  Within-eq, some-inj, Within-trans, of_segment, copies, heap_top-Within,
}

heap_top-count : (kind : Kind) (h : Heap) → 0 < h.cur_num → heap_top kind h ≡ (h.nodes 0).count
heap_top-count largest h some_node = ground arith
heap_top-count smallest h some_node = refl

some≢none : (c : ℕ) → some c ≢ none
some≢none c e = ground arith

==→≡ : (a b : ℕ) → (a == b) ≡ true → a ≡ b
==→≡ a b h = ground arith

module _ (kind : Kind) (candidate : ℕ → Option ℕ) (i : ℕ) (h : Heap)
    (s : Selected kind candidate i h) where
  -- An index that is no candidate changes nothing.
  pub Selected-next : candidate i ≡ none → Selected kind candidate (i + 1) h
  Selected-next e = record {
    ordered = s.ordered;
    size = s.size;
    members = s.members;
    once = s.once;
    later = λ j le. s.later j (omega arith);
    passed = λ j c less f. ground (arith, s.passed j c);
  }

  pub Selected-jump :
      (m : ℕ) → i ≤ m → ((j : ℕ) → i ≤ j → j < m → candidate j ≡ none) → Selected kind candidate m h
  Selected-jump m le skipped = record {
    ordered = s.ordered;
    size = s.size;
    members = s.members;
    once = s.once;
    later = λ j le'. s.later j (omega arith);
    passed = λ j c less f. elim (Bool-cases (ltb j i)) [
      | inl before ↦ s.passed j c (ground arith) f
      | inr behind ↦ absurd (some≢none c (sym f ∙ skipped j (ground arith) less))
    ];
  }

  module _ (c : ℕ) (found : candidate i ≡ some c) where
    abbrev node : HeapNode
    node = record { count = c; seg_off = i }

    found_node : is_candidate candidate node ≡ true
    found_node = rw found (ground arith)

    Selected-insert_heap :
        h.cur_num < h.k → Selected kind candidate (i + 1) (insert_heap kind node h)
    unfolding insert_heap
    Selected-insert_heap room = record {
      ordered = insert_heap-IsHeap kind node h s.ordered;
      size = omega arith;
      members =
          ground
            (arith, insert_heap-tally (is_candidate candidate) kind node h, s.members, found_node);
      once = λ j. ground (arith, insert_heap-tally (of_segment j) kind node h, s.once j, s.later j);
      later = λ j le. ground (arith, insert_heap-tally (of_segment j) kind node h, s.later j);
      passed = λ j d less f.
          inl
            (ground (arith, insert_heap-tally (of_segment j) kind node h, s.passed j d, s.later j));
    }

    -- Half of `replace`: the top is written over.
    abbrev over : Heap
    over = record h { nodes = update h.nodes 0 node }

    module _ (full : h.cur_num ≡ h.k) (some_node : 0 < h.cur_num) where
      tally_replaced :
          (p : HeapNode → Bool)
          → Arrays.count p (adjust_down kind over).nodes h.cur_num
              + (if p (h.nodes 0) then 1 else 0)
            ≡ Arrays.count p h.nodes h.cur_num + (if p node then 1 else 0)
      tally_replaced p =
          ap (λ n. n + (if p (h.nodes 0) then 1 else 0)) (adjust_down-tally p kind over some_node)
          ∙ count-update p h.nodes 0 node h.cur_num some_node

      old_top : is_candidate candidate (h.nodes 0) ≡ true
      old_top = count_each (is_candidate candidate) h.nodes h.cur_num s.members 0 some_node

      module _ (better : below kind (h.nodes 0).count c ≡ false) where
        abbrev within : HeapNode → Bool
        within x = below kind x.count (h.nodes 0).count

        all_within : Arrays.count within h.nodes h.cur_num ≡ h.cur_num
        all_within = count_all within h.nodes h.cur_num (λ p less.
            Within→below kind (h.nodes p).count (h.nodes 0).count
              (heap_top-Within kind h.cur_num h.nodes s.ordered p less))

        new_top-Within : Within kind ((adjust_down kind over).nodes 0).count (h.nodes 0).count
        new_top-Within =
            below→Within kind ((adjust_down kind over).nodes 0).count (h.nodes 0).count (
              count_each within (adjust_down kind over).nodes h.cur_num
                (ground (
                  arith,
                  tally_replaced within,
                  all_within,
                  below_refl kind (h.nodes 0).count,
                  worse→below kind (h.nodes 0).count c better,
                ))
                0 some_node)

        old_count : (d : ℕ) → candidate (h.nodes 0).seg_off ≡ some d → (h.nodes 0).count ≡ d
        old_count d f = has_count→≡ (candidate (h.nodes 0).seg_off) (h.nodes 0).count d old_top f

        passed_replaced :
            (j d : ℕ)
            → j < i + 1
            → candidate j ≡ some d
            → (copies (adjust_down kind over) j ≡ 1)
              ⊎ ((h.cur_num ≡ h.k) × Within kind ((adjust_down kind over).nodes 0).count d)
        unfolding adjust_down
        passed_replaced j d less f = elim (Bool-cases (i == j)) [
          | inl same ↦ inl (
              ground (
                arith,
                tally_replaced (of_segment j),
                s.later j,
                count_pos (of_segment j) h.nodes h.cur_num 0 some_node,
              ))
          | inr other ↦ elim (s.passed j d (ground arith) f) [
            | inl one ↦ elim (Bool-cases (of_segment j (h.nodes 0))) [
              | inl lost ↦ inr (
                full,
                Within-eq kind ((adjust_down kind over).nodes 0).count (h.nodes 0).count d
                    new_top-Within
                    (old_count d (ap candidate (==→≡ (h.nodes 0).seg_off j lost) ∙ f)),
              )
              | inr stays ↦ inl (ground (arith, tally_replaced (of_segment j)))
            ]
            | inr (e, w) ↦ inr (
              full,
              Within-trans kind ((adjust_down kind over).nodes 0).count (h.nodes 0).count d
                  new_top-Within w,
            )
          ]
        ]

        Selected-replaced : Selected kind candidate (i + 1) (adjust_down kind over)
        unfolding adjust_down
        Selected-replaced = record {
          ordered =
              adjust_down-IsHeap kind over some_node (λ d pos less. ground (arith, s.ordered d));
          size = s.size;
          members =
              ground
                (arith, tally_replaced (is_candidate candidate), s.members, found_node, old_top);
          once = λ j. ground (arith, tally_replaced (of_segment j), s.once j, s.later j);
          later = λ j le. ground (arith, tally_replaced (of_segment j), s.later j);
          passed = λ j d less f. passed_replaced j d less f;
        }

      -- The top is no worse than the count, and stays.
      Selected-kept : below kind (h.nodes 0).count c ≡ true → Selected kind candidate (i + 1) h
      Selected-kept good = record {
        ordered = s.ordered;
        size = s.size;
        members = s.members;
        once = s.once;
        later = λ j le. s.later j (omega arith);
        passed = λ j d less f. elim (Bool-cases (i == j)) [
          | inl same ↦ inr (
            full,
            Within-eq kind (h.nodes 0).count c d (below→Within kind (h.nodes 0).count c good)
                (some-inj c d (sym found ∙ ap candidate (==→≡ i j same) ∙ f)),
          )
          | inr other ↦ s.passed j d (ground arith) f
        ];
      }

  pub Selected-place :
      (o : Option ℕ)
      → candidate i ≡ o
      → h.cur_num < h.k
      → Selected kind candidate (i + 1) (place kind o i h)
  Selected-place none e room = Selected-next e
  Selected-place (some c) e room = Selected-insert_heap c e room

  pub Selected-replace :
      (o : Option ℕ)
      → candidate i ≡ o
      → h.cur_num ≡ h.k
      → 0 < h.k
      → Selected kind candidate (i + 1) (replace kind o i h)
  Selected-replace none e full some_room = Selected-next e
  Selected-replace (some c) e full some_room =
      rw (heap_top-count kind h (omega arith)) (elim (Bool-cases (below kind (h.nodes 0).count c)) [
        | inl good ↦ rw good (Selected-kept c e full (omega arith) good)
        | inr better ↦ rw better (Selected-replaced c e full (omega arith) better)
      ])
