-- ===== src/Nvm/TopK/Scan.antt =====
-- The whole scan selects the best candidates.
use hoit_f2fs.Base.{
  ℕ, zero, suc, ◌+◌, ◌≤◌, ◌<◌, ◌≡◌, Bool, true, false, Option, none, some, ◌⊎◌, refl, arith,
  if◌then◌else◌, inl, inr, Bool-cases, leb, sym, ◌∙◌, ◌||◌,
}
use hoit_f2fs.Base.Arrays.{count, count_each}
use hoit_f2fs.Nvm.Heap.{Kind, Heap, insert_heap, adjust_down}
use hoit_f2fs.Nvm.TopK.{place, replace, fill, improve, top_k}
use hoit_f2fs.Nvm.TopK.Selected.{
  Selected, Within, Within-trans, has_count, is_candidate, copies, heap_top-Within,
}
use hoit_f2fs.Nvm.TopK.Step.{Selected-jump, Selected-place, Selected-replace}

-- The nodes of the heap are candidates below `len` with their counts, no segment twice. A candidate that is
-- missing has no better count than any node, and the heap is full.
pub record IsTopK (kind : Kind) (candidate : ℕ → Option ℕ) (len : ℕ) (h : Heap) : Type 0 where
  pub members : (p : ℕ) → p < h.cur_num → candidate (h.nodes p).seg_off ≡ some (h.nodes p).count
  pub inside : (p : ℕ) → p < h.cur_num → (h.nodes p).seg_off < len
  pub once : (j : ℕ) → copies h j ≤ 1
  pub size : h.cur_num ≤ h.k
  pub missing :
      (j c : ℕ)
      → j < len
      → candidate j ≡ some c
      → (copies h j ≡ 1)
        ⊎ ((h.cur_num ≡ h.k) × ((p : ℕ) → p < h.cur_num → Within kind (h.nodes p).count c))

has_count→some : (o : Option ℕ) (c : ℕ) → has_count o c ≡ true → o ≡ some c
has_count→some none c h = ground arith
has_count→some (some d) c h = ground arith

-- The candidates below `len`.
abbrev below_len : (ℕ → Option ℕ) → ℕ → ℕ → Option ℕ
below_len candidate len j = if leb len j then none else candidate j

below_len-some :
    (candidate : ℕ → Option ℕ) (len j c : ℕ)
    → below_len candidate len j ≡ some c
    → (j < len) × (candidate j ≡ some c)
below_len-some candidate len j c e = elim (Bool-cases (leb len j)) [
  | inl beyond ↦ absurd (ground (arith, beyond, e))
  | inr inside ↦ (ground arith, ground (arith, inside, e))
]

below_len-eq :
    (candidate : ℕ → Option ℕ) (len j : ℕ) → j < len → below_len candidate len j ≡ candidate j
below_len-eq candidate len j less = ground arith

Selected-IsTopK :
    (kind : Kind) (candidate : ℕ → Option ℕ) (len i : ℕ) (h : Heap)
    → len ≤ i
    → Selected kind (below_len candidate len) i h
    → IsTopK kind candidate len h
Selected-IsTopK kind candidate len i h le s =
    let member = λ (p : ℕ) (less : p < h.cur_num).
      has_count→some (below_len candidate len (h.nodes p).seg_off) (h.nodes p).count
        (count_each (is_candidate (below_len candidate len)) h.nodes h.cur_num s.members p less) in
    record {
      members = λ p less.
          (below_len-some candidate len (h.nodes p).seg_off (h.nodes p).count (member p less)).1;
      inside = λ p less.
          (below_len-some candidate len (h.nodes p).seg_off (h.nodes p).count (member p less)).0;
      once = s.once;
      size = s.size;
      missing = λ j c less f.
          elim (s.passed j c (omega arith) (below_len-eq candidate len j less ∙ f)) [
            | inl one ↦ inl one
            | inr (full, w) ↦ inr (
              full,
              λ p inside.
                  Within-trans kind (h.nodes p).count (h.nodes 0).count c
                    (heap_top-Within kind h.cur_num h.nodes s.ordered p inside) w,
            )
          ];
    }

Selected-empty :
    (kind : Kind) (candidate : ℕ → Option ℕ) (h : Heap)
    → h.cur_num ≡ 0
    → Selected kind candidate 0 h
unfolding count
Selected-empty kind candidate h e = record {
  ordered = λ c pos less. absurd (omega arith);
  size = omega arith;
  members = rw e refl;
  once = λ j. rw e (omega arith);
  later = λ j le. rw e refl;
  passed = λ j c less f. absurd (omega arith);
}

place-k : (kind : Kind) (o : Option ℕ) (i : ℕ) (h : Heap) → (place kind o i h).k ≡ h.k
unfolding insert_heap
place-k kind none i h = refl
place-k kind (some c) i h = refl

replace-k : (kind : Kind) (o : Option ℕ) (i : ℕ) (h : Heap) → (replace kind o i h).k ≡ h.k
unfolding adjust_down
replace-k kind none i h = refl
replace-k kind (some c) i h = ground arith

replace-cur_num :
    (kind : Kind) (o : Option ℕ) (i : ℕ) (h : Heap) → (replace kind o i h).cur_num ≡ h.cur_num
unfolding adjust_down
replace-cur_num kind none i h = refl
replace-cur_num kind (some c) i h = ground arith

-- The candidates that the scan looks at.
abbrev pub outside : (ℕ → Bool) → (ℕ → Option ℕ) → ℕ → Option ℕ
outside skip candidate j = if skip j then none else candidate j

-- The skipped indices are those up to `right` once one of them is reached.
pub record IsWindow (skip : ℕ → Bool) (right : ℕ) : Type 0 where
  pub last : (i : ℕ) → skip i ≡ true → i ≤ right
  pub whole : (i j : ℕ) → skip i ≡ true → i ≤ j → j ≤ right → skip j ≡ true

module _ (kind : Kind) (candidate : ℕ → Option ℕ) (skip : ℕ → Bool) (right len : ℕ)
    (w : IsWindow skip right) where
  abbrev sought : ℕ → Option ℕ
  sought = below_len (outside skip candidate) len

  abbrev Filled : ℕ × Heap → ℕ → Type 0
  Filled p k = Selected kind sought p.0 p.1 × ((len ≤ p.0) ⊎ (p.1.cur_num ≡ p.1.k)) × (p.1.k ≡ k)

  still_full :
      (i : ℕ) (h : Heap) → (len ≤ i) ⊎ (h.cur_num ≡ h.k) → leb len i ≡ false → h.cur_num ≡ h.k
  still_full i h full go = ground arith

  jump :
      (i : ℕ) (h : Heap)
      → skip i ≡ true
      → Selected kind sought i h
      → Selected kind sought (right + 1) h
  jump i h skipped s =
      Selected-jump kind sought i h s (right + 1) (let l = w.last i skipped in omega arith)
        (λ j le less. ground (arith, w.whole i j skipped le (omega arith)))

  looked : (i : ℕ) → leb len i ≡ false → skip i ≡ false → sought i ≡ candidate i
  looked i inside e = ground (arith, inside, e)

  not_over : (i : ℕ) (h : Heap) → (leb len i || leb h.k h.cur_num) ≡ false → leb len i ≡ false
  not_over i h go = ground arith

  room : (i : ℕ) (h : Heap) → (leb len i || leb h.k h.cur_num) ≡ false → h.cur_num < h.k
  room i h go = ground arith

  ended :
      (i : ℕ) (h : Heap)
      → h.cur_num ≤ h.k
      → (leb len i || leb h.k h.cur_num) ≡ true
      → (len ≤ i) ⊎ (h.cur_num ≡ h.k)
  ended i h size stop = elim (Bool-cases (leb len i)) [
    | inl over ↦ inl (ground arith)
    | inr inside ↦ inr (ground arith)
  ]

  fill-Filled :
      (rounds i : ℕ) (h : Heap) (k : ℕ)
      → len ≤ i + rounds
      → h.k ≡ k
      → Selected kind sought i h
      → Filled (fill kind candidate skip right len rounds i h) k
  unfolding fill
  fill-Filled zero i h k enough e s = (s, inl (omega arith), e)
  fill-Filled (suc rounds) i h k enough e s = elim (Bool-cases (leb len i || leb h.k h.cur_num)) [
    | inl stop ↦ rw stop (s, ended i h s.size stop, e)
    | inr go ↦ rw go (elim (Bool-cases (skip i)) [
      | inl skipped ↦
          let l = w.last i skipped in
          rw skipped (fill-Filled rounds (right + 1) h k (omega arith) e (jump i h skipped s))
      | inr looked_at ↦ rw looked_at (
          fill-Filled rounds (i + 1) (place kind (candidate i) i h) k (omega arith)
            (place-k kind (candidate i) i h ∙ e)
            (Selected-place kind sought i h s (candidate i) (looked i (not_over i h go) looked_at)
              (room i h go)))
    ])
  ]

  improve-IsTopK :
      (rounds i : ℕ) (h : Heap) (k : ℕ)
      → len ≤ i + rounds
      → h.k ≡ k
      → 0 < k
      → (len ≤ i) ⊎ (h.cur_num ≡ h.k)
      → Selected kind sought i h
      → IsTopK kind (outside skip candidate) len (improve kind candidate skip right len rounds i h)
        × ((improve kind candidate skip right len rounds i h).k ≡ k)
  unfolding improve
  improve-IsTopK zero i h k enough e some_room full s =
      (Selected-IsTopK kind (outside skip candidate) len i h (omega arith) s, e)
  improve-IsTopK (suc rounds) i h k enough e some_room full s = elim (Bool-cases (leb len i)) [
    | inl stop ↦ rw stop (Selected-IsTopK kind (outside skip candidate) len i h (ground arith) s, e)
    | inr go ↦ rw go (elim (Bool-cases (skip i)) [
      | inl skipped ↦
          let l = w.last i skipped in
          rw skipped (
            improve-IsTopK rounds (right + 1) h k (omega arith) e some_room
              (inr (still_full i h full go)) (jump i h skipped s))
      | inr looked_at ↦ rw looked_at (
          improve-IsTopK rounds (i + 1) (replace kind (candidate i) i h) k (omega arith)
            (replace-k kind (candidate i) i h ∙ e) some_room
            (inr (
              replace-cur_num kind (candidate i) i h
              ∙ still_full i h full go
              ∙ sym (replace-k kind (candidate i) i h)))
            (Selected-replace kind sought i h s (candidate i) (looked i go looked_at)
              (still_full i h full go) (omega arith)))
    ])
  ]

-- Where the scan starts with an empty heap for at least one node, it selects the best candidates
-- outside the skipped indices, and keeps the number of nodes wanted.
pub top_k-IsTopK :
    (kind : Kind) (candidate : ℕ → Option ℕ) (skip : ℕ → Bool) (right len : ℕ) (h : Heap)
    → IsWindow skip right
    → h.cur_num ≡ 0
    → 0 < h.k
    → IsTopK kind (outside skip candidate) len (top_k kind candidate skip right len h)
      × ((top_k kind candidate skip right len h).k ≡ h.k)
unfolding top_k
top_k-IsTopK kind candidate skip right len h w fresh some_room =
    let (s, full, e) =
      fill-Filled kind candidate skip right len w len 0 h h.k (omega arith) refl
        (Selected-empty kind (below_len (outside skip candidate) len) h fresh) in
    improve-IsTopK kind candidate skip right len w len
      (fill kind candidate skip right len len 0 h).0 (fill kind candidate skip right len len 0 h).1
      h.k (omega arith) e some_room full s
