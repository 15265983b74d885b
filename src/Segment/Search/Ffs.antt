-- ===== src/Segment/Search/Ffs.antt =====
-- `__reverse_ffs` gives the first bit of a word.
use hoit_f2fs.Base.{
  ℕ, zero, suc, ◌+◌, ◌≤◌, ◌<◌, ◌≡◌, ◌∙◌, ap, Bool, true, false, ltb, ◌==◌, arith, inl, inr,
  Bool-cases,
}
use hoit_f2fs.Base.Arrays.{Array}
use hoit_f2fs.Segment.Search.{none_set, halve, reverse_ffs}

module _ (word : Array Bool) where
  pub none_set-false :
      (from n j : ℕ) → none_set word from n ≡ true → from ≤ j → j < from + n → word j ≡ false
  unfolding none_set
  none_set-false from zero j h lo hi = absurd (omega arith)
  none_set-false from (suc n) j h lo hi = elim (Bool-cases (from + n == j)) [
    | inl last ↦ let e : from + n ≡ j = ground arith in ground (arith, ap (λ k. word k) e)
    | inr before ↦ none_set-false from n j (ground arith) lo (ground arith)
  ]

  some_set :
      (from n : ℕ)
      → none_set word from n ≡ false
      → (j : ℕ) × (from ≤ j) × (j < from + n) × (word j ≡ true)
  unfolding none_set
  some_set from zero h = absurd (ground arith)
  some_set from (suc n) h = elim (Bool-cases (word (from + n))) [
    | inl here ↦ (from + n, omega arith, omega arith, here)
    | inr clear ↦
        let (j, lo, hi, hit) = some_set from n (ground (arith, clear)) in (j, lo, omega arith, hit)
  ]

  -- The first bit that is set is one of so many from `num` on.
  record IsAmong (width num : ℕ) : Type 0 where
    clear : (i : ℕ) → i < num → word i ≡ false
    bit : ℕ
    from_on : num ≤ bit
    before : bit < num + width
    hit : word bit ≡ true
    total : num + width ≤ 64

  halve-IsAmong :
      (width num : ℕ) → IsAmong (width + width) num → IsAmong width (halve width word num)
  unfolding halve
  halve-IsAmong width num a = elim (Bool-cases (none_set word num width)) [
    | inl low ↦
        let upper = none_set-false num width a.bit low in
        rw low (record {
          clear = λ i less. elim (Bool-cases (ltb i num)) [
            | inl old ↦ a.clear i (ground arith)
            | inr new ↦ none_set-false num width i low (ground arith) less
          ];
          bit = a.bit;
          from_on = ground (arith, a.from_on, a.hit, upper);
          before = omega (arith, a.before);
          hit = a.hit;
          total = omega (arith, a.total);
        })
    | inr high ↦
        let (j, lo, hi, hit) = some_set num width high in
        rw high (record {
          clear = a.clear;
          bit = j;
          from_on = lo;
          before = hi;
          hit = hit;
          total = omega (arith, a.total);
        })
  ]

  -- `__reverse_ffs` gives the first bit that is set.
  pub reverse_ffs-first :
      none_set word 0 64 ≡ false
      → (reverse_ffs word < 64)
        × (word (reverse_ffs word) ≡ true)
        × ((i : ℕ) → i < reverse_ffs word → word i ≡ false)
  unfolding reverse_ffs
  reverse_ffs-first h =
      let (j, lo, hi, hit) = some_set 0 64 h in
      let a : IsAmong 64 0 = record {
        clear = λ i less. absurd (omega arith);
        bit = j;
        from_on = lo;
        before = hi;
        hit = hit;
        total = omega arith;
      } in
      let a5 = halve-IsAmong 32 0 a in
      let a4 = halve-IsAmong 16 (halve 32 word 0) a5 in
      let a3 = halve-IsAmong 8 _ a4 in
      let a2 = halve-IsAmong 4 _ a3 in
      let a1 = halve-IsAmong 2 _ a2 in
      let a0 = halve-IsAmong 1 _ a1 in
      let e : reverse_ffs word ≡ a0.bit = omega (arith, a0.from_on, a0.before) in
      (omega (arith, a0.total), ap word e ∙ a0.hit, a0.clear)
