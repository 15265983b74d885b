-- ===== src/Segment/Search/Finds.antt =====
-- The search by words finds what a search bit by bit finds.
use native.Mathlib.Nat as Nat
use mathlib.Core.Path.{subst}
use hoit_f2fs.Base.{
  ℕ, zero, suc, ◌+◌, ◌-◌, ◌*◌, ◌/◌, ◌%◌, ◌≤◌, ◌<◌, ◌≡◌, ◌∙◌, ap, sym, ◌⊎◌, Bool, true, false, not,
  ◌&&◌, leb, refl, arith, inl, inr, Bool-cases,
}
use hoit_f2fs.Base.Arrays.{Array}
use hoit_f2fs.Base.BitSearch.{IsSearch}
use hoit_f2fs.Segment.Search.{
  reverse_ulong, none_set, reverse_ffs, masked, search_words, find_rev_next,
}
use hoit_f2fs.Segment.Search.Ffs.{none_set-false, reverse_ffs-first}

le-leb : (m n : ℕ) → m ≤ n → leb m n ≡ true
le-leb m n le = ground arith

end_or_more : (m n : ℕ) → (m ≤ n) ⊎ (n < m)
end_or_more m n = elim (Bool-cases (leb m n)) [
  | inl le ↦ inl (ground arith)
  | inr gt ↦ inr (ground arith)
]

both_set : (a b : Bool) → (not a && not b) ≡ true → b ≡ false
both_set a b h = ground arith

one_is_clear : (a b : Bool) → (not a && not b) ≡ false → (a ≡ true) ⊎ (b ≡ true)
one_is_clear a b h = ground arith

module _ (wanted : Bool) (map : Array Bool) where
  -- What the search for the bits from `from` on may return.
  record IsFirst (result from r : ℕ) : Type 0 where
    within : r ≤ result
    found : r < result → (from ≤ r) × (map r ≡ wanted)
    missed : (i : ℕ) → from ≤ i → i < r → map i ≡ not wanted

  module _ (p size offset : ℕ) where
    abbrev word : Array Bool
    word = reverse_ulong wanted map p

    abbrev tmp : Array Bool
    tmp = masked size offset word

    word_hit : (j : ℕ) → word j ≡ true → map (p * 64 + j) ≡ wanted
    unfolding reverse_ulong
    word_hit j h = ground (arith, h)

    word_miss : (j : ℕ) → word j ≡ false → map (p * 64 + j) ≡ not wanted
    unfolding reverse_ulong
    word_miss j h = ground (arith, h)

    tmp_hit : (j : ℕ) → j < 64 → tmp j ≡ true → (offset ≤ j) × (j < size) × (word j ≡ true)
    unfolding masked
    tmp_hit j less h = ground (arith, h)

    tmp_miss : (j : ℕ) → tmp j ≡ false → offset ≤ j → j < size → word j ≡ false
    unfolding masked
    tmp_miss j h lo hi = ground (arith, h)

    -- A bit of this word.
    at : (i : ℕ) → p * 64 ≤ i → map i ≡ map (p * 64 + (i - p * 64))
    at i lo = ap map (omega arith)

    found-IsFirst :
        none_set tmp 0 64 ≡ false
        → IsFirst (p * 64 + size) (p * 64 + offset) (p * 64 + reverse_ffs tmp)
    found-IsFirst some =
        let (less, hit, before) = reverse_ffs-first tmp some in
        let (lo, hi, there) = tmp_hit (reverse_ffs tmp) less hit in
        record {
          within = omega arith;
          found = λ inside. (omega arith, word_hit (reverse_ffs tmp) there);
          missed = λ i from_on ahead.
              at i (omega arith)
              ∙ word_miss (i - p * 64) (
                  tmp_miss (i - p * 64) (before (i - p * 64) (omega arith)) (omega arith)
                    (omega arith));
        }

    -- Nothing in this word.
    passed :
        (none_set word 0 64 ≡ true) ⊎ (none_set tmp 0 64 ≡ true)
        → (i : ℕ) → p * 64 + offset ≤ i
        → i < p * 64 + 64
        → i < p * 64 + size
        → map i ≡ not wanted
    passed none i lo hi inside =
        at i (omega arith)
        ∙ word_miss (i - p * 64) (elim none [
          | inl raw ↦ none_set-false word 0 64 (i - p * 64) raw (omega arith) (omega arith)
          | inr under ↦
              tmp_miss (i - p * 64)
                (none_set-false tmp 0 64 (i - p * 64) under (omega arith) (omega arith))
                (omega arith) (omega arith)
        ])

  search_words-IsFirst :
      (rounds p size offset : ℕ)
      → offset < 64
      → size < rounds * 64 + 1
      → 0 < rounds
      → IsFirst
          (p * 64 + size)
          (p * 64 + offset)
          (search_words wanted map rounds (p * 64 + size) p size offset)
  unfolding search_words
  search_words-IsFirst zero p size offset small enough more = absurd (omega arith)
  search_words-IsFirst (suc rounds) p size offset small enough more =
      let w = word p size offset in
      let t = tmp p size offset in
      elim (Bool-cases (not (none_set w 0 64) && not (none_set t 0 64))) [
        | inl hit ↦
            let place : p * 64 + size - size + reverse_ffs t ≡ p * 64 + reverse_ffs t =
              omega arith in
            rw hit (
              rw place
                (found-IsFirst p size offset (both_set (none_set w 0 64) (none_set t 0 64) hit)))
        | inr pass ↦
            let none : (none_set w 0 64 ≡ true) ⊎ (none_set t 0 64 ≡ true) =
              one_is_clear (none_set w 0 64) (none_set t 0 64) pass in
            elim (Bool-cases (leb size 64)) [
              | inl last ↦ rw pass (
                  rw last (record {
                    within = omega arith;
                    found = λ less. absurd (omega arith);
                    missed = λ i lo hi. passed p size offset none i lo (ground arith) hi;
                  }))
              | inr further ↦
                  let e : p * 64 + size ≡ (p + 1) * 64 + (size - 64) = ground arith in
                  let ih =
                    search_words-IsFirst rounds (p + 1) (size - 64) 0 (omega arith) (omega arith)
                      (ground arith) in
                  rw pass (
                    rw further (
                      rw e (record {
                        within = ih.within;
                        found = λ less. let (lo, hit) = ih.found less in (omega arith, hit);
                        missed = λ i lo hi. elim (end_or_more (p * 64 + 64) i) [
                          | inr here ↦
                              passed p size offset none i lo here (omega (arith, ih.within))
                          | inl later ↦ ih.missed i (omega arith) hi
                        ];
                      })))
            ]
      ]

module _ (wanted : Bool) (map : Array Bool) (size offset : ℕ) where
  over_the_end : size ≤ offset → find_rev_next wanted map size offset ≡ size
  unfolding find_rev_next
  over_the_end over = let stop : leb size offset ≡ true = le-leb size offset over in rw stop refl

  find_rev_next-IsFirst :
      offset < size → IsFirst wanted map size offset (find_rev_next wanted map size offset)
  unfolding find_rev_next
  find_rev_next-IsFirst inside =
      let p = offset / 64 in
      let split = Nat.div-add-mod offset 64 in
      let whole : size ≡ p * 64 + (size - p * 64) = omega (arith, split) in
      let start : offset ≡ p * 64 + offset % 64 = omega (arith, split) in
      let go : leb size offset ≡ false = ground arith in
      let rounds : size - p * 64 < (size / 64 + 1) * 64 + 1 =
        omega (arith, Nat.div-add-mod size 64, Nat.mod-lt size {m = 64} (omega arith)) in
      let f =
        search_words-IsFirst wanted map (size / 64 + 1) p (size - p * 64) (offset % 64)
          (Nat.mod-lt offset {m = 64} (omega arith)) rounds (omega arith) in
      let g : IsFirst wanted map size (p * 64 + offset % 64)
          (search_words wanted map (size / 64 + 1) size p (size - p * 64) (offset % 64)) =
        subst
          (λ n.
            IsFirst wanted map n (p * 64 + offset % 64)
              (search_words wanted map (size / 64 + 1) n p (size - p * 64) (offset % 64)))
          (sym whole) f in
      rw go (record {
        within = g.within;
        found = λ less. let (lo, hit) = g.found less in (omega (arith, start), hit);
        missed = λ i lo hi. g.missed i (omega (arith, start)) hi;
      })

-- For any map, size and offset, `__find_rev_next_bit` and `__find_rev_next_zero_bit` return the first
-- index from the offset on whose bit is the one wanted, or the size where there is none below it.
pub find_rev_next-IsSearch : (wanted : Bool) → IsSearch wanted (find_rev_next wanted)
find_rev_next-IsSearch wanted = record {
  within = λ map size offset. elim (end_or_more size offset) [
    | inl over ↦ omega (arith, over_the_end wanted map size offset over)
    | inr inside ↦ (find_rev_next-IsFirst wanted map size offset inside).within
  ];
  found = λ map size offset less. elim (end_or_more size offset) [
    | inl over ↦ absurd (omega (arith, over_the_end wanted map size offset over))
    | inr inside ↦ (find_rev_next-IsFirst wanted map size offset inside).found less
  ];
  first = λ map size offset i lo hi. elim (end_or_more size offset) [
    | inl over ↦ absurd (omega (arith, over_the_end wanted map size offset over))
    | inr inside ↦ (find_rev_next-IsFirst wanted map size offset inside).missed i lo hi
  ];
}
