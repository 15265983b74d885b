-- ===== src/Victim/Search/Count.antt =====
-- How many bits of a map stand before a place.
use hoit_f2fs.Base.{
  ℕ, zero, suc, ◌+◌, ◌≤◌, ◌<◌, ◌≡◌, Bool, true, false, ◌==◌, refl, ap, ◌∙◌, arith, inl, inr,
  Bool-cases,
}
use hoit_f2fs.Base.Arrays.{Array, count}
use hoit_f2fs.Segment.Sit.Entry.{is_set}

module _ (map : Array Bool) where
  abbrev pub upto : ℕ → ℕ
  upto n = count is_set map n

  pub upto_none : upto 0 ≡ 0
  unfolding count
  upto_none = refl

  pub upto_next : (n : ℕ) → map n ≡ true → upto (n + 1) ≡ upto n + 1
  unfolding count
  upto_next n set = ap upto {x = n + 1} {y = suc n} (omega arith) ∙ ground arith

  ap_le : (a b : ℕ) → a ≡ b → upto a ≤ upto b
  ap_le a b e = omega (arith, ap upto e)

  pub upto_mono : (a b : ℕ) → a ≤ b → upto a ≤ upto b
  unfolding count
  upto_mono a zero le = ap_le a 0 (omega arith)
  upto_mono a (suc b) le = elim (Bool-cases (a == suc b)) [
    | inl same ↦ ap_le a (suc b) (ground arith)
    | inr less ↦ ground (arith, upto_mono a b)
  ]

  -- No bit between two places of the same count,
  pub none_between : (a b i : ℕ) → upto b ≤ upto a → a ≤ i → i < b → map i ≡ false
  unfolding count
  none_between a zero i e lo hi = absurd (omega arith)
  none_between a (suc b) i e lo hi = elim (Bool-cases (i == b)) [
    | inl last ↦
        let le = upto_mono a b (omega arith) in
        let at : i ≡ b = ground arith in ap (λ k. map k) at ∙ ground (arith, le)
    | inr before ↦ none_between a b i (ground arith) lo (ground arith)
  ]

  -- and the same count where there is none.
  pub same_count : (a b : ℕ) → a ≤ b → ((i : ℕ) → a ≤ i → i < b → map i ≡ false) → upto b ≡ upto a
  unfolding count
  same_count a zero le h = ap upto {x = 0} (omega arith)
  same_count a (suc b) le h = elim (Bool-cases (a == suc b)) [
    | inl same ↦ ap upto {x = suc b} (ground arith)
    | inr less ↦ ground (
      arith,
      same_count a b (ground arith) (λ i lo hi. h i lo (omega arith)),
      h b (ground arith) (omega arith),
    )
  ]
