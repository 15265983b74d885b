-- ===== src/Dir/Empty/Tells.antt =====
-- What the answer of `f2fs_empty_dir` tells of the blocks.
use mathlib.Core.Path.{subst}
use hoit_f2fs.Base.{
  ℕ, zero, suc, ◌+◌, ◌≤◌, ◌<◌, ◌≡◌, ◌⊎◌, ltb, ◌==◌, Bool, true, false, Option, none, some, refl,
  arith, inl, inr, Bool-cases,
}
use hoit_f2fs.Base.Arrays.{Array}
use hoit_f2fs.Base.BitSearch.{BitSearch}
use hoit_f2fs.Dir.Empty.{
  BlockRead, page, enoent, other_error, first_bit, goes_on, empty_from, Directory, inline_dentries,
  blocks, empty_inline_dir, empty_dir,
}

module _ (b : BitSearch) (nr : ℕ) where
  -- A block without a dentry that counts.
  pub IsClear : BlockRead → ℕ → Type 0
  IsClear (page bitmap) bidx = (i : ℕ) → first_bit bidx ≤ i → i < nr → bitmap i ≡ false
  IsClear enoent bidx = Unit
  IsClear other_error bidx = ⊥

  -- A block with such a dentry, or one that cannot be read.
  pub IsInTheWay : BlockRead → ℕ → Type 0
  IsInTheWay (page bitmap) bidx = (i : ℕ) × (first_bit bidx ≤ i) × (i < nr) × (bitmap i ≡ true)
  IsInTheWay enoent bidx = ⊥
  IsInTheWay other_error bidx = Unit

  goes_on-tells :
      (r : BlockRead) (bidx : ℕ)
      → ((goes_on b nr r bidx ≡ true) × IsClear r bidx)
        ⊎ ((goes_on b nr r bidx ≡ false) × IsInTheWay r bidx)
  unfolding goes_on IsClear IsInTheWay
  goes_on-tells (page bitmap) bidx =
      let stop = b.find_next_bit bitmap nr (first_bit bidx) in
      elim (Bool-cases (ltb stop nr)) [
        | inl found ↦
            let (from, set) = b.next_bit.found bitmap nr (first_bit bidx) (ground arith) in
            inr (rw found refl, (stop, from, ground arith, set))
        | inr none_left ↦ inl (
          rw none_left refl,
          λ i lo hi. b.next_bit.first bitmap nr (first_bit bidx) i lo (ground arith),
        )
      ]
  goes_on-tells enoent bidx = inl (refl, tt)
  goes_on-tells other_error bidx = inr (refl, tt)

  module _ (read : Array BlockRead) where
    pub Tells : ℕ → ℕ → Bool → Type 0
    Tells left bidx answer =
        ((answer ≡ true) × ((k : ℕ) → bidx ≤ k → k < bidx + left → IsClear (read k) k))
        ⊎ ((answer ≡ false) × (k : ℕ) × (bidx ≤ k) × (k < bidx + left) × IsInTheWay (read k) k)

    empty_from-Tells : (left bidx : ℕ) → Tells left bidx (empty_from b nr read left bidx)
    unfolding Tells empty_from
    empty_from-Tells zero bidx = inl (refl, λ k lo hi. absurd (omega arith))
    empty_from-Tells (suc left) bidx = elim (goes_on-tells (read bidx) bidx) [
      | inr (stops, way) ↦ inr (rw stops refl, bidx, omega arith, omega arith, way)
      | inl (on, clear) ↦ elim (empty_from-Tells left (bidx + 1)) [
        | inl (answer, rest) ↦ inl (
          rw on answer,
          λ k lo hi. elim (Bool-cases (bidx == k)) [
            | inl same ↦ subst (λ n. IsClear (read n) n) (ground arith) clear
            | inr later ↦ rest k (ground arith) (ground arith)
          ],
        )
        | inr (answer, k, lo, hi, way) ↦ inr (rw on answer, k, omega arith, omega arith, way)
      ]
    ]

  -- The same for inline dentries.
  pub InlineTells : ℕ → Option (Array Bool) → Bool → Type 0
  InlineTells max none answer = answer ≡ false
  InlineTells max (some bitmap) answer =
      ((answer ≡ true) × ((i : ℕ) → 2 ≤ i → i < max → bitmap i ≡ false))
      ⊎ ((answer ≡ false) × (i : ℕ) × (2 ≤ i) × (i < max) × (bitmap i ≡ true))

  empty_inline_dir-InlineTells :
      (max : ℕ) (read : Option (Array Bool)) → InlineTells max read (empty_inline_dir b nr max read)
  unfolding InlineTells empty_inline_dir
  empty_inline_dir-InlineTells max none = refl
  empty_inline_dir-InlineTells max (some bitmap) =
      elim (Bool-cases (ltb (b.find_next_bit bitmap max 2) max)) [
        | inl found ↦
            let (from, set) = b.next_bit.found bitmap max 2 (ground arith) in
            inr (rw found refl, b.find_next_bit bitmap max 2, from, ground arith, set)
        | inr none_left ↦
            inl (rw none_left refl, λ i lo hi. b.next_bit.first bitmap max 2 i lo (ground arith))
      ]

  pub DirTells : Directory → Bool → Type 0
  DirTells (inline_dentries max read) answer = InlineTells max read answer
  DirTells (blocks read nblock) answer = Tells read nblock 0 answer

  -- `f2fs_empty_dir` is true where each block of the directory is a hole or has no dentry but the dot
  -- entries, and false where a block has a further dentry or cannot be read. For a directory with
  -- inline dentries, it is true where these are read and none is there but the dot entries, and
  -- false else.
  pub empty_dir-Tells : (dir : Directory) → DirTells dir (empty_dir b nr dir)
  unfolding DirTells empty_dir
  empty_dir-Tells (inline_dentries max read) = empty_inline_dir-InlineTells max read
  empty_dir-Tells (blocks read nblock) = empty_from-Tells read nblock 0
