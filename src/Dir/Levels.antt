-- ===== src/Dir/Levels.antt =====
-- The buckets of a directory, and the blocks they take.
use native.Mathlib.Nat as Nat
use hoit_f2fs.Base.{
  ℕ, zero, suc, ◌+◌, ◌*◌, ◌^◌, ◌≤◌, ◌<◌, ◌≡◌, ◌⊎◌, ◌==◌, ap, arith, inl, inr, Bool-cases,
}
use hoit_f2fs.Dir.{dir_buckets, product, bucket_blocks, blocks_before, dir_block_index}

module _ (max_depth max_buckets dir_level : ℕ) where
  abbrev index : ℕ → ℕ → ℕ
  index level idx = dir_block_index max_depth max_buckets level dir_level idx

  abbrev blocks : ℕ → ℕ
  blocks level = bucket_blocks max_depth max_buckets level

  abbrev buckets : ℕ → ℕ
  buckets level = dir_buckets max_depth max_buckets level dir_level

  abbrev before : ℕ → ℕ
  before level = blocks_before max_depth max_buckets level dir_level

  ap_le : (a b : ℕ) → a ≡ b → before a ≤ before b
  ap_le a b e = omega (arith, ap before e)

  before_mono : (level level' : ℕ) → level ≤ level' → before level ≤ before level'
  unfolding blocks_before
  before_mono level zero le = ap_le level zero (omega arith)
  before_mono level (suc level') le = elim (Bool-cases (level == suc level')) [
    | inl same ↦ ap_le level (suc level') (ground arith)
    | inr less ↦ omega (arith, before_mono level level' (ground arith))
  ]

  small_product : (a b : ℕ) → a * b < 2 ^ 32 → product a b ≡ a * b
  unfolding product
  small_product a b small = Nat.mod-eq_of_lt small

  module _ (level : ℕ) (small : buckets level * blocks level < 2 ^ 32) where
    product_le :
        (idx : ℕ)
        → idx < buckets level
        → idx * blocks level + blocks level ≤ buckets level * blocks level
    product_le idx less =
        omega (arith, Nat.mul-le-mul_right {m = suc idx} {n = buckets level} (blocks level) less)

    index-inside :
        (idx : ℕ) → idx < buckets level → index level idx ≡ before level + idx * blocks level
    unfolding dir_block_index
    index-inside idx less =
        let fits = product_le idx less in
        ap (λ n. before level + n) (small_product idx (blocks level) (omega arith))

    -- The next bucket of a level,
    index-next :
        (idx idx' : ℕ)
        → idx < idx'
        → idx' < buckets level
        → index level idx + blocks level ≤ index level idx'
    index-next idx idx' less inside =
        let step = Nat.mul-le-mul_right {m = suc idx} {n = idx'} (blocks level) less in
        let e = index-inside idx (omega arith) in let e' = index-inside idx' inside in omega arith

    -- the end of a level,
    index-end :
        (idx : ℕ) → idx < buckets level → index level idx + blocks level ≤ before (suc level)
    unfolding blocks_before
    index-end idx less =
        let e = index-inside idx less in
        let fits = product_le idx less in
        let whole = small_product (buckets level) (blocks level) small in omega arith

  -- Of a level whose blocks an `unsigned int` counts, the blocks of a bucket, `bucket_blocks` from
  -- `dir_block_index` on, all stand before those of each later bucket of the level and of each bucket of
  -- a later level.
  pub dir_block_index_disjoint :
      (level idx level' idx' : ℕ)
      → buckets level * blocks level < 2 ^ 32
      → idx < buckets level
      → (level < level') ⊎ ((level ≡ level') × (idx < idx') × (idx' < buckets level))
      → index level idx + blocks level ≤ index level' idx'
  unfolding dir_block_index
  dir_block_index_disjoint level idx level' idx' small inside (inl deeper) =
      omega (arith, index-end level small idx inside, before_mono (suc level) level' deeper)
  dir_block_index_disjoint level idx level' idx' small inside (inr (same, next, inside')) =
      let e = ap (λ l. index l idx') same in
      omega (arith, index-next level small idx idx' next inside', e)
