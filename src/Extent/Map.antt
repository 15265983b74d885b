-- ===== src/Extent/Map.antt =====
-- What the cache stands for: the blocks of the pages of a file.
use hoit_f2fs.Base.{
  ℕ, ◌+◌, ◌-◌, ◌<◌, ◌≤◌, ◌≡◌, ◌&&◌, false, Option, none, some, List, [], ◌∷◌, ltb, leb, ◌==◌,
  if◌then◌else◌, arith, ◌⊎◌, inl, inr, Bool-cases,
}
use hoit_f2fs.Base.Words.{u32_mod}
use hoit_f2fs.Extent.{Extent, ExtentTree, try_update_largest_extent}

-- The block of each page that has one.
abbrev pub PageMap : Type 0
PageMap = ℕ → Option ℕ

-- The extent lies in 32 bits, and each page of it on the block that the file has there.
pub record Agrees (m : PageMap) (e : Extent) : Type 0 where
  pub pages_fit : e.fofs + e.len < u32_mod
  pub blocks_fit : e.blk + e.len < u32_mod
  pub same : (p : ℕ) → e.fofs ≤ p → p < e.fofs + e.len → m p ≡ some (e.blk + (p - e.fofs))

-- In order from a page on, none empty, each right.
pub data Chain (m : PageMap) : ℕ → List Extent → Type 0 where
  nil : {lo : ℕ} → Chain m lo []
  link :
      {lo : ℕ} {e : Extent} {es : List Extent}
      → lo ≤ e.fofs
      → 0 < e.len
      → Agrees m e
      → Chain m (e.fofs + e.len) es
      → Chain m lo (e ∷ es)

-- The same from the last one on, before a page.
pub data ChainDown (m : PageMap) : ℕ → List Extent → Type 0 where
  nil : {hi : ℕ} → ChainDown m hi []
  link :
      {hi : ℕ} {e : Extent} {es : List Extent}
      → e.fofs + e.len ≤ hi
      → 0 < e.len
      → Agrees m e
      → ChainDown m e.fofs es
      → ChainDown m hi (e ∷ es)

-- The cache holds only what the file has, and nothing once it is given up. The largest extent may
-- be empty.
pub record IsSound (m : PageMap) (et : ExtentTree) : Type 0 where
  pub chain : Chain m 0 et.extents
  pub largest : Agrees m et.largest
  pub off : (et.no_extent ≡ false) ⊎ ((et.extents ≡ []) × (et.largest.len ≡ 0))

-- The file with `len` pages from `fofs` on moved to consecutive blocks, or to none.
abbrev pub written : PageMap → ℕ → ℕ → ℕ → PageMap
written m fofs blkaddr len p =
    if leb fofs p && ltb p (fofs + len)
    then (if blkaddr == 0 then none else some (blkaddr + (p - fofs)))
    else m p

-- An extent off the range stays right.
pub Agrees-written :
    (m : PageMap) (fofs blkaddr len : ℕ) (e : Extent)
    → (e.fofs + e.len ≤ fofs) ⊎ (fofs + len ≤ e.fofs)
    → Agrees m e
    → Agrees (written m fofs blkaddr len) e
Agrees-written m fofs blkaddr len e off a = record {
  pages_fit = a.pages_fit;
  blocks_fit = a.blocks_fit;
  same = λ p le less. ground (arith, a.same p le less);
}

pub Agrees-try_update_largest_extent :
    (m : PageMap) (e largest : Extent)
    → Agrees m e
    → Agrees m largest
    → Agrees m (try_update_largest_extent e largest)
Agrees-try_update_largest_extent m e largest a b = elim (Bool-cases (ltb largest.len e.len)) [
  | inl longer ↦ rw longer a
  | inr other ↦ rw other b
]

pub Chain-written :
    (m : PageMap) (fofs blkaddr len lo : ℕ) (es : List Extent)
    → fofs + len ≤ lo
    → Chain m lo es
    → Chain (written m fofs blkaddr len) lo es
Chain-written m fofs blkaddr len lo [] le c = nil
Chain-written m fofs blkaddr len lo (e ∷ es) le (link below some_page a c) =
    link below some_page (Agrees-written m fofs blkaddr len e (inr (omega arith)) a)
      (Chain-written m fofs blkaddr len (e.fofs + e.len) es (omega arith) c)

pub ChainDown-weaken :
    (m : PageMap) (hi hi' : ℕ) (es : List Extent)
    → hi ≤ hi'
    → ChainDown m hi es
    → ChainDown m hi' es
ChainDown-weaken m hi hi' [] le c = nil
ChainDown-weaken m hi hi' (e ∷ es) le (link below some_page a c) = link (omega arith) some_page a c

pub Chain-weaken :
    (m : PageMap) (lo lo' : ℕ) (es : List Extent) → lo' ≤ lo → Chain m lo es → Chain m lo' es
Chain-weaken m lo lo' [] le c = nil
Chain-weaken m lo lo' (e ∷ es) le (link below some_page a c) = link (omega arith) some_page a c
