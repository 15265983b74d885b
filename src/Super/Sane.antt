-- ===== src/Super/Sane.antt =====
-- What `sanity_check_raw_super` guarantees of a super block.
use hoit_f2fs.Base.{◌+◌, ◌-◌, ◌*◌, ◌/◌, ◌^◌, ◌≤◌, ◌<◌, ◌≡◌, ap, Bool, false, arith}
use native.Mathlib.Nat as Nat
use hoit_f2fs.Super.{
  RawSuper, Mount, Limits, wrong_sizes, wrong_counts, wrong_contents, sanity_check_area_boundary,
  sanity_check_raw_super,
}
use hoit_f2fs.Super.Boundary.{area_segments, Fits, IsLaidOut, sanity_check_area_boundary-IsLaidOut}

-- The numbers of a super block that was read.
pub record HasNumbers (l : Limits) (r : RawSuper) : Type 0 where
  pub log : r.log_blocks_per_seg ≡ 9
  pub some_segs : 0 < r.segs_per_sec
  pub sections : r.section_count * r.segs_per_sec ≤ r.segment_count
  pub zones : r.secs_per_zone ≤ r.section_count
  pub blocks : r.segment_count * 512 ≤ r.block_count
  pub extensions : r.extension_count + r.hot_ext_count ≤ l.max_extension
  pub payload : r.cp_payload ≤ 512 - l.cp_packs
  pub inodes : (r.node_ino ≡ 1) × (r.meta_ino ≡ 2) × (r.root_ino ≡ 3)

module _ (l : Limits) (r : RawSuper) where
  log_is : wrong_sizes l r ≡ false → r.log_blocks_per_seg ≡ 9
  unfolding wrong_sizes
  log_is h = ground (arith, h)

  segs_some : wrong_counts l r ≡ false → 0 < r.segs_per_sec
  unfolding wrong_counts
  segs_some h = ground (arith, h)

  sections_fit : wrong_counts l r ≡ false → r.section_count ≤ r.segment_count / r.segs_per_sec
  unfolding wrong_counts
  sections_fit h = ground (arith, h)

  zones_fit : wrong_counts l r ≡ false → r.secs_per_zone ≤ r.section_count
  unfolding wrong_counts
  zones_fit h = ground (arith, h)

  blocks_fit : wrong_counts l r ≡ false → r.segment_count * 512 ≤ r.block_count
  unfolding wrong_counts
  blocks_fit h = ground (arith, h)

  extensions_fit :
      l.max_extension < 2 ^ 31
      → wrong_contents l r ≡ false
      → r.extension_count + r.hot_ext_count ≤ l.max_extension
  unfolding wrong_contents
  extensions_fit small h = ground (arith, h)

  payload_fits :
      r.log_blocks_per_seg ≡ 9 → wrong_contents l r ≡ false → r.cp_payload ≤ 512 - l.cp_packs
  unfolding wrong_contents
  payload_fits log h = let e = ap (λ k. 2 ^ k - l.cp_packs) log in ground (arith, h, e)

  inodes_are : wrong_contents l r ≡ false → (r.node_ino ≡ 1) × (r.meta_ino ≡ 2) × (r.root_ino ≡ 3)
  unfolding wrong_contents
  inodes_are h = (ground (arith, h), ground (arith, h), ground (arith, h))

  sections_product :
      0 < r.segs_per_sec
      → r.section_count ≤ r.segment_count / r.segs_per_sec
      → r.section_count * r.segs_per_sec ≤ r.segment_count
  sections_product some h = omega (
    arith,
    Nat.mul-le-mul_right {m = r.section_count} {n = r.segment_count / r.segs_per_sec} r.segs_per_sec
        h,
  )

module _ (l : Limits) (small : l.max_extension < 2 ^ 31) (commit_fails : RawSuper → Bool)
    (readonly : Bool) (m m' : Mount) (count : m.raw_super.block_count < 2 ^ 32)
    (areas : m.raw_super.segment0_blkaddr + area_segments m.raw_super * 512 < 2 ^ 32)
    (accepted : sanity_check_raw_super l commit_fails readonly m ≡ (false, m')) where
  abbrev r : RawSuper
  r = m.raw_super

  right_sizes : wrong_sizes l r ≡ false
  unfolding sanity_check_raw_super
  right_sizes = ground (arith, accepted)

  right_counts : wrong_counts l r ≡ false
  unfolding sanity_check_raw_super
  right_counts = ground (arith, accepted)

  right_contents : wrong_contents l r ≡ false
  unfolding sanity_check_raw_super
  right_contents = ground (arith, accepted)

  right_boundary : sanity_check_area_boundary commit_fails readonly m ≡ (false, m')
  unfolding sanity_check_raw_super
  right_boundary = ground (arith, accepted)

  numbers : HasNumbers l r
  numbers =
      let log = log_is l r right_sizes in
      let some = segs_some l r right_counts in
      record {
        log = log;
        some_segs = some;
        sections = sections_product l r some (sections_fit l r right_counts);
        zones = zones_fit l r right_counts;
        blocks = blocks_fit l r right_counts;
        extensions = extensions_fit l r small right_contents;
        payload = payload_fits l r log right_contents;
        inodes = inodes_are l r right_contents;
      }

  -- Where the block count has 32 bits and so have the addresses of the areas, a super block that
  -- `sanity_check_raw_super` accepts has segments of 512 blocks that the device can hold, sections
  -- of at least one segment each and no more of them than the segments make, an extension list and a
  -- payload within their limits, and the three inodes of the file system. Each area begins where the
  -- one before ends, and afterwards the number of segments is that of the areas.
  pub sanity_check_raw_super-HasNumbers :
      HasNumbers l r
      × (m'.raw_super ≡ record r { segment_count = area_segments r })
      × IsLaidOut (record r { segment_count = area_segments r })
  sanity_check_raw_super-HasNumbers =
      let k = numbers in
      let f : Fits r = record {
        log = k.log;
        addresses = areas;
        segments = omega (arith, k.blocks, count);
      } in
      let (e, laid) =
        sanity_check_area_boundary-IsLaidOut commit_fails readonly m f m' right_boundary in
      (k, e, laid)
