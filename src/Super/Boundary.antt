-- ===== src/Super/Boundary.antt =====
-- What `sanity_check_area_boundary` guarantees of the areas.
use hoit_f2fs.Base.{
  ℕ, ◌+◌, ◌*◌, ◌%◌, ◌^◌, ◌<◌, ◌≡◌, ◌∙◌, ap, Bool, false, ltb, arith, inl, inr, Bool-cases,
}
use hoit_f2fs.Super.{
  RawSuper, Mount, area_end, aligned_count, fix_alignment, sanity_check_area_boundary,
}

-- The segments of all areas.
abbrev pub area_segments : RawSuper → ℕ
area_segments r =
    r.segment_count_ckpt + r.segment_count_sit + r.segment_count_nat + r.segment_count_ssa
    + r.segment_count_main

-- Segments of 512 blocks, and areas whose blocks have addresses of 32 bits.
pub record Fits (r : RawSuper) : Type 0 where
  pub log : r.log_blocks_per_seg ≡ 9
  pub addresses : r.segment0_blkaddr + area_segments r * 512 < 2 ^ 32
  pub segments : r.segment_count * 512 < 2 ^ 32

-- Each area begins where the one before ends, and the segments are those of the areas.
pub record IsLaidOut (r : RawSuper) : Type 0 where
  pub cp : r.cp_blkaddr ≡ r.segment0_blkaddr
  pub sit : r.sit_blkaddr ≡ r.cp_blkaddr + r.segment_count_ckpt * 512
  pub nat : r.nat_blkaddr ≡ r.sit_blkaddr + r.segment_count_sit * 512
  pub ssa : r.ssa_blkaddr ≡ r.nat_blkaddr + r.segment_count_nat * 512
  pub main : r.main_blkaddr ≡ r.ssa_blkaddr + r.segment_count_ssa * 512
  pub count : r.segment_count ≡ area_segments r

area_end-exact :
    (start count log : ℕ)
    → log ≡ 9
    → start + count * 512 < 2 ^ 32
    → area_end start count log ≡ start + count * 512
unfolding area_end
area_end-exact start count log e small = ap (λ k. area_end start count k) e ∙ omega arith

area_end-wraps :
    (start count log : ℕ) → log ≡ 9 → area_end start count log ≡ (start + count * 512) % 2 ^ 32
unfolding area_end
area_end-wraps start count log e = ap (λ k. area_end start count k) e ∙ omega arith

module _ (r : RawSuper) (f : Fits r) where
  abbrev log : ℕ
  log = r.log_blocks_per_seg

  -- The ends of the areas that a super block of this kind has, without a wrap.
  pub record HasAreas : Type 0 where
    pub cp : r.segment0_blkaddr ≡ r.cp_blkaddr
    pub sit : area_end r.cp_blkaddr r.segment_count_ckpt log ≡ r.sit_blkaddr
    pub nat : area_end r.sit_blkaddr r.segment_count_sit log ≡ r.nat_blkaddr
    pub ssa : area_end r.nat_blkaddr r.segment_count_nat log ≡ r.ssa_blkaddr
    pub main : area_end r.ssa_blkaddr r.segment_count_ssa log ≡ r.main_blkaddr

  record HasEnds : Type 0 where
    pub sit : r.sit_blkaddr ≡ r.segment0_blkaddr + r.segment_count_ckpt * 512
    pub nat : r.nat_blkaddr ≡ r.sit_blkaddr + r.segment_count_sit * 512
    pub ssa : r.ssa_blkaddr ≡ r.nat_blkaddr + r.segment_count_nat * 512
    pub main : r.main_blkaddr ≡ r.ssa_blkaddr + r.segment_count_ssa * 512
    pub end :
        area_end r.main_blkaddr r.segment_count_main log
        ≡ r.segment0_blkaddr + area_segments r * 512

  HasAreas-ends : HasAreas → HasEnds
  HasAreas-ends a =
      let sit : r.sit_blkaddr ≡ r.segment0_blkaddr + r.segment_count_ckpt * 512 = omega (
        arith,
        f,
        a.cp,
        a.sit,
        area_end-exact r.cp_blkaddr r.segment_count_ckpt log f.log
            (omega (arith, f.addresses, a.cp)),
      ) in
      let nat : r.nat_blkaddr ≡ r.sit_blkaddr + r.segment_count_sit * 512 = omega (
        arith,
        a.nat,
        area_end-exact r.sit_blkaddr r.segment_count_sit log f.log (omega (arith, f.addresses)),
      ) in
      let ssa : r.ssa_blkaddr ≡ r.nat_blkaddr + r.segment_count_nat * 512 = omega (
        arith,
        a.ssa,
        area_end-exact r.nat_blkaddr r.segment_count_nat log f.log (omega (arith, f.addresses)),
      ) in
      let main : r.main_blkaddr ≡ r.ssa_blkaddr + r.segment_count_ssa * 512 = omega (
        arith,
        a.main,
        area_end-exact r.ssa_blkaddr r.segment_count_ssa log f.log (omega (arith, f.addresses)),
      ) in
      record {
        sit = sit;
        nat = nat;
        ssa = ssa;
        main = main;
        end =
            area_end-exact r.main_blkaddr r.segment_count_main log f.log
              (omega (arith, f.addresses))
            ∙ omega arith;
      }

  -- The corrected number of segments.
  aligned :
      HasEnds
      → aligned_count (area_end r.main_blkaddr r.segment_count_main log) r.segment0_blkaddr log
        ≡ area_segments r
  unfolding aligned_count
  aligned e =
      ap (λ k. aligned_count k r.segment0_blkaddr log) e.end
      ∙ ap (λ k. aligned_count (r.segment0_blkaddr + area_segments r * 512) r.segment0_blkaddr k)
          f.log
      ∙ omega (arith, f.addresses)

  -- An end of the segments that is that of the main area.
  same_end :
      HasEnds
      → area_end r.main_blkaddr r.segment_count_main log
        ≡ area_end r.segment0_blkaddr r.segment_count log
      → r.segment_count ≡ area_segments r
  same_end e same = omega (
    arith,
    e.end,
    f.addresses,
    f.segments,
    area_end-wraps r.segment0_blkaddr r.segment_count log f.log,
  )

module _ (commit_fails : RawSuper → Bool) (readonly : Bool) (m : Mount) (f : Fits m.raw_super) where
  abbrev r : RawSuper
  r = m.raw_super

  abbrev r' : RawSuper
  r' = record r { segment_count = area_segments r }

  laid_out : HasEnds r f → m.raw_super.segment0_blkaddr ≡ r.cp_blkaddr → IsLaidOut r'
  laid_out e cp = record {
    cp = omega arith;
    sit = omega (arith, e.sit);
    nat = omega (arith, e.nat);
    ssa = omega (arith, e.ssa);
    main = omega (arith, e.main);
    count = omega arith;
  }

  -- A super block that passes the test of the ends.
  pub passes-HasAreas :
      (m' : Mount) → sanity_check_area_boundary commit_fails readonly m ≡ (false, m') → HasAreas r f
  unfolding sanity_check_area_boundary
  passes-HasAreas m' h = record {
    cp = ground (arith, h);
    sit = ground (arith, h);
    nat = ground (arith, h);
    ssa = ground (arith, h);
    main = ground (arith, h);
  }

  -- The case of the same ends, and the case of more segments than areas.
  outcome :
      HasEnds r f
      → (m' : Mount) → sanity_check_area_boundary commit_fails readonly m ≡ (false, m')
      → m'.raw_super ≡ r'
  unfolding sanity_check_area_boundary fix_alignment
  outcome e m' h =
      let fixed = aligned r f e in
      let same = same_end r f e in
      elim (Bool-cases (
        ltb (area_end r.main_blkaddr r.segment_count_main r.log_blocks_per_seg)
          (area_end r.segment0_blkaddr r.segment_count r.log_blocks_per_seg))) [
            | inl less ↦ ground (arith, h, fixed)
            | inr more ↦ ground (arith, h, same)
          ]

  -- Where the areas fit in 32 bits, a super block that `sanity_check_area_boundary` accepts has each
  -- area begin where the one before ends, and afterwards its number of segments is that of the areas.
  -- Nothing else of it changes.
  pub sanity_check_area_boundary-IsLaidOut :
      (m' : Mount)
      → sanity_check_area_boundary commit_fails readonly m ≡ (false, m')
      → (m'.raw_super ≡ r') × IsLaidOut r'
  sanity_check_area_boundary-IsLaidOut m' h =
      let a = passes-HasAreas m' h in
      let e = HasAreas-ends r f a in (outcome e m' h, laid_out e a.cp)

  -- A super block with its areas laid out passes, and stays as it is.
  pub sanity_check_area_boundary_accepts :
      IsLaidOut r → sanity_check_area_boundary commit_fails readonly m ≡ (false, m)
  unfolding sanity_check_area_boundary
  sanity_check_area_boundary_accepts k =
      let log = r.log_blocks_per_seg in
      let sit =
        area_end-exact r.cp_blkaddr r.segment_count_ckpt log f.log
          (omega (arith, k.cp, f.addresses)) in
      let nat =
        area_end-exact r.sit_blkaddr r.segment_count_sit log f.log
          (omega (arith, k.cp, k.sit, f.addresses)) in
      let ssa =
        area_end-exact r.nat_blkaddr r.segment_count_nat log f.log
          (omega (arith, k.cp, k.sit, k.nat, f.addresses)) in
      let main =
        area_end-exact r.ssa_blkaddr r.segment_count_ssa log f.log
          (omega (arith, k.cp, k.sit, k.nat, k.ssa, f.addresses)) in
      let end =
        area_end-exact r.main_blkaddr r.segment_count_main log f.log
          (omega (arith, k.cp, k.sit, k.nat, k.ssa, k.main, f.addresses)) in
      let all =
        area_end-exact r.segment0_blkaddr r.segment_count log f.log
          (omega (arith, k.count, f.addresses)) in
      ground (arith, k, sit, nat, ssa, main, end, all)
