-- ===== src/Segment/Prefree/Clears.antt =====
-- `f2fs_clear_prefree_segments` ends. It leaves no prefree segment where it does not skip to whole
-- sections for a discard.
use hoit_f2fs.Base.{
  ℕ, zero, suc, ◌+◌, ◌-◌, ◌≤◌, ◌<◌, ◌≡◌, ◌≢◌, Bool, true, false, not, ◌&&◌, some, leb, ltb, ◌==◌,
  if◌then◌else◌, refl, sym, ap, ◌∙◌, arith, inl, inr, Bool-cases, lt→leb,
}
use hoit_f2fs.Base.Arrays.{Array, update, count, count-update}
use hoit_f2fs.Base.BitSearch.{BitSearch}
use hoit_f2fs.Segment.Sit.Entry.{is_set}
use hoit_f2fs.Segment.Dirty.{pre, DirtySeglist}
use hoit_f2fs.Segment.Dirty.Counted.{DirtyCounted}
use hoit_f2fs.Segment.Prefree.{
  Discards, by_segments, clear_bits, skip_sections, clear_prefree, clear_prefree_segments,
}

module _ (start : ℕ) (map : Array Bool) where
  bit-clear_bits :
      (n i : ℕ) → clear_bits start n map i ≡ (not (leb start i && ltb i (start + n)) && map i)
  unfolding clear_bits
  bit-clear_bits zero i = ground arith
  bit-clear_bits (suc n) i = ground (arith, bit-clear_bits n i)

  -- Bits that are all set are counted no more.
  count-clear_bits :
      (n size : ℕ)
      → start + n ≤ size
      → ((i : ℕ) → start ≤ i → i < start + n → map i ≡ true)
      → count is_set (clear_bits start n map) size + n ≡ count is_set map size
  unfolding clear_bits
  count-clear_bits zero size le set = omega arith
  count-clear_bits (suc n) size le set =
      let rest = count-clear_bits n size (omega arith) (λ i lo hi. set i lo (omega arith)) in
      let one = count-update is_set (clear_bits start n map) (start + n) false size (omega arith) in
      let last = bit-clear_bits n (start + n) in ground (arith, rest, one, last, set (start + n))

-- No segment is prefree, the counts are right, and the other lists are as before.
pub record Cleared (main_segs : ℕ) (d d' : DirtySeglist) : Type 0 where
  pub none_pre : (seg : ℕ) → seg < main_segs → d'.dirty_segmap pre seg ≡ false
  pub others : (t : ℕ) → t ≢ pre → d'.dirty_segmap t ≡ d.dirty_segmap t
  pub counts : DirtyCounted main_segs d'

module _ (b : BitSearch) (segs_per_sec main_segs : ℕ) (o : Discards)
    (small : (start end : ℕ) → by_segments b segs_per_sec main_segs o start end ≡ true) where
  -- One run of prefree segments.
  module _ (from : ℕ) (d : DirtySeglist) (c : DirtyCounted main_segs d)
      (before : (i : ℕ) → i < from → i < main_segs → d.dirty_segmap pre i ≡ false) where
    abbrev start : ℕ
    start = b.find_next_bit (d.dirty_segmap pre) main_segs from

    abbrev end : ℕ
    end = b.find_next_zero_bit (d.dirty_segmap pre) main_segs (start + 1)

    abbrev run_cleared : DirtySeglist
    run_cleared = record d {
      dirty_segmap =
          update d.dirty_segmap pre (clear_bits start (end - start) (d.dirty_segmap pre));
      nr_dirty = update d.nr_dirty pre (d.nr_dirty pre - (end - start));
    }

    no_more : main_segs ≤ start → Cleared main_segs d d
    no_more le = record {
      none_pre = λ seg less. elim (Bool-cases (ltb seg from)) [
        | inl low ↦ before seg (ground arith) less
        | inr high ↦
            b.next_bit.first (d.dirty_segmap pre) main_segs from seg (ground arith)
              (omega (arith, le))
      ];
      others = λ t ne. refl;
      counts = c;
    }

    module _ (hit : start < main_segs) where
      abbrev map : Array Bool
      map = d.dirty_segmap pre

      run_bounds : (start < end) × (end ≤ main_segs)
      run_bounds =
          let within = b.next_zero_bit.within map main_segs (start + 1) in
          let found = b.next_zero_bit.found map main_segs (start + 1) in
          (ground (arith, found), within)

      run_set : (i : ℕ) → start ≤ i → i < end → map i ≡ true
      run_set i lo hi = elim (Bool-cases (start == i)) [
        | inl first ↦
            let e : start ≡ i = ground arith in
            ap (λ k. map k) (sym e) ∙ (b.next_bit.found map main_segs from hit).1
        | inr later ↦ b.next_zero_bit.first map main_segs (start + 1) i (ground arith) hi
      ]

      run-DirtyCounted : DirtyCounted main_segs run_cleared
      run-DirtyCounted =
          let fewer =
            count-clear_bits start map (end - start) main_segs (omega (arith, run_bounds))
              (λ i lo hi. run_set i lo (omega (arith, run_bounds))) in
          record { counts = λ t. ground (arith, fewer, c.counts t) }

      run_before : (i : ℕ) → i < end + 1 → i < main_segs → run_cleared.dirty_segmap pre i ≡ false
      run_before i less inside =
          let bits = bit-clear_bits start map (end - start) i in
          let from_on = b.next_bit.found map main_segs from hit in
          let low = b.next_bit.first map main_segs from i in
          let stop = b.next_zero_bit.found map main_segs (start + 1) in
          elim (Bool-cases (i == end)) [
            | inl last ↦
                let e : i ≡ end = ground arith in
                let clear = ap (λ k. map k) e ∙ (stop (omega (arith, e))).1 in
                ground (arith, bits, clear)
            | inr inner ↦ ground (arith, bits, from_on, low, before i, run_bounds)
          ]

      one_round :
          (rounds : ℕ)
          → clear_prefree b segs_per_sec main_segs o (suc rounds) from d
            ≡ clear_prefree b segs_per_sec main_segs o rounds (end + 1) run_cleared
      unfolding clear_prefree
      one_round rounds =
          let next : (if by_segments b segs_per_sec main_segs o start end
                then end + 1
                else skip_sections b segs_per_sec main_segs o main_segs start end)
              ≡ end + 1 =
            rw (small start end) refl in
          rw (lt→leb start main_segs hit)
            (ap (λ (n : ℕ). clear_prefree b segs_per_sec main_segs o rounds n run_cleared) next)

  -- The loop.
  clear_prefree-Cleared :
      (rounds from : ℕ) (d : DirtySeglist)
      → DirtyCounted main_segs d
      → ((i : ℕ) → i < from → i < main_segs → d.dirty_segmap pre i ≡ false)
      → main_segs + 2 ≤ rounds + from
      → from ≤ main_segs + 1
      → (d' : DirtySeglist) × (clear_prefree b segs_per_sec main_segs o rounds from d ≡ some d')
        × Cleared main_segs d d'
  unfolding clear_prefree
  clear_prefree-Cleared zero from d c before enough near = absurd (omega arith)
  clear_prefree-Cleared (suc rounds) from d c before enough near =
      elim (Bool-cases (leb main_segs (start from d c before))) [
        | inl full ↦ (d, rw full refl, no_more from d c before (ground arith))
        | inr hit ↦
            let in_map : start from d c before < main_segs = ground arith in
            let bounds = run_bounds from d c before in_map in
            let from_on = b.next_bit.found (d.dirty_segmap pre) main_segs from in_map in
            let (d', e, k) =
              clear_prefree-Cleared rounds (end from d c before + 1) (run_cleared from d c before)
                (run-DirtyCounted from d c before in_map) (run_before from d c before in_map)
                (omega arith) (omega arith) in
            (
              d',
              one_round from d c before in_map rounds ∙ e,
              record {
                none_pre = k.none_pre;
                others = λ t ne. k.others t ne ∙ ground arith;
                counts = k.counts;
              },
            )
      ]

  -- Where the counts are right and no discard is sent by whole sections, the loop of
  -- `f2fs_clear_prefree_segments` ends within two rounds more than there are segments, leaves no
  -- prefree segment and the other lists as they were, and keeps the counts right.
  pub clear_prefree_segments-Cleared :
      (d : DirtySeglist)
      → DirtyCounted main_segs d
      → (d' : DirtySeglist) × (clear_prefree_segments b segs_per_sec main_segs o d ≡ some d')
        × Cleared main_segs d d'
  unfolding clear_prefree_segments
  clear_prefree_segments-Cleared d c =
      clear_prefree-Cleared (main_segs + 2) 0 d c (λ i less. absurd (omega arith)) (omega arith)
        (omega arith)
