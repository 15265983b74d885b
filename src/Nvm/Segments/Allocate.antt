-- ===== src/Nvm/Segments/Allocate.antt =====
-- `nvm_allocate_segment` finds a free segment whenever one is counted, and keeps the invariant.
use hoit_f2fs.Base.{
  ℕ, ◌+◌, ◌%◌, ◌≤◌, ◌<◌, ◌≡◌, ◌≢◌, ◌↔◌, refl, Bool, true, false, some, ◌==◌, le→ltb, if◌then◌else◌,
  bit_or, arith,
}
use hoit_f2fs.Base.Arrays.{count, count-update, count_all}
use hoit_f2fs.Base.BitSearch.{BitSearch}
use hoit_f2fs.Nvm.Entry.{rw_map, rw_redirect, value, map_flag}
use hoit_f2fs.Nvm.Segments.{
  Nvm, segment, no_space, create_mapping, search, take_segment, allocate_segment,
}
use hoit_f2fs.Nvm.Segments.Consistent.{Consistent}
use native.Mathlib.Decide.{dec_lt, ℕ_discrete}
use hoit_f2fs.Nvm.Entry.Digits.{flag_digits}
use hoit_f2fs.Nvm.Entry.Fields.{entry-HasFields}

module _ (b : BitSearch) (s : Nvm) where
  abbrev nums : ℕ
  nums = s.main_segment_nums

  abbrev hit : ℕ → ℕ
  hit segoff = b.find_next_zero_bit s.segment_map nums segoff

  -- A search from the start of the bitmap succeeds when not all segments are taken.
  hit_from_start : count (λ t. t) s.segment_map nums < nums → hit 0 < nums
  hit_from_start h = elim (dec_lt (hit 0) nums) [
    | yes p ↦ p
    | no p ↦
        let full =
          count_all (λ t. t) s.segment_map nums
            (λ i less. b.next_zero_bit.first s.segment_map nums 0 i (omega arith) (omega arith)) in
        absurd (omega arith)
  ]

  pub search_finds :
      (segoff : ℕ)
      → count (λ t. t) s.segment_map nums < nums
      → (n : ℕ) × (search b 2 s segoff ≡ some n) × (n < nums) × (s.segment_map n ≡ false)
  unfolding search
  search_finds segoff h =
      let free = λ (o : ℕ) (p : hit o < nums). (b.next_zero_bit.found s.segment_map nums o p).1 in
      let start = hit_from_start h in
      elim (dec_lt (hit segoff) nums) [
        | yes p ↦ (hit segoff, ground arith, p, free segoff p)
        | no p ↦ (hit 0, ground arith, start, free 0 start)
      ]

module _ (ssd_nums : ℕ) (s : Nvm) (c : Consistent ssd_nums s) where
  -- A free segment is not mapped.
  free_not_mapped :
      (n : ℕ) → n < s.main_segment_nums → s.segment_map n ≡ false → map_flag (s.mpt n) ≡ 0
  free_not_mapped n h free = elim (ℕ_discrete (map_flag (s.mpt n)) 0) [
    | yes e ↦ e
    | no ne ↦ cc (free, (c.nvm_side n h ne).1)
  ]

  take_segment-Consistent :
      (n : ℕ)
      → n < s.main_segment_nums
      → s.segment_map n ≡ false
      → 0 < s.main_segment_free_nums
      → Consistent ssd_nums (take_segment n s)
  unfolding take_segment
  take_segment-Consistent n h free some_free = record {
    small = c.small;
    ssd_side = c.ssd_side;
    nvm_side = λ m hm mapped. ground (arith, c.nvm_side m hm mapped);
    counted =
        ground (arith, c.counted, count-update (λ t. t) s.segment_map n true s.main_segment_nums h);
  }

  module _ (entries_per_blk k n flags : ℕ) where
    -- A mapping between two unmapped segments, of which the NVM segment is taken.
    create_mapping-Consistent :
        k < ssd_nums
        → n < s.main_segment_nums
        → s.segment_map n ≡ true
        → map_flag (s.mpt n) ≡ 0
        → map_flag (s.mpt (s.main_segment_nums + k)) ≡ 0
        → flags < 8
        → flags % 2 ≡ 1
        → Consistent ssd_nums (create_mapping entries_per_blk k n flags s)
    unfolding create_mapping
    create_mapping-Consistent hk hn taken un uk hf odd =
        let ek = entry-HasFields k flags (omega (arith, c.small)) hf in
        let en = entry-HasFields n flags (omega (arith, c.small)) hf in
        let fd = flag_digits flags in
        record {
          small = c.small;
          ssd_side = λ j hj mapped. ground (arith, ek, en, fd, c.ssd_side j hj);
          nvm_side = λ m hm mapped. ground (arith, ek, en, fd, c.nvm_side m hm);
          counted = c.counted;
        }

-- What a successful allocation for the SSD segment `k` does to a state `s`.
pub record TakesFree (ssd_nums k : ℕ) (create : Bool) (s s' : Nvm) (n : ℕ) : Type 0 where
  pub within : n < s.main_segment_nums
  pub was_free : s.segment_map n ≡ false
  pub now_taken : s'.segment_map n ≡ true
  pub one_less : s'.main_segment_free_nums + 1 ≡ s.main_segment_free_nums
  pub others : (m : ℕ) → m ≢ n → s'.segment_map m ≡ s.segment_map m
  pub mapped_to :
      value (s'.mpt (s.main_segment_nums + k))
      ≡ (if create then n else value (s.mpt (s.main_segment_nums + k)))
  pub flagged : map_flag (s'.mpt (s.main_segment_nums + k)) ≡ (if create then 1 else 0)
  pub same_nums : s'.main_segment_nums ≡ s.main_segment_nums
  pub consistent : Consistent ssd_nums s'

module _ (entries_per_blk : ℕ) where
  abbrev pub after : ℕ → Bool → ℕ → Nvm → Nvm
  after k create n s =
      if create
      then create_mapping entries_per_blk k n (bit_or rw_map rw_redirect) (take_segment n s)
      else take_segment n s

module _ (entries_per_blk : ℕ) (b : BitSearch) where
  zero_test : (n : ℕ) → 0 < n → (n == 0) ≡ false
  zero_test n h = ground arith

  pub allocate_segment-eq :
      (k : ℕ) (create : Bool) (s : Nvm) (n : ℕ)
      → 0 < s.main_segment_free_nums
      → s.main_segment_free_nums ≤ s.main_segment_nums
      → search b 2 s s.cur_alloc_nvm_segoff ≡ some n
      → allocate_segment entries_per_blk b k create s
        ≡ (segment n, after entries_per_blk k create n s)
  unfolding allocate_segment
  allocate_segment-eq k create s n pos le e =
      rw (e, le→ltb s.main_segment_nums s.main_segment_free_nums le, zero_test _ pos)

  pub allocate_segment_refuses :
      (k : ℕ) (create : Bool) (s : Nvm)
      → s.main_segment_free_nums ≡ 0
      → allocate_segment entries_per_blk b k create s ≡ (no_space, s)
  unfolding allocate_segment
  allocate_segment_refuses k create s z = ground arith

  pub after-TakesFree :
      (ssd_nums k : ℕ) (create : Bool) (s : Nvm) (n : ℕ)
      → Consistent ssd_nums s
      → k < ssd_nums
      → map_flag (s.mpt (s.main_segment_nums + k)) ≡ 0
      → 0 < s.main_segment_free_nums
      → n < s.main_segment_nums
      → s.segment_map n ≡ false
      → TakesFree ssd_nums k create s (after entries_per_blk k create n s) n
  unfolding take_segment create_mapping
  after-TakesFree ssd_nums k true s n c hk unmapped pos hn free = record {
    within = hn;
    was_free = free;
    now_taken = ground arith;
    one_less = ground arith;
    others = λ m ne. ground arith;
    mapped_to = ground (arith, entry-HasFields n 3 (omega (arith, c.small)) (omega arith));
    flagged =
        ground (arith, entry-HasFields n 3 (omega (arith, c.small)) (omega arith), flag_digits 3);
    same_nums = refl;
    consistent =
        create_mapping-Consistent ssd_nums (take_segment n s)
          (take_segment-Consistent ssd_nums s c n hn free pos) entries_per_blk k n 3 hk hn
          (ground arith) (free_not_mapped ssd_nums s c n hn free) unmapped (omega arith)
          (omega arith);
  }
  after-TakesFree ssd_nums k false s n c hk unmapped pos hn free = record {
    within = hn;
    was_free = free;
    now_taken = ground arith;
    one_less = ground arith;
    others = λ m ne. ground arith;
    mapped_to = refl;
    flagged = unmapped;
    same_nums = refl;
    consistent = take_segment-Consistent ssd_nums s c n hn free pos;
  }

  -- In a consistent state in which free segments are counted, `nvm_allocate_segment` for an
  -- unmapped SSD segment returns an NVM segment that was free. That segment is taken afterwards, no
  -- other changes, one free segment less is counted, the SSD segment is mapped to it if that was
  -- asked for, and the state is consistent again.
  pub allocate_segment-TakesFree :
      (ssd_nums k : ℕ) (create : Bool) (s : Nvm)
      → Consistent ssd_nums s
      → k < ssd_nums
      → map_flag (s.mpt (s.main_segment_nums + k)) ≡ 0
      → 0 < s.main_segment_free_nums
      → (n : ℕ) × (s' : Nvm) × (allocate_segment entries_per_blk b k create s ≡ (segment n, s'))
        × TakesFree ssd_nums k create s s' n
  allocate_segment-TakesFree ssd_nums k create s c hk unmapped pos =
      let (n, e, hn, free) = search_finds b s s.cur_alloc_nvm_segoff (omega (arith, c.counted)) in
      (
        n,
        after entries_per_blk k create n s,
        allocate_segment-eq k create s n pos (omega (arith, c.counted)) e,
        after-TakesFree ssd_nums k create s n c hk unmapped pos hn free,
      )

  -- With no free segment counted the allocation fails with -ENVMNOSPACE and changes nothing, and in
  -- a consistent state it fails in no other case.
  pub allocate_segment_no_space :
      (ssd_nums k : ℕ) (create : Bool) (s : Nvm)
      → Consistent ssd_nums s
      → (allocate_segment entries_per_blk b k create s ≡ (no_space, s))
        ↔ (s.main_segment_free_nums ≡ 0)
  allocate_segment_no_space ssd_nums k create s c = (
    λ e. elim (ℕ_discrete s.main_segment_free_nums 0) [
      | yes z ↦ z
      | no ne ↦
          let (n, found, _, _) =
            search_finds b s s.cur_alloc_nvm_segoff (omega (arith, c.counted)) in
          cc (e, allocate_segment-eq k create s n (omega arith) (omega (arith, c.counted)) found)
    ],
    λ z. allocate_segment_refuses k create s z,
  )
