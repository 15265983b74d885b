-- ===== src/Victim/Search/Reuse.antt =====
-- The victim that a log reuses (SSR).
use hoit_f2fs.Base.{
  ℕ, ◌+◌, ◌*◌, ◌≤◌, ◌<◌, ◌≡◌, ◌⊎◌, true, false, ◌&&◌, ◌||◌, Option, some, ◌==◌, refl, ap, ◌∙◌,
  arith, inl, inr, Bool-cases,
}
use hoit_f2fs.Base.Arrays.{count_pos}
use hoit_f2fs.Base.BitSearch.{BitSearch}
use hoit_f2fs.Segment.Sit.{SitInfo, is_nodeseg}
use hoit_f2fs.Segment.Sit.Entry.{is_set}
use hoit_f2fs.Segment.Dirty.{DirtySeglist, null_segno}
use hoit_f2fs.Segment.Dirty.Counted.{DirtyCounted}
use hoit_f2fs.Victim.{
  Config, GcType, VictimState, Policy, Times, ssr, select_policy, get_max_cost, get_gc_cost,
}
use hoit_f2fs.Victim.Search.{
  Scan, Chosen, is_eligible, scan_start, scanned, search_all, take_victim, get_victim,
}
use hoit_f2fs.Victim.Search.Least.{IsCandidate, IsLeast, IsGoing, search_victim-IsLeast}

module _ (b : BitSearch) (k : Config) (sit : SitInfo) (d : DirtySeglist) (t : GcType) (log_type : ℕ)
    (s : VictimState) where
  -- Blocks that are kept for the last checkpoint or valid now: what the reuse cannot write to.
  abbrev pub kept : ℕ → ℕ
  kept seg = (sit.sentries seg).ckpt_valid_blocks

  -- A dirty segment of the type whose section is not in use, nor chosen by the background cleaning
  -- in the case of a background search.
  abbrev pub Reusable : ℕ → Type 0
  Reusable seg =
      IsCandidate k.main_segs (d.dirty_segmap log_type) (is_eligible b k sit d t s) kept seg

  -- Either a reusable segment is chosen that keeps the fewest blocks of all, or every one is full.
  pub data Reuses : Option Chosen → Type 0 where
    reuse :
        (r : Chosen)
        → r.found ≡ true
        → Reusable r.result
        → ((seg : ℕ) → Reusable seg → kept r.result ≤ kept seg)
        → Reuses (some r)
    all_full :
        (r : Chosen)
        → r.found ≡ false
        → ((seg : ℕ) → Reusable seg → k.blocks_per_seg ≤ kept seg)
        → Reuses (some r)

  module _ (counted : DirtyCounted k.main_segs d)
      (uncapped : d.nr_dirty log_type ≤ k.max_victim_search) (small : k.main_segs < null_segno)
      (last_inside : s.last_victim 1 < k.main_segs) where
    abbrev p : Policy
    p = select_policy k t log_type ssr d s

    turn_starts : (p.offset ≡ 0) ⊎ (p.offset ≡ (scan_start b k sit d p s).last)
    unfolding select_policy
    turn_starts = elim (Bool-cases (k.noheap && ((log_type == 0) || is_nodeseg log_type))) [
      | inl from_zero ↦ rw from_zero (inl refl)
      | inr from_last ↦ rw from_last (inr refl)
    ]

    goes_on :
        0 < d.nr_dirty log_type
        → IsGoing k.main_segs p.dirty_segmap
            (is_eligible b k sit d t s)
            kept
            k.blocks_per_seg
            p.offset
            (scan_start b k sit d p s)
    unfolding select_policy get_max_cost
    goes_on some_dirty = record {
      at = ground arith;
      within = omega arith;
      last_within = omega arith;
      to_come = λ seg c less. let i = c.inside in ground arith;
      looked_at = omega arith;
      turn = turn_starts;
      more = omega (arith, counted.counts log_type);
      so_far = inl (refl, refl);
    }

    all_searched : p.max_search ≡ d.nr_dirty log_type
    unfolding select_policy
    all_searched = ground arith

    pure : (seg : ℕ) (u : Times) → get_gc_cost k sit p seg u ≡ (kept seg, u)
    unfolding select_policy get_gc_cost
    pure seg u = refl

    searched :
        0 < d.nr_dirty log_type
        → (st : Scan) × (search_all b k sit d t p s ≡ some st)
          × IsLeast k.main_segs p.dirty_segmap (is_eligible b k sit d t s) kept k.blocks_per_seg st
    unfolding search_all select_policy
    searched some_dirty =
        search_victim-IsLeast k.main_segs p.dirty_segmap (is_eligible b k sit d t s) kept b
          p.max_search (s.last_victim p.greedy) (get_gc_cost k sit p) pure
          (all_searched ∙ counted.counts log_type) k.blocks_per_seg (2 * k.main_segs + 2) p.offset
          (scan_start b k sit d p s) (goes_on some_dirty) (ground arith)

    victim-Reuses :
        (st : Scan)
        → IsLeast k.main_segs p.dirty_segmap (is_eligible b k sit d t s) kept k.blocks_per_seg st
        → Reuses
            (some (take_victim b k sit d t p st.min_segno null_segno (scanned b k sit d p st s)))
    unfolding take_victim select_policy
    victim-Reuses st l = elim l.victim [
      | inl (none_found, cost) ↦
          all_full _ (ground arith) (λ seg c. omega (arith, l.least seg c, cost))
      | inr (c, cost) ↦
          let e : (take_victim b k sit d t p st.min_segno null_segno
                (scanned b k sit d p st s)).result
              ≡ st.min_segno =
            ground (arith, c.inside) in
          reuse _ (ground (arith, c.inside))
            (record {
              inside = omega (arith, e, c.inside);
              is_dirty = ap (d.dirty_segmap log_type) e ∙ c.is_dirty;
              may = ap (is_eligible b k sit d t s) e ∙ c.may;
            })
            (λ seg other. let same = ap kept e in omega (arith, same, cost, l.least seg other))
    ]

    -- Where the counts of dirty segments are right, a search may look at all of them and starts at a
    -- segment of the device, `get_victim_by_default` for the reuse of a segment ends. It chooses one
    -- that keeps the fewest blocks of the dirty segments of the type whose section is not in use and,
    -- for a background search, not chosen by the background cleaning already; or none where each of
    -- these is full.
    pub get_victim-Reuses : Reuses (get_victim b k sit d null_segno t log_type ssr s)
    unfolding get_victim select_policy
    get_victim-Reuses = elim (Bool-cases (d.nr_dirty log_type == 0)) [
      | inl none_dirty ↦
          let empty : (p.max_search == 0) ≡ true = ground (arith, all_searched) in
          rw empty (
            all_full _ refl (λ seg c. absurd (
              let pos =
                count_pos is_set (d.dirty_segmap log_type) k.main_segs seg c.inside c.is_dirty in
              ground (arith, pos, counted.counts log_type))))
      | inr some_dirty ↦
          let (st, e, l) = searched (ground arith) in
          let some_due : (p.max_search == 0) ≡ false = ground (arith, all_searched) in
          rw some_due (rw e (victim-Reuses st l))
    ]
