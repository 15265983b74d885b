-- ===== src/Victim/Search/Least.antt =====
-- The search of a victim segment by segment ends, and finds the least cost.
use hoit_f2fs.Base.{
  ℕ, zero, suc, ◌+◌, ◌≤◌, ◌<◌, ◌≡◌, ◌≢◌, ◌⊎◌, Bool, true, ◌&&◌, ◌||◌, Option, some, leb, ltb, ◌==◌,
  if◌then◌else◌, refl, sym, ap, ◌∙◌, arith, inl, inr, Bool-cases, ==_false,
}
use hoit_f2fs.Base.Arrays.{Array}
use hoit_f2fs.Base.BitSearch.{BitSearch}
use hoit_f2fs.Segment.Dirty.{null_segno}
use hoit_f2fs.Victim.{Times}
use hoit_f2fs.Victim.Search.{Scan, consider, step_over, resume_at, search_victim}
use hoit_f2fs.Victim.Search.Count.{upto, upto_mono, none_between, same_count, upto_none, upto_next}

module _ (main_segs : ℕ) (map eligible : Array Bool) (c : ℕ → ℕ) where
  -- A dirty segment of the device that may be chosen.
  pub record IsCandidate (seg : ℕ) : Type 0 where
    pub inside : seg < main_segs
    pub is_dirty : map seg ≡ true
    pub may : eligible seg ≡ true

  -- The victim is a candidate with the cost noted, or there is none and the cost is `most`.
  abbrev pub IsVictim : ℕ → Scan → Type 0
  IsVictim most st =
      ((st.min_segno ≡ null_segno) × (st.min_cost ≡ most))
      ⊎ (IsCandidate st.min_segno × (c st.min_segno ≡ st.min_cost))

  -- No candidate costs less.
  pub record IsLeast (most : ℕ) (st : Scan) : Type 0 where
    pub least : (seg : ℕ) → IsCandidate seg → st.min_cost ≤ c seg
    pub victim : IsVictim most st

  -- While the search goes on: a candidate that costs less is still to come, behind the place or, after
  -- the turn at the end, before `w`; the segments looked at are counted.
  pub record IsGoing (most w : ℕ) (st : Scan) : Type 0 where
    pub at : st.offset ≤ st.last_segment
    pub within : st.last_segment ≤ main_segs
    pub last_within : st.last ≤ main_segs
    pub to_come :
        (seg : ℕ)
        → IsCandidate seg
        → c seg < st.min_cost
        → ((leb st.offset seg && ltb seg st.last_segment) || ltb seg w) ≡ true
    pub looked_at :
        st.nsearched + upto map st.last_segment + upto map w
        ≡ upto map main_segs + upto map st.offset
    pub turn : (w ≡ 0) ⊎ (w ≡ st.last)
    pub more : st.nsearched < upto map main_segs
    pub so_far : IsVictim most st

  module _ (b : BitSearch) (max_search last_victim : ℕ) (cost : ℕ → Times → ℕ × Times)
      (pure : (seg : ℕ) (t : Times) → cost seg t ≡ (c seg, t))
      (all : max_search ≡ upto map main_segs) (most : ℕ) where
    abbrev search : ℕ → Scan → Option Scan
    search rounds st =
        search_victim b main_segs map 1 max_search last_victim eligible cost rounds st

    abbrev hit : Scan → ℕ
    hit st = b.find_next_bit map st.last_segment st.offset

    abbrev looked : Scan → Scan
    looked st =
        consider b main_segs map 1 max_search last_victim eligible cost (hit st)
          (step_over b main_segs map 1 max_search last_victim eligible cost (hit st) st)

    abbrev wrapped : Scan → Scan
    wrapped st = record st { last_segment = st.last; last = 0; offset = 0 }

    module _ (w : ℕ) (st : Scan) (g : IsGoing most w st) where
      -- At the end of the range, nothing is left in it.
      none_left : st.last_segment ≤ hit st → upto map st.last_segment ≡ upto map st.offset
      none_left end =
          same_count map st.offset st.last_segment g.at
            (λ i lo hi. b.next_bit.first map st.last_segment st.offset i lo (omega (arith, end)))

      -- Something is to come yet, so the search is to turn.
      w_is_last : st.last_segment ≤ hit st → w ≡ st.last
      w_is_last end =
          let left = none_left end in
          let none = upto_none map in
          let looked = g.looked_at in
          elim g.turn [
            | inl e ↦ absurd (let z = ap (λ n. upto map n) e in omega (arith, z, g.more))
            | inr e ↦ e
          ]

      turn_due : st.last_segment ≤ hit st → st.last ≢ 0
      turn_due end z =
          let e = ap (λ n. upto map n) (w_is_last end ∙ z) in
          omega (arith, e, none_left end, upto_none map, g.looked_at, g.more)

      turns-IsGoing : st.last_segment ≤ hit st → IsGoing most 0 (wrapped st)
      turns-IsGoing end =
          let e = w_is_last end in
          let at_w = ap (λ n. upto map n) e in
          record {
            at = omega arith;
            within = g.last_within;
            last_within = omega arith;
            to_come = λ seg k less. ground (
              arith,
              e,
              g.to_come seg k less,
              k.is_dirty,
              end,
              b.next_bit.first map st.last_segment st.offset seg,
            );
            looked_at = omega (arith, at_w, none_left end, upto_none map, g.looked_at);
            turn = inl refl;
            more = g.more;
            so_far = g.so_far;
          }

      module _ (here : hit st < st.last_segment) where
        found_here : (st.offset ≤ hit st) × (map (hit st) ≡ true)
        found_here = b.next_bit.found map st.last_segment st.offset here

        counted_here : upto map (hit st + 1) ≡ upto map st.offset + 1
        counted_here =
            upto_next map (hit st) found_here.1
            ∙ ap (λ n. n + 1)
                (same_count map st.offset (hit st) found_here.0
                  (λ i lo hi. b.next_bit.first map st.last_segment st.offset i lo hi))

        looked_fields :
            ((looked st).offset ≡ hit st + 1)
            × ((looked st).nsearched ≡ st.nsearched + 1)
            × ((looked st).last_segment ≡ st.last_segment)
            × ((looked st).last ≡ st.last)
        unfolding consider step_over
        looked_fields = (ground arith, ground arith, ground arith, ground arith)

        cost_here : (cost (hit st) st.seen_times).0 ≡ c (hit st)
        cost_here = ap (λ (q : ℕ × Times). q.0) (pure (hit st) st.seen_times)

        looked_cost :
            ((looked st).min_cost ≤ st.min_cost)
            × (eligible (hit st) ≡ true → (looked st).min_cost ≤ c (hit st))
        unfolding consider step_over
        looked_cost = (ground (arith, cost_here), λ may. ground (arith, cost_here))

        looked-IsVictim : IsVictim most (looked st)
        unfolding consider step_over
        looked-IsVictim = elim (Bool-cases (eligible (hit st))) [
          | inr barred ↦ rw barred g.so_far
          | inl may ↦ elim (Bool-cases (ltb (cost (hit st) st.seen_times).0 st.min_cost)) [
            | inr dearer ↦ rw may (rw dearer g.so_far)
            | inl cheaper ↦ rw may (
                rw cheaper (
                  inr (
                    record {
                      inside = omega (arith, g.within, here);
                      is_dirty = found_here.1;
                      may = may;
                    },
                    sym cost_here,
                  )))
          ]
        ]

        -- A candidate that costs less than the best now stands behind the segment or before `w`.
        still_to_come :
            (seg : ℕ)
            → IsCandidate seg
            → c seg < (looked st).min_cost
            → ((leb (looked st).offset seg && ltb seg (looked st).last_segment) || ltb seg w) ≡ true
        still_to_come seg k less =
            let (off, n, end, last) = looked_fields in
            let (best, own) = looked_cost in
            let other : seg ≢ hit st = λ e.
              let may = ap eligible (sym e) ∙ k.may in
              let same = ap c e in omega (arith, own may, same, less) in
            ground (
              arith,
              off,
              end,
              other,
              k.is_dirty,
              g.to_come seg k (omega (arith, best, less)),
              b.next_bit.first map st.last_segment st.offset seg,
            )

        -- The search goes on behind the segment,
        looked-IsGoing : (looked st).nsearched < upto map main_segs → IsGoing most w (looked st)
        looked-IsGoing more =
            let (off, n, end, last) = looked_fields in
            record {
              at = omega (arith, off, end, here);
              within = omega (arith, end, g.within);
              last_within = omega (arith, last, g.last_within);
              to_come = λ seg k less. still_to_come seg k less;
              looked_at =
                  let at_end = ap (λ i. upto map i) end in
                  let at_off = ap (λ i. upto map i) off in
                  omega (arith, n, at_end, at_off, counted_here, g.looked_at);
              turn = elim g.turn [ inl e ↦ inl e | inr e ↦ inr (e ∙ sym last) ];
              more = more;
              so_far = looked-IsVictim;
            }

        -- or ends, where all have been looked at.
        looked-IsLeast : upto map main_segs ≤ (looked st).nsearched → IsLeast most (looked st)
        looked-IsLeast done =
            let (off, n, end, last) = looked_fields in
            let rises = upto_mono map (hit st + 1) st.last_segment (omega (arith, here)) in
            let none_after : upto map st.last_segment ≤ upto map (hit st + 1) =
              omega (arith, n, counted_here, g.looked_at) in
            let none_before : upto map w ≤ upto map 0 =
              omega (arith, n, counted_here, g.looked_at, rises) in
            record {
              least = λ seg k. elim (Bool-cases (ltb (c seg) (looked st).min_cost)) [
                | inr dear ↦ ground arith
                | inl less ↦ absurd (
                    let later = still_to_come seg k (ground arith) in
                    ground (
                      arith,
                      later,
                      off,
                      end,
                      k.is_dirty,
                      none_between map (hit st + 1) st.last_segment seg none_after,
                      none_between map 0 w seg none_before,
                    ))
              ];
              victim = looked-IsVictim;
            }

    abbrev rounds_due : Scan → ℕ
    rounds_due st = st.last_segment + 1 + (if st.last == 0 then 0 else st.last + 1)

    -- The loop ends, and no candidate costs less than the victim.
    pub search_victim-IsLeast :
        (rounds w : ℕ) (st : Scan)
        → IsGoing most w st
        → rounds_due st ≤ rounds + st.offset
        → (st' : Scan) × (search rounds st ≡ some st') × IsLeast most st'
    unfolding search_victim
    search_victim-IsLeast zero w st g enough = absurd (ground (arith, g.at))
    search_victim-IsLeast (suc rounds) w st g enough =
        elim (Bool-cases (leb st.last_segment (hit st))) [
          | inl end ↦
              let over : st.last_segment ≤ hit st = ground arith in
              let due = turn_due w st g over in
              let (st', e, l) =
                search_victim-IsLeast rounds 0 (wrapped st) (turns-IsGoing w st g over)
                  (ground (arith, due, g.at)) in
              (st', rw end (rw (==_false st.last 0 due) e), l)
          | inr inner ↦
              let here : hit st < st.last_segment = ground arith in
              let (off, n, last_seg, last) = looked_fields w st g here in
              elim (Bool-cases (leb max_search (looked st).nsearched)) [
                | inl done ↦
                    let l = looked-IsLeast w st g here (ground (arith, all)) in
                    (
                      record (looked st) {
                        last =
                            resume_at b main_segs map 1 max_search last_victim eligible cost
                              (hit st) (looked st);
                      },
                      rw inner (rw done refl),
                      record { least = l.least; victim = l.victim },
                    )
                | inr open_end ↦
                    let (st', e, l) =
                      search_victim-IsLeast rounds w (looked st)
                        (looked-IsGoing w st g here (ground (arith, all)))
                        (ground (
                          arith,
                          off,
                          last_seg,
                          last,
                          b.next_bit.found map st.last_segment st.offset here,
                        )) in
                    (st', rw inner (rw open_end e), l)
              ]
        ]
