-- ===== src/Nid/Steps.antt =====
-- The operations as steps. Their conditions are those of the code's callers and of its `f2fs_bug_on`.
use hoit_f2fs.Base.{
  ℕ, zero, suc, ◌+◌, ◌-◌, ◌<◌, ◌≡◌, Bool, true, false, not, ◌&&◌, Option, none, some, List, [], ◌∷◌,
  ◌==◌, refl, arith, inl, inr, Bool-cases, ap,
}
use hoit_f2fs.Nid.{
  NidState, free_nid, prealloc_nid, FreeNids, NatInfo, present, is_free, in_nat_cache,
  insert_free_nid, take_out, move_free_nid, update_free_nid_bitmap, count_added, add_free_nid,
  remove_free_nid, hand_out, alloc_nid, alloc_nid_done, alloc_nid_failed,
}
use hoit_f2fs.Nid.Lists.{occurrences}
use hoit_f2fs.Nid.Consistent.{
  IsConsistent, SameNids, insert_free_nid-IsConsistent, take_out_free-IsConsistent,
  take_out_prealloc-IsConsistent, move_prealloc-IsConsistent, move_free-IsConsistent,
  update_free_nid_bitmap-SameNids, SameNids-IsConsistent,
}

module _ (per_block max_nid : ℕ) where
  -- The index names the preallocated number that the step gives up.
  pub data Step : Option ℕ → FreeNids → FreeNids → Type 0 where
    adding :
        (nid : ℕ) (build updates : Bool) (ne : Option NatInfo) (s : FreeNids)
        → nid < max_nid
        → Step none s (add_free_nid per_block nid build updates ne s).1
    removing : (nid : ℕ) (s : FreeNids) → Step none s (remove_free_nid nid s)
    allocating : (building : Bool) (s : FreeNids) → Step none s (alloc_nid per_block building s).1
    finishing :
        (nid : ℕ) (s : FreeNids)
        → s.root nid ≡ some prealloc_nid
        → Step (some nid) s (alloc_nid_done nid s)
    failing :
        (nid : ℕ) (memory : Bool) (s : FreeNids)
        → s.root nid ≡ some prealloc_nid
        → Step (some nid) s (alloc_nid_failed per_block nid memory s)

  below_max :
      (nid : ℕ) (s : FreeNids) (st : NidState)
      → IsConsistent max_nid s
      → s.root nid ≡ some st
      → nid < max_nid
  below_max nid s st c e = ground (arith, c.in_range nid)

  available-SameNids : (s : FreeNids) (n : ℕ) → SameNids s (record s { available_nids = n })
  available-SameNids s n = record {
    same_root = refl;
    same_list = refl;
    same_free = refl;
    same_prealloc = refl;
  }

  pub count_added-SameNids :
      (nid : ℕ) (ret build updates : Bool) (s : FreeNids)
      → SameNids s (count_added per_block nid ret build updates s)
  count_added-SameNids nid ret build updates s =
      let e = update_free_nid_bitmap-SameNids per_block nid ret build s in
      record {
        same_root = ground (arith, e.same_root);
        same_list = ground (arith, e.same_list);
        same_free = ground (arith, e.same_free);
        same_prealloc = ground (arith, e.same_prealloc);
      }

  add_free_nid-IsConsistent :
      (nid : ℕ) (build updates : Bool) (ne : Option NatInfo) (s : FreeNids)
      → nid < max_nid
      → IsConsistent max_nid s
      → IsConsistent max_nid (add_free_nid per_block nid build updates ne s).1
  unfolding add_free_nid
  add_free_nid-IsConsistent nid build updates ne s less c = elim (Bool-cases (nid == 0)) [
    | inl zero_nid ↦ rw zero_nid c
    | inr pos ↦ rw pos (elim (Bool-cases (build && in_nat_cache ne)) [
      | inl used ↦ rw used (
          SameNids-IsConsistent max_nid s (count_added per_block nid false build updates s)
            (count_added-SameNids nid false build updates s) c)
      | inr unused ↦ rw unused (elim (Bool-cases (build && present (s.root nid))) [
        | inl there ↦ rw there (
            SameNids-IsConsistent max_nid s
              (count_added per_block nid (is_free (s.root nid)) build updates s)
              (count_added-SameNids nid (is_free (s.root nid)) build updates s) c)
        | inr new ↦
            let t = insert_free_nid nid s in
            rw new (
              SameNids-IsConsistent max_nid t (count_added per_block nid true build updates t)
                (count_added-SameNids nid true build updates t)
                (insert_free_nid-IsConsistent max_nid nid s c (ground arith) less))
      ])
    ])
  ]

  remove_free_nid-IsConsistent :
      (nid : ℕ) (s : FreeNids)
      → IsConsistent max_nid s
      → IsConsistent max_nid (remove_free_nid nid s)
  unfolding remove_free_nid
  remove_free_nid-IsConsistent nid s c = elim (Bool-cases (is_free (s.root nid))) [
    | inl free ↦
        let e : s.root nid ≡ some free_nid = ground arith in
        rw free (take_out_free-IsConsistent max_nid nid s c (below_max nid s free_nid c e) e)
    | inr other ↦ rw other c
  ]

  -- The head of the list is free.
  pub head_free :
      (nid : ℕ) (nids : List ℕ) (s : FreeNids)
      → IsConsistent max_nid s
      → s.free_list ≡ nid ∷ nids
      → s.root nid ≡ some free_nid
  head_free nid nids s c e = ground (arith, c.listed nid, ap (occurrences nid) e)

  hand_out-IsConsistent :
      (l : List ℕ) (s : FreeNids)
      → IsConsistent max_nid s
      → s.free_list ≡ l
      → IsConsistent max_nid (hand_out per_block l s).1
  unfolding hand_out
  hand_out-IsConsistent [] s c e = c
  hand_out-IsConsistent (nid ∷ nids) s c e =
      let free = head_free nid nids s c e in
      let t = move_free_nid nid prealloc_nid s in
      let u : FreeNids = record t { available_nids = t.available_nids - 1 } in
      SameNids-IsConsistent max_nid u (update_free_nid_bitmap per_block nid false false u)
        (update_free_nid_bitmap-SameNids per_block nid false false u)
        (SameNids-IsConsistent max_nid t u (available-SameNids t (t.available_nids - 1))
          (move_prealloc-IsConsistent max_nid nid s c (below_max nid s free_nid c free) free))

  alloc_nid-IsConsistent :
      (building : Bool) (s : FreeNids)
      → IsConsistent max_nid s
      → IsConsistent max_nid (alloc_nid per_block building s).1
  unfolding alloc_nid
  alloc_nid-IsConsistent building s c = elim (Bool-cases (s.available_nids == 0)) [
    | inl empty ↦ rw empty c
    | inr some_nid ↦ rw some_nid (elim (Bool-cases (not (s.cnt_free == 0) && not building)) [
      | inl ready ↦ rw ready (hand_out-IsConsistent s.free_list s c refl)
      | inr waits ↦ rw waits c
    ])
  ]

  counted_back-IsConsistent :
      (nid : ℕ) (t : FreeNids)
      → IsConsistent max_nid t
      → IsConsistent max_nid (
          update_free_nid_bitmap per_block nid true false
            (record t { available_nids = t.available_nids + 1 }))
  counted_back-IsConsistent nid t c =
      let u : FreeNids = record t { available_nids = t.available_nids + 1 } in
      SameNids-IsConsistent max_nid u (update_free_nid_bitmap per_block nid true false u)
        (update_free_nid_bitmap-SameNids per_block nid true false u)
        (SameNids-IsConsistent max_nid t u (available-SameNids t (t.available_nids + 1)) c)

  pub not_zero :
      (nid : ℕ) (s : FreeNids) (st : NidState)
      → IsConsistent max_nid s
      → s.root nid ≡ some st
      → (nid == 0) ≡ false
  not_zero zero s st c e = absurd (ground (arith, c.zero_unused))
  not_zero (suc n) s st c e = ground arith

  alloc_nid_failed-IsConsistent :
      (nid : ℕ) (memory : Bool) (s : FreeNids)
      → IsConsistent max_nid s
      → s.root nid ≡ some prealloc_nid
      → IsConsistent max_nid (alloc_nid_failed per_block nid memory s)
  unfolding alloc_nid_failed
  alloc_nid_failed-IsConsistent nid true s c e = rw (not_zero nid s prealloc_nid c e) (
      counted_back-IsConsistent nid (move_free_nid nid free_nid s)
        (move_free-IsConsistent max_nid nid s c (below_max nid s prealloc_nid c e) e))
  alloc_nid_failed-IsConsistent nid false s c e = rw (not_zero nid s prealloc_nid c e) (
      counted_back-IsConsistent nid (take_out nid prealloc_nid s)
        (take_out_prealloc-IsConsistent max_nid nid s c (below_max nid s prealloc_nid c e) e))

  alloc_nid_done-IsConsistent :
      (nid : ℕ) (s : FreeNids)
      → IsConsistent max_nid s
      → s.root nid ≡ some prealloc_nid
      → IsConsistent max_nid (alloc_nid_done nid s)
  unfolding alloc_nid_done
  alloc_nid_done-IsConsistent nid s c e =
      take_out_prealloc-IsConsistent max_nid nid s c (below_max nid s prealloc_nid c e) e

-- Each operation keeps the tree, the list and the counts of the free numbers in agreement:
-- `add_free_nid` for a number below the bound, `remove_free_nid`, `f2fs_alloc_nid`, and
-- `f2fs_alloc_nid_done` and `f2fs_alloc_nid_failed` for a preallocated number.
pub Step-IsConsistent :
    (per_block max_nid : ℕ) (given_up : Option ℕ) (s t : FreeNids)
    → Step per_block max_nid given_up s t
    → IsConsistent max_nid s
    → IsConsistent max_nid t
Step-IsConsistent pb mx _ s _ (adding nid build updates ne _ less) c =
    add_free_nid-IsConsistent pb mx nid build updates ne s less c
Step-IsConsistent pb mx _ s _ (removing nid _) c = remove_free_nid-IsConsistent pb mx nid s c
Step-IsConsistent pb mx _ s _ (allocating building _) c = alloc_nid-IsConsistent pb mx building s c
Step-IsConsistent pb mx _ s _ (finishing nid _ e) c = alloc_nid_done-IsConsistent pb mx nid s c e
Step-IsConsistent pb mx _ s _ (failing nid memory _ e) c =
    alloc_nid_failed-IsConsistent pb mx nid memory s c e
