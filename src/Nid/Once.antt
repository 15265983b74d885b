-- ===== src/Nid/Once.antt =====
-- A number is handed out once until it is given up.
use hoit_f2fs.Base.{
  ℕ, ◌+◌, ◌≡◌, ◌≢◌, Bool, true, false, not, ◌&&◌, Option, none, some, List, [], ◌∷◌, ◌==◌, refl,
  arith, inl, inr, Bool-cases, ◌∙◌, ap,
}
use hoit_f2fs.Nid.{
  free_nid, prealloc_nid, FreeNids, NatInfo, allocated, present, is_free, in_nat_cache,
  insert_free_nid, take_out, move_free_nid, update_free_nid_bitmap, count_added, add_free_nid,
  remove_free_nid, hand_out, alloc_nid, alloc_nid_done, alloc_nid_failed,
}
use hoit_f2fs.Nid.Consistent.{IsConsistent, SameNids, update_free_nid_bitmap-SameNids}
use hoit_f2fs.Nid.Steps.{
  Step, adding, removing, allocating, finishing, failing, count_added-SameNids, Step-IsConsistent,
}
use hoit_f2fs.Nid.HandOut.{head_HandsOut, alloc_nid-HandsOut}

-- Steps that do not give up the number.
pub data Run (per_block max_nid nid : ℕ) : FreeNids → FreeNids → Type 0 where
  start : (s : FreeNids) → Run per_block max_nid nid s s
  more :
      (given_up : Option ℕ) (s t u : FreeNids)
      → given_up ≢ some nid
      → Step per_block max_nid given_up s t
      → Run per_block max_nid nid t u
      → Run per_block max_nid nid s u

module _ (per_block max_nid nid : ℕ) where
  same :
      (s t : FreeNids)
      → SameNids s t
      → s.root nid ≡ some prealloc_nid
      → t.root nid ≡ some prealloc_nid
  same s t k e = ap (λ r. r nid) k.same_root ∙ e

  insert_free_nid-keeps :
      (n : ℕ) (s : FreeNids)
      → s.root nid ≡ some prealloc_nid
      → (insert_free_nid n s).root nid ≡ some prealloc_nid
  unfolding insert_free_nid
  insert_free_nid-keeps n s e = elim (Bool-cases (present (s.root n))) [
    | inl there ↦ rw there e
    | inr new ↦ rw new (ground arith)
  ]

  add_free_nid-keeps :
      (n : ℕ) (build updates : Bool) (ne : Option NatInfo) (s : FreeNids)
      → s.root nid ≡ some prealloc_nid
      → (add_free_nid per_block n build updates ne s).1.root nid ≡ some prealloc_nid
  unfolding add_free_nid
  add_free_nid-keeps n build updates ne s e = elim (Bool-cases (n == 0)) [
    | inl zero_nid ↦ rw zero_nid e
    | inr pos ↦ rw pos (elim (Bool-cases (build && in_nat_cache ne)) [
      | inl used ↦ rw used (
          same s (count_added per_block n false build updates s)
            (count_added-SameNids per_block max_nid n false build updates s) e)
      | inr unused ↦ rw unused (elim (Bool-cases (build && present (s.root n))) [
        | inl there ↦
            let known = is_free (s.root n) in
            rw there (
              same s (count_added per_block n known build updates s)
                (count_added-SameNids per_block max_nid n known build updates s) e)
        | inr new ↦
            let t = insert_free_nid n s in
            rw new (
              same t (count_added per_block n true build updates t)
                (count_added-SameNids per_block max_nid n true build updates t)
                (insert_free_nid-keeps n s e))
      ])
    ])
  ]

  unfolded_nil :
      (s : FreeNids)
      → s.root nid ≡ some prealloc_nid
      → (hand_out per_block [] s).1.root nid ≡ some prealloc_nid
  unfolding hand_out
  unfolded_nil s e = e

  hand_out-keeps :
      (l : List ℕ) (s : FreeNids)
      → IsConsistent max_nid s
      → s.free_list ≡ l
      → s.root nid ≡ some prealloc_nid
      → (hand_out per_block l s).1.root nid ≡ some prealloc_nid
  hand_out-keeps [] s c l e = unfolded_nil s e
  hand_out-keeps (n ∷ ns) s c l e =
      let k = head_HandsOut per_block max_nid n ns s c l in
      ap (λ r. r nid) k.now_held ∙ ground (arith, k.was_free)

  alloc_nid-keeps :
      (building : Bool) (s : FreeNids)
      → IsConsistent max_nid s
      → s.root nid ≡ some prealloc_nid
      → (alloc_nid per_block building s).1.root nid ≡ some prealloc_nid
  unfolding alloc_nid
  alloc_nid-keeps building s c e = elim (Bool-cases (s.available_nids == 0)) [
    | inl empty ↦ rw empty e
    | inr some_nid ↦ rw some_nid (elim (Bool-cases (not (s.cnt_free == 0) && not building)) [
      | inl ready ↦ rw ready (hand_out-keeps s.free_list s c refl e)
      | inr waits ↦ rw waits e
    ])
  ]

  failed-keeps :
      (n : ℕ) (t : FreeNids)
      → t.root nid ≡ some prealloc_nid
      → (update_free_nid_bitmap per_block n true false
            (record t { available_nids = t.available_nids + 1 })).root
          nid
        ≡ some prealloc_nid
  failed-keeps n t e =
      let u : FreeNids = record t { available_nids = t.available_nids + 1 } in
      same u (update_free_nid_bitmap per_block n true false u)
        (update_free_nid_bitmap-SameNids per_block n true false u) e

  alloc_nid_failed-keeps :
      (n : ℕ) (memory : Bool) (s : FreeNids)
      → n ≢ nid
      → s.root nid ≡ some prealloc_nid
      → (alloc_nid_failed per_block n memory s).root nid ≡ some prealloc_nid
  unfolding alloc_nid_failed move_free_nid take_out
  alloc_nid_failed-keeps n true s ne e = elim (Bool-cases (n == 0)) [
    | inl none_given ↦ rw none_given e
    | inr given ↦ rw given (failed-keeps n (move_free_nid n free_nid s) (ground arith))
  ]
  alloc_nid_failed-keeps n false s ne e = elim (Bool-cases (n == 0)) [
    | inl none_given ↦ rw none_given e
    | inr given ↦ rw given (failed-keeps n (take_out n prealloc_nid s) (ground arith))
  ]

  Step-keeps :
      (given_up : Option ℕ) (s t : FreeNids)
      → given_up ≢ some nid
      → Step per_block max_nid given_up s t
      → IsConsistent max_nid s
      → s.root nid ≡ some prealloc_nid
      → t.root nid ≡ some prealloc_nid
  unfolding remove_free_nid take_out alloc_nid_done
  Step-keeps _ s _ ne (adding n build updates nat _ less) c e =
      add_free_nid-keeps n build updates nat s e
  Step-keeps _ s _ ne (removing n _) c e = ground arith
  Step-keeps _ s _ ne (allocating building _) c e = alloc_nid-keeps building s c e
  Step-keeps _ s _ ne (finishing n _ f) c e = let k : n ≢ nid = λ q. ne (ap some q) in ground arith
  Step-keeps _ s _ ne (failing n memory _ f) c e =
      alloc_nid_failed-keeps n memory s (λ q. ne (ap some q)) e

  Run-keeps :
      (s t : FreeNids)
      → Run per_block max_nid nid s t
      → IsConsistent max_nid s
      → s.root nid ≡ some prealloc_nid
      → IsConsistent max_nid t × (t.root nid ≡ some prealloc_nid)
  Run-keeps s _ (start _) c e = (c, e)
  Run-keeps s u (more given_up _ t _ ne step run) c e =
      Run-keeps t u run (Step-IsConsistent per_block max_nid given_up s t step c)
        (Step-keeps given_up s t ne step c e)

-- From a consistent state, a number that `f2fs_alloc_nid` has handed out is not handed out again in
-- any run of the operations that does not give this number up by `f2fs_alloc_nid_done` or
-- `f2fs_alloc_nid_failed`.
pub alloc_nid_once :
    (per_block max_nid nid : ℕ) (building again : Bool) (s t : FreeNids)
    → IsConsistent max_nid s
    → (alloc_nid per_block building s).0 ≡ allocated nid
    → Run per_block max_nid nid (alloc_nid per_block building s).1 t
    → (alloc_nid per_block again t).0 ≢ allocated nid
alloc_nid_once pb mx nid building again s t c first run second =
    let s' = (alloc_nid pb building s).1 in
    let held = alloc_nid-HandsOut pb mx nid building s c first in
    let (c', e) =
      Run-keeps pb mx nid s' t run (Step-IsConsistent pb mx none s s' (allocating building s) c)
        (ap (λ r. r nid) held.now_held ∙ ground arith) in
    let free = alloc_nid-HandsOut pb mx nid again t c' second in ground (arith, free.was_free)
