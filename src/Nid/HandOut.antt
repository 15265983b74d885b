-- ===== src/Nid/HandOut.antt =====
-- What `f2fs_alloc_nid` hands out.
use mathlib.Core.Path.{subst}
use hoit_f2fs.Base.{
  ℕ, ◌+◌, ◌-◌, ◌<◌, ◌≡◌, Bool, true, false, not, ◌&&◌, some, List, [], ◌∷◌, ◌==◌, if◌then◌else◌,
  refl, arith,
}
use hoit_f2fs.Base.Arrays.{update}
use hoit_f2fs.Base.Lists.{length}
use hoit_f2fs.Nid.{
  free_nid, prealloc_nid, FreeNids, allocated, exhausted, rebuild, move_free_nid,
  update_free_nid_bitmap, hand_out, alloc_nid,
}
use hoit_f2fs.Nid.Consistent.{IsConsistent, update_free_nid_bitmap-SameNids}
use hoit_f2fs.Nid.Steps.{head_free}

-- What handing out a number does.
pub record HandsOut (nid : ℕ) (s t : FreeNids) : Type 0 where
  pub was_free : s.root nid ≡ some free_nid
  pub now_held : t.root ≡ update s.root nid (some prealloc_nid)
  pub one_less : t.available_nids ≡ s.available_nids - 1
  pub moved : (t.cnt_free ≡ s.cnt_free - 1) × (t.cnt_prealloc ≡ s.cnt_prealloc + 1)

module _ (per_block max_nid : ℕ) where
  same_available :
      (nid : ℕ) (s : FreeNids)
      → (update_free_nid_bitmap per_block nid false false s).available_nids ≡ s.available_nids
  unfolding update_free_nid_bitmap
  same_available nid s = ground arith

  allocated-inj : (n m : ℕ) → allocated n ≡ allocated m → n ≡ m
  allocated-inj n m e = ground arith

  pub head_HandsOut :
      (n : ℕ) (ns : List ℕ) (s : FreeNids)
      → IsConsistent max_nid s
      → s.free_list ≡ n ∷ ns
      → HandsOut n s (hand_out per_block (n ∷ ns) s).1
  unfolding hand_out move_free_nid
  head_HandsOut n ns s c e =
      let t = move_free_nid n prealloc_nid s in
      let u : FreeNids = record t { available_nids = t.available_nids - 1 } in
      let k = update_free_nid_bitmap-SameNids per_block n false false u in
      record {
        was_free = head_free per_block max_nid n ns s c e;
        now_held = k.same_root;
        one_less = same_available n u;
        moved = (k.same_free, k.same_prealloc);
      }

  hand_out-HandsOut :
      (l : List ℕ) (s : FreeNids) (nid : ℕ)
      → IsConsistent max_nid s
      → s.free_list ≡ l
      → (hand_out per_block l s).0 ≡ allocated nid
      → HandsOut nid s (hand_out per_block l s).1
  unfolding hand_out
  hand_out-HandsOut [] s nid c e h = absurd (ground arith)
  hand_out-HandsOut (n ∷ ns) s nid c e h =
      subst (λ m. HandsOut m s (hand_out per_block (n ∷ ns) s).1) (allocated-inj n nid h)
        (head_HandsOut n ns s c e)

  choice-HandsOut :
      (empty ready : Bool) (s : FreeNids) (nid : ℕ)
      → IsConsistent max_nid s
      → (if empty
          then (exhausted, s)
          else if ready
          then hand_out per_block s.free_list s
          else (rebuild, s)).0
        ≡ allocated nid
      → HandsOut nid s
          (if empty
            then (exhausted, s)
            else if ready
            then hand_out per_block s.free_list s
            else (rebuild, s)).1
  choice-HandsOut true ready s nid c h = absurd (ground arith)
  choice-HandsOut false true s nid c h = hand_out-HandsOut s.free_list s nid c refl h
  choice-HandsOut false false s nid c h = absurd (ground arith)

-- In a consistent state `f2fs_alloc_nid` hands out only a number that was free, and makes it
-- preallocated, counts one free number and one available number less and one preallocated number
-- more, and changes the state of no other number.
pub alloc_nid-HandsOut :
    (per_block max_nid nid : ℕ) (building : Bool) (s : FreeNids)
    → IsConsistent max_nid s
    → (alloc_nid per_block building s).0 ≡ allocated nid
    → HandsOut nid s (alloc_nid per_block building s).1
unfolding alloc_nid
alloc_nid-HandsOut pb mx nid building s c h =
    choice-HandsOut pb mx (s.available_nids == 0) (not (s.cnt_free == 0) && not building) s nid c h

positive : (n : ℕ) → 0 < n → (n == 0) ≡ false
positive n h = ground arith

hand_out_some :
    (per_block : ℕ) (l : List ℕ) (s : FreeNids)
    → 0 < length l
    → (nid : ℕ) × ((hand_out per_block l s).0 ≡ allocated nid)
unfolding hand_out
hand_out_some per_block [] s h = absurd (omega arith)
hand_out_some per_block (n ∷ ns) s h = (n, refl)

alloc_nid_returns :
    (per_block max_nid : ℕ) (s : FreeNids)
    → IsConsistent max_nid s
    → 0 < s.available_nids
    → 0 < s.cnt_free
    → (nid : ℕ) × ((alloc_nid per_block false s).0 ≡ allocated nid)
unfolding alloc_nid
alloc_nid_returns per_block max_nid s c available some_free =
    let (nid, e) = hand_out_some per_block s.free_list s (omega (arith, c.counted_free)) in
    (nid, rw (positive s.available_nids available) (rw (positive s.cnt_free some_free) e))

-- In a consistent state with available and listed free numbers, and while `f2fs_build_free_nids`
-- does not run, `f2fs_alloc_nid` hands out a number in its first round: one that was free, which is
-- preallocated afterwards and counted so, while the state of each other number stays.
pub alloc_nid_succeeds :
    (per_block max_nid : ℕ) (s : FreeNids)
    → IsConsistent max_nid s
    → 0 < s.available_nids
    → 0 < s.cnt_free
    → (nid : ℕ) × ((alloc_nid per_block false s).0 ≡ allocated nid)
      × HandsOut nid s (alloc_nid per_block false s).1
alloc_nid_succeeds per_block max_nid s c available some_free =
    let (nid, e) = alloc_nid_returns per_block max_nid s c available some_free in
    (nid, e, alloc_nid-HandsOut per_block max_nid nid false s c e)
