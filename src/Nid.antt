-- ===== src/Nid.antt =====
-- The free node numbers of node.c and node.h. A number that is handed out is preallocated until its
-- node is made or given up.
pub mod Lists
pub mod Consistent
pub mod Steps
pub mod HandOut
pub mod Once
mod Tests
use hoit_f2fs.Base.{
  ℕ, zero, suc, ◌+◌, ◌-◌, ◌*◌, ◌/◌, ◌%◌, Bool, true, false, not, ◌&&◌, ◌||◌, Option, none, some,
  List, [], ◌∷◌, ◌++◌, ◌==◌, if◌then◌else◌,
}
use hoit_f2fs.Base.Arrays.{Array, update}

pub data NidState : Type 0 where
  free_nid prealloc_nid : NidState

-- The fields of `f2fs_nm_info` for the free numbers: the tree `free_nid_root` as the state of each
-- number in it, the list of those that are free, and the two elements of `nid_cnt`.
pub record FreeNids : Type 0 where
  pub root : Array (Option NidState)
  pub free_list : List ℕ
  pub cnt_free : ℕ
  pub cnt_prealloc : ℕ
  pub available_nids : ℕ
  pub nat_block_bitmap : Array Bool
  pub free_nid_bitmap : Array (Array Bool)
  pub free_nid_count : Array ℕ

-- What `__lookup_nat_cache` knows of a number.
pub record NatInfo : Type 0 where
  pub checkpointed : Bool
  pub blkaddr : ℕ

abbrev pub present : Option NidState → Bool
present none = false
present (some st) = true

abbrev pub is_free : Option NidState → Bool
is_free none = false
is_free (some free_nid) = true
is_free (some prealloc_nid) = false

abbrev pub is_prealloc : Option NidState → Bool
is_prealloc none = false
is_prealloc (some free_nid) = false
is_prealloc (some prealloc_nid) = true

-- `list_del`.
abbrev pub list_del : ℕ → List ℕ → List ℕ
list_del n [] = []
list_del n (x ∷ xs) = let rest = list_del n xs in if n == x then xs else x ∷ rest

-- `__insert_free_nid` for a number whose state is FREE_NID; it fails where the number is in the tree.
pub insert_free_nid : ℕ → FreeNids → FreeNids
insert_free_nid nid s = if present (s.root nid) then s else record s {
  root = update s.root nid (some free_nid);
  cnt_free = s.cnt_free + 1;
  free_list = s.free_list ++ nid ∷ [];
}

-- `__remove_free_nid`.
pub take_out : ℕ → NidState → FreeNids → FreeNids
take_out nid free_nid s = record s {
  root = update s.root nid none;
  cnt_free = s.cnt_free - 1;
  free_list = list_del nid s.free_list;
}
take_out nid prealloc_nid s = record s {
  root = update s.root nid none;
  cnt_prealloc = s.cnt_prealloc - 1;
}

-- `__move_free_nid` to the state given, from the other one.
pub move_free_nid : ℕ → NidState → FreeNids → FreeNids
move_free_nid nid prealloc_nid s = record s {
  root = update s.root nid (some prealloc_nid);
  cnt_free = s.cnt_free - 1;
  cnt_prealloc = s.cnt_prealloc + 1;
  free_list = list_del nid s.free_list;
}
move_free_nid nid free_nid s = record s {
  root = update s.root nid (some free_nid);
  cnt_prealloc = s.cnt_prealloc - 1;
  cnt_free = s.cnt_free + 1;
  free_list = s.free_list ++ nid ∷ [];
}

-- The tests of `add_free_nid` under `build` that find a number in use. NULL_ADDR is 0.
abbrev pub in_nat_cache : Option NatInfo → Bool
in_nat_cache none = false
in_nat_cache (some ne) = not ne.checkpointed || not (ne.blkaddr == 0)

pub remove_free_nid : ℕ → FreeNids → FreeNids
unfolding take_out
remove_free_nid nid s = if is_free (s.root nid) then take_out nid free_nid s else s

-- For a number that is preallocated. For one that is not in the tree, the code has a NULL pointer
-- behind its `f2fs_bug_on`; this holds for `alloc_nid_failed` too.
pub alloc_nid_done : ℕ → FreeNids → FreeNids
unfolding take_out
alloc_nid_done nid s = take_out nid prealloc_nid s

-- How one round of `f2fs_alloc_nid` ends: with a number, without one, with the failed `f2fs_bug_on`,
-- or with a call of `f2fs_build_free_nids` and another round.
pub data NidResult : Type 0 where
  allocated : ℕ → NidResult
  exhausted bug rebuild : NidResult

-- `per_block` is NAT_ENTRY_PER_BLOCK.
module _ (per_block : ℕ) where
  pub update_free_nid_bitmap : ℕ → Bool → Bool → FreeNids → FreeNids
  update_free_nid_bitmap nid set build s =
      let nat_ofs = nid / per_block in
      let nid_ofs = nid - nat_ofs * per_block in
      let bits = s.free_nid_bitmap nat_ofs in
      let count = s.free_nid_count nat_ofs in
      if not (s.nat_block_bitmap nat_ofs)
      then s
      else if set
      then (if bits nid_ofs then s else record s {
        free_nid_bitmap = update s.free_nid_bitmap nat_ofs (update bits nid_ofs true);
        free_nid_count = update s.free_nid_count nat_ofs (count + 1);
      })
      else if not (bits nid_ofs)
      then s
      else record s {
        free_nid_bitmap = update s.free_nid_bitmap nat_ofs (update bits nid_ofs false);
        free_nid_count =
            if build then s.free_nid_count else update s.free_nid_count nat_ofs (count - 1);
      }

  -- The end of `add_free_nid`, with its result.
  abbrev pub count_added : ℕ → Bool → Bool → Bool → FreeNids → FreeNids
  count_added nid ret build updates s =
      let t = update_free_nid_bitmap nid ret build s in
      if not updates
      then s
      else if build
      then t
      else record t { available_nids = t.available_nids + 1 }

  pub add_free_nid : ℕ → Bool → Bool → Option NatInfo → FreeNids → Bool × FreeNids
  unfolding insert_free_nid update_free_nid_bitmap
  add_free_nid nid build updates ne s =
      let known = is_free (s.root nid) in
      if nid == 0
      then (false, s)
      else if build && in_nat_cache ne
      then (false, count_added nid false build updates s)
      else if build && present (s.root nid)
      then (known, count_added nid known build updates s)
      else (true, count_added nid true build updates (insert_free_nid nid s))

  -- The number at the head of the list is handed out.
  pub hand_out : List ℕ → FreeNids → NidResult × FreeNids
  unfolding move_free_nid update_free_nid_bitmap
  hand_out [] s = (bug, s)
  hand_out (nid ∷ nids) s =
      let t = move_free_nid nid prealloc_nid s in
      (
        allocated nid,
        update_free_nid_bitmap nid false false (record t { available_nids = t.available_nids - 1 }),
      )

  -- `building` is `on_f2fs_build_free_nids`.
  pub alloc_nid : Bool → FreeNids → NidResult × FreeNids
  unfolding hand_out
  alloc_nid building s =
      if s.available_nids == 0
      then (exhausted, s)
      else if not (s.cnt_free == 0) && not building
      then hand_out s.free_list s
      else (rebuild, s)

  -- `memory` is `f2fs_available_free_memory` for FREE_NIDS.
  pub alloc_nid_failed : ℕ → Bool → FreeNids → FreeNids
  unfolding take_out move_free_nid update_free_nid_bitmap
  alloc_nid_failed nid memory s =
      let t = if memory then move_free_nid nid free_nid s else take_out nid prealloc_nid s in
      if nid == 0
      then s
      else update_free_nid_bitmap nid true false
          (record t { available_nids = t.available_nids + 1 })
